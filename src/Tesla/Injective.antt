-- ===== src/Tesla/Injective.antt =====
-- The encodings determine what they encode: two inputs with one encoding are one input.
use authentication_transmiss.Wire.RoundTrip.{
  append_uint64_lem, word_of-bytes64, word_of-bytes32, bytes32, bytes64,
}
use authentication_transmiss.Wire.{word_of, IsU64, IsU32}
use authentication_transmiss.Tesla.Input.{IsPacketInput, PacketInput}
use authentication_transmiss.Prelude.{
  tail-eq_of_cons-eq, head-eq_of_cons-eq, ap, ◌^◌, ◌∷◌, refl, ◌%◌, ◌∙◌, arith, [], append_assoc,
  ◌≤◌, ◌/◌, sym, append-injective, length, ◌≡◌, ◌++◌, List, ℕ,
}
use authentication_transmiss.Tesla.Encoder.{
  append_uint16, encode_packet_mac_input, append_sender_id, append_uint32,
}

abbrev pub sender_bytes : List ℕ → List ℕ
sender_bytes s = (length s / 256 % 256) ∷ (length s % 256) ∷ s

pub append_uint32_lem : (out : List ℕ) (v : ℕ) → append_uint32 out v ≡ out ++ bytes32 v
unfolding append_uint32
append_uint32_lem out v = simp append_assoc (ground arith)

pub append_sender_id_lem : (s : List ℕ) → length s ≤ 0xffff → append_sender_id [] s ≡ sender_bytes s
unfolding append_sender_id append_uint16
append_sender_id_lem s h = let e : length s % 2 ^ 16 ≡ length s = omega arith in rw e

abbrev mac_input_bytes : PacketInput → List ℕ
mac_input_bytes p =
    sender_bytes p.sender_id
    ++ (bytes64 p.chain_id ++ (bytes32 p.interval_index ++ (bytes32 p.packet_index ++ p.message)))

encode_packet_mac_input_lem :
    (p : PacketInput) → length p.sender_id ≤ 0xffff → encode_packet_mac_input p ≡ mac_input_bytes p
unfolding encode_packet_mac_input
encode_packet_mac_input_lem p h =
    rw (append_sender_id_lem p.sender_id h)
      (simp (append_uint32_lem, append_uint64_lem, append_assoc))

bytes32-injective : (v w : ℕ) → IsU32 v → IsU32 w → bytes32 v ≡ bytes32 w → v ≡ w
bytes32-injective v w hv hw e =
    sym (word_of-bytes32 v hv) ∙ ap (word_of 32) e ∙ word_of-bytes32 w hw

bytes64-injective : (v w : ℕ) → IsU64 v → IsU64 w → bytes64 v ≡ bytes64 w → v ≡ w
bytes64-injective v w hv hw e =
    sym (word_of-bytes64 v hv) ∙ ap (word_of 64) e ∙ word_of-bytes64 w hw

-- A text behind its length is cut off in one way.
pub sender_bytes-injective :
    (s t : List ℕ) {ys zs : List ℕ}
    → length s ≤ 0xffff
    → length t ≤ 0xffff
    → sender_bytes s ++ ys ≡ sender_bytes t ++ zs
    → (s ≡ t) × (ys ≡ zs)
sender_bytes-injective s t hs ht e =
    let high : length s / 256 % 256 ≡ length t / 256 % 256 = head-eq_of_cons-eq e in
    let low : length s % 256 ≡ length t % 256 = head-eq_of_cons-eq (tail-eq_of_cons-eq e) in
    append-injective s t (omega arith) (tail-eq_of_cons-eq (tail-eq_of_cons-eq e))

pub field32 :
    (v w : ℕ) {ys zs : List ℕ}
    → IsU32 v
    → IsU32 w
    → bytes32 v ++ ys ≡ bytes32 w ++ zs
    → (v ≡ w) × (ys ≡ zs)
field32 v w hv hw e =
    let (p, q) = append-injective (bytes32 v) (bytes32 w) refl e in
    (bytes32-injective v w hv hw p, q)

pub field64 :
    (v w : ℕ) {ys zs : List ℕ}
    → IsU64 v
    → IsU64 w
    → bytes64 v ++ ys ≡ bytes64 w ++ zs
    → (v ≡ w) × (ys ≡ zs)
field64 v w hv hw e =
    let (p, q) = append-injective (bytes64 v) (bytes64 w) refl e in
    (bytes64-injective v w hv hw p, q)

-- No two packet inputs that the constructor accepts have one MAC input.
pub encode_packet_mac_input-injective :
    (p q : PacketInput)
    → IsPacketInput p
    → IsPacketInput q
    → encode_packet_mac_input p ≡ encode_packet_mac_input q
    → p ≡ q
encode_packet_mac_input-injective p q v w e =
    let whole =
      sym (encode_packet_mac_input_lem p v.sender_short)
      ∙ e
      ∙ encode_packet_mac_input_lem q w.sender_short in
    let (s, e1) =
      sender_bytes-injective p.sender_id q.sender_id v.sender_short w.sender_short whole in
    let (c, e2) = field64 p.chain_id q.chain_id v.chain_u64 w.chain_u64 e1 in
    let (i, e3) = field32 p.interval_index q.interval_index v.interval_u32 w.interval_u32 e2 in
    let (k, m) = field32 p.packet_index q.packet_index v.packet_u32 w.packet_u32 e3 in
    λ j. record {
      sender_id = s j;
      chain_id = c j;
      interval_index = i j;
      packet_index = k j;
      message = m j;
    }
