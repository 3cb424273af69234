-- ===== src/Udp/Pieces.antt =====
-- Bytes of the right length are the wire form of some field, and the checks that an accepted
-- datagram has passed.
use mathlib.Core.Bool.{true, false}
use Prim.Native.Nat.{zero}
use authentication_transmiss.Wire.RoundTrip.{bytes32-word_of, bytes64-word_of}
use authentication_transmiss.Udp.Layout.{DetailsMatch, details_bytes, header_bytes, key_bytes}
use authentication_transmiss.Udp.Packet.{
  Packet, native_details, improved_details, DetailsFit, OptionalBlock, AuthenticationDetails,
  GroupDetails, PacketHeader,
}
use authentication_transmiss.Wire.{BinaryReader, word_of, IsU32, IsU64, IsBlock, IsByte}
use authentication_transmiss.Udp.Encode.{add_u32, disclosure_interval_outside, has_value}
use authentication_transmiss.Udp.Context.{
  packet_carries_disclosed_key, interval_of, IsValid, expected_interval, improved, native,
  is_improved_group_end, ModeFields, AuthenticationMode, PacketContext,
}
use authentication_transmiss.Udp.Decode.{
  expected_length, decode_data, decode_disclosure, key_length, mode_length,
}
use mathlib.Core.List.{flatten}
use authentication_transmiss.Prelude.{
  ◌≤◌, ok, ap, ◌∙◌, All-drop, All-take, length-drop, length-take, take-append-drop, drop, take, inr,
  ◌++◌, inl, Bool-cases, some, suc, none, sym, refl, arith, ◌∷◌, Option, ◌+◌, ◌*◌, [], Bool, ◌≡◌,
  ◌≢◌, length, All, ◌<◌, List, ℕ,
}

-- A list of bytes cut after `n` of them.
pub split_bytes :
    (n m : ℕ) (back : List ℕ)
    → All IsByte back
    → length back ≡ n + m
    → (xs rest : List ℕ) × (back ≡ xs ++ rest)
      × (length xs ≡ n)
      × (length rest ≡ m)
      × All IsByte xs
      × All IsByte rest
split_bytes n m back h e = (
  take n back,
  drop n back,
  sym (take-append-drop n back),
  omega (arith, length-take n back),
  omega (arith, length-drop n back),
  All-take IsByte n back h,
  All-drop IsByte n back h,
)

pub nil_of_length {ℓ} : {A : Type ℓ} (xs : List A) → length xs ≡ 0 → xs ≡ []
nil_of_length [] e = refl
nil_of_length (x ∷ xs) e = absurd (omega arith)

blocks_of :
    (n : ℕ) (back : List ℕ)
    → All IsByte back
    → length back ≡ n * 32
    → (taus : List (List ℕ)) × (flatten taus ≡ back) × (length taus ≡ n) × All IsBlock taus
unfolding flatten
blocks_of zero back h e = ([], sym (nil_of_length back e), refl, tt)
blocks_of (suc n) back h e =
    let (t, rest, p, lt, lr, ht, hr) = split_bytes 32 (n * 32) back h (omega arith) in
    let (ts, q, lts, hts) = blocks_of n rest hr lr in
    (t ∷ ts, rw q (sym p), omega arith, ((lt, ht), hts))

pub key_of :
    (b : Bool) (back : List ℕ)
    → All IsByte back
    → length back ≡ key_length b
    → (k : Option (List ℕ)) × (key_bytes k ≡ back) × OptionalBlock k × (has_value k ≡ b)
unfolding key_length has_value
key_of false back h e = (none, sym (nil_of_length back e), tt, refl)
key_of true back h e = (some back, refl, (e, h), refl)

ne_nil_of_length {ℓ} : {A : Type ℓ} (xs : List A) → 0 < length xs → xs ≢ []
ne_nil_of_length [] h = absurd (omega arith)
ne_nil_of_length (x ∷ xs) h = λ e. cc

group_of :
    (c : PacketContext) (back : List ℕ)
    → 0 < c.tau_count
    → All IsByte back
    → length back ≡ (c.tau_count + 1) * 32
    → (g : GroupDetails) × (details_bytes (improved_details (some g)) ≡ back)
      × DetailsFit (improved_details (some g))
      × (length g.samd_tau ≡ c.tau_count)
group_of c back pos h e =
    let (all, tag, p, l_all, l_tag, h_all, h_tag) =
      split_bytes (c.tau_count * 32) 32 back h (omega arith) in
    let (taus, q, l_taus, h_taus) = blocks_of c.tau_count all h_all l_all in
    (
      record { samd_tau = taus; fast_group_tag = tag },
      rw q (sym p),
      (ne_nil_of_length taus (omega arith), h_taus, (l_tag, h_tag)),
      l_taus,
    )

pub details_of :
    (m : AuthenticationMode) (c : PacketContext) (i : ℕ) (back : List ℕ)
    → ModeFields m c
    → All IsByte back
    → length back ≡ mode_length m c i
    → (d : AuthenticationDetails) × (details_bytes d ≡ back) × DetailsFit d × DetailsMatch m d c i
unfolding mode_length has_value
details_of native c i back f h e = (native_details back, refl, (e, h), tt)
details_of improved c i back f h e = elim (Bool-cases (is_improved_group_end c i)) [
  | inl end ↦
      let (g, p, fit, n) = group_of c back f.1 h (rw end at e) in
      (improved_details (some g), p, fit, (sym end, n))
  | inr inner ↦
      (improved_details none, sym (nil_of_length back (rw inner at e)), tt, (sym inner, tt))
]

-- Any 16 bytes are the header of some index triple.
pub header_of :
    (back : List ℕ)
    → All IsByte back
    → length back ≡ 16
    → (h : PacketHeader) × (header_bytes h ≡ back)
      × IsU64 h.chain_id
      × IsU32 h.interval_index
      × IsU32 h.packet_index
header_of back h e =
    let (a, r, p, la, lr, ha, hr) = split_bytes 8 8 back h e in
    let (b, d, q, lb, ld, hb, hd) = split_bytes 4 4 r hr lr in
    let (ua, ea) = bytes64-word_of a la ha in
    let (ub, eb) = bytes32-word_of b lb hb in
    let (ud, ed) = bytes32-word_of d ld hd in
    (
      record {
        chain_id = word_of 64 a;
        interval_index = word_of 32 b;
        packet_index = word_of 32 d;
      },
      (λ i. ea i ++ (eb i ++ ed i)) ∙ sym (p ∙ ap (λ t. a ++ t) q),
      ua,
      ub,
      ud,
    )

-- The checks that an accepted data packet has passed.
pub decode_data-checks :
    (c : PacketContext) (size : ℕ) (h : PacketHeader) (r : BinaryReader) (q : Packet)
    → decode_data c size h r ≡ ok q
    → (0 < h.packet_index)
      × (h.packet_index ≤ c.total_packet_count)
      × (h.interval_index ≡ interval_of h.packet_index c.packets_per_interval)
      × (size
          ≡ expected_length c h.packet_index
              (packet_carries_disclosed_key c h.interval_index h.packet_index))
unfolding decode_data expected_interval
decode_data-checks c size h r q e = ground arith

pub decode_disclosure-checks :
    (c : PacketContext) (size : ℕ) (h : PacketHeader) (r : BinaryReader) (q : Packet)
    → IsValid c
    → decode_disclosure c size h r ≡ ok q
    → (size ≡ 48)
      × (c.disclosure_delay < h.interval_index)
      × (h.interval_index
          ≤ interval_of c.total_packet_count c.packets_per_interval + c.disclosure_delay)
unfolding decode_disclosure expected_interval disclosure_interval_outside add_u32
decode_disclosure-checks c size h r q v e = ground arith
