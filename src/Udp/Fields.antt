-- ===== src/Udp/Fields.antt =====
-- The field readers step through the bytes that Layout specifies, and the lengths agree.
use authentication_transmiss.Udp.Context.{
  improved, native, is_improved_group_end, AuthenticationMode, PacketContext,
}
use authentication_transmiss.Prelude.{
  length-append, arith, ◌*◌, true, sym, false, ◌≢◌, ℕ, ◌≡◌, List, [], ◌∷◌, ◌++◌, append_assoc,
  append-nil, Option, none, some, length, refl, ok, All,
}
use authentication_transmiss.Wire.{IsU32, IsU64, IsBlock, reader, bytes_read}
use authentication_transmiss.Wire.RoundTrip.{
  bytes32, bytes64, between, bytes_read-between, u32_read-between, u64_read-between,
  word_of-bytes32, word_of-bytes64,
}
use authentication_transmiss.Udp.Packet.{
  improved_details, native_details, data_packet, DetailsFit, AuthenticationDetails, WellFormed,
  DataPacket, create_data_packet, GroupDetails, create_group_details, PacketHeader, OptionalBlock,
}
use authentication_transmiss.Udp.Encode.{has_value}
use authentication_transmiss.Udp.Layout.{
  packet_bytes, details_bytes, DetailsMatch, Admits, header_bytes, key_bytes,
}
use authentication_transmiss.Udp.Decode.{
  expected_length, mode_length, key_length, read_group_details, read_data, read_details,
  read_header, read_key, read_taus,
}
use mathlib.Core.List.{flatten}

-- A block of 32 bytes is read at the fixed size.
pub block_read :
    (front xs back : List ℕ)
    → length xs ≡ 32
    → bytes_read 32 (between front (xs ++ back)) ≡ ok (xs, between (front ++ xs) back)
block_read front xs back e = rw (← e) (bytes_read-between front xs back)

pub read_header-front :
    (h : PacketHeader) (back : List ℕ)
    → IsU64 h.chain_id
    → IsU32 h.interval_index
    → IsU32 h.packet_index
    → read_header (reader (header_bytes h ++ back)) ≡ ok (h, between (header_bytes h) back)
unfolding read_header
read_header-front h back hc hi hp = rw (
  u64_read-between [] (bytes64 h.chain_id) _ refl,
  u32_read-between _ (bytes32 h.interval_index) _ refl,
  u32_read-between _ (bytes32 h.packet_index) back refl,
  word_of-bytes64 h.chain_id hc,
  word_of-bytes32 h.interval_index hi,
  word_of-bytes32 h.packet_index hp,
)

pub read_taus-front :
    (taus : List (List ℕ)) (front back : List ℕ)
    → All IsBlock taus
    → read_taus (length taus) (between front (flatten taus ++ back))
      ≡ ok (taus, between (front ++ flatten taus) back)
unfolding read_taus flatten
read_taus-front [] front back h = rw append-nil
read_taus-front (t ∷ ts) front back h = rw (
  append_assoc t (flatten ts) back,
  block_read front t (flatten ts ++ back) h.0.0,
  read_taus-front ts (front ++ t) back h.1,
  append_assoc front t (flatten ts),
)

pub read_key-front :
    (k : Option (List ℕ)) (front back : List ℕ)
    → OptionalBlock k
    → read_key (has_value k) (between front (key_bytes k ++ back))
      ≡ ok (k, between (front ++ key_bytes k) back)
unfolding read_key has_value
read_key-front none front back h = rw append-nil
read_key-front (some k) front back h = rw (block_read front k back h.0)

pub create_group_details_lem :
    (g : GroupDetails) (taus : List (List ℕ))
    → g.samd_tau ≡ taus
    → taus ≢ []
    → create_group_details g ≡ ok g
unfolding create_group_details
create_group_details_lem g [] e h = absurd (h refl)
create_group_details_lem g (t ∷ ts) e h = rw (e, create_group_details)

pub read_details-front :
    (m : AuthenticationMode) (d : AuthenticationDetails) (c : PacketContext) (i : ℕ)
    (front back : List ℕ)
    → DetailsFit d
    → DetailsMatch m d c i
    → read_details m c i (between front (details_bytes d ++ back)) ≡ ok d
unfolding read_details read_group_details has_value
read_details-front native (native_details mac) c i front back f h =
    rw (block_read front mac back f.0)
read_details-front native (improved_details g) c i front back f h = absurd h
read_details-front improved (native_details mac) c i front back f h = absurd h
read_details-front improved (improved_details none) c i front back f h =
    let e : is_improved_group_end c i ≡ false = sym h.0 in rw e
read_details-front improved (improved_details (some g)) c i front back f h =
    let e : is_improved_group_end c i ≡ true = sym h.0 in
    rw (
      e,
      append_assoc (flatten g.samd_tau) g.fast_group_tag back,
      ← h.1,
      read_taus-front g.samd_tau front (g.fast_group_tag ++ back) f.1,
      block_read (front ++ flatten g.samd_tau) g.fast_group_tag back f.2.0,
      create_group_details_lem g g.samd_tau refl f.0,
    )

pub read_data-front :
    (p : DataPacket) (c : PacketContext) (front : List ℕ)
    → WellFormed (data_packet p)
    → Admits c (data_packet p)
    → read_data c p.header
        (has_value p.disclosed_key)
        (between front (p.message ++ (key_bytes p.disclosed_key ++ details_bytes p.details)))
      ≡ ok (data_packet p)
unfolding read_data create_data_packet
read_data-front p c front w a =
    rw
      (
        block_read front p.message _ w.6.0,
        read_key-front p.disclosed_key (front ++ p.message) (details_bytes p.details) w.7,
        ← append-nil (details_bytes p.details),
        read_details-front c.mode p.details c p.packet_index _ [] w.8 a.4,
      )
      (ground arith)

pub length-flatten :
    (taus : List (List ℕ)) → All IsBlock taus → length (flatten taus) ≡ 32 * length taus
unfolding flatten
length-flatten [] h = refl
length-flatten (t ∷ ts) h =
    omega (arith, length-append t (flatten ts), length-flatten ts h.1, h.0.0)

pub length-details :
    (m : AuthenticationMode) (d : AuthenticationDetails) (c : PacketContext) (i : ℕ)
    → DetailsFit d
    → DetailsMatch m d c i
    → length (details_bytes d) ≡ mode_length m c i
unfolding mode_length has_value
length-details native (native_details mac) c i f h = f.0
length-details native (improved_details g) c i f h = absurd h
length-details improved (native_details mac) c i f h = absurd h
length-details improved (improved_details none) c i f h =
    let e : is_improved_group_end c i ≡ false = sym h.0 in rw e
length-details improved (improved_details (some g)) c i f h =
    let e : is_improved_group_end c i ≡ true = sym h.0 in
    rw e (
      omega (
        arith,
        h.1,
        length-append (flatten g.samd_tau) g.fast_group_tag,
        length-flatten g.samd_tau f.1,
        f.2.0,
      ))

pub length-key :
    (k : Option (List ℕ)) → OptionalBlock k → length (key_bytes k) ≡ key_length (has_value k)
unfolding key_length has_value
length-key none h = refl
length-key (some k) h = h.0

-- The length that the receiver derives from the context is that of the packet's bytes.
pub length-packet_bytes :
    (p : DataPacket) (c : PacketContext)
    → WellFormed (data_packet p)
    → Admits c (data_packet p)
    → length (packet_bytes (data_packet p))
      ≡ expected_length c p.packet_index (has_value p.disclosed_key)
unfolding expected_length
length-packet_bytes p c w a = omega (
  arith,
  length-append p.message (key_bytes p.disclosed_key ++ details_bytes p.details),
  length-append (key_bytes p.disclosed_key) (details_bytes p.details),
  length-key p.disclosed_key w.7,
  length-details c.mode p.details c p.packet_index w.8 a.4,
  w.6.0,
)
