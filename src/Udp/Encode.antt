-- ===== src/Udp/Encode.antt =====
-- UdpAuthenticationPacketCodec::vecEncode.
use authentication_transmiss.Prelude.{
  ℕ, ◌+◌, ◌%◌, ◌^◌, Bool, true, false, not, ◌||◌, ltb, leb, ◌==◌, Option, none, some, List, [],
  ◌++◌, length, Throws, ok, err, fail_if, ◌>>=◌, ◌>>◌, invalid_argument,
}
use authentication_transmiss.Wire.{append_uint32, append_uint64}
use authentication_transmiss.Udp.Context.{
  AuthenticationMode, native, improved, PacketContext, expected_interval,
  packet_carries_disclosed_key, is_improved_group_end,
}
use authentication_transmiss.Udp.Packet.{
  GroupDetails, AuthenticationDetails, native_details, improved_details, DataPacket,
  DisclosurePacket, Packet, data_packet, disclosure_packet,
}
use mathlib.Core.Bool.{xor}
use mathlib.Core.List.{foldl}

unfoldable pub has_value {ℓ} : {A : Type ℓ} → Option A → Bool
has_value none = false
has_value (some a) = true

unfoldable pub check_tau_count : PacketContext → Option GroupDetails → Throws (Unit {0})
check_tau_count c none = ok tt
check_tau_count c (some g) = fail_if (not (length g.samd_tau == c.tau_count)) invalid_argument

-- The part of `validateDataPacketForEncoding` that depends on the mode.
unfoldable pub check_details :
    AuthenticationMode → AuthenticationDetails → PacketContext → ℕ → Throws (Unit {0})
unfolding has_value check_tau_count
check_details native (native_details mac) c i = ok tt
check_details native (improved_details g) c i = err invalid_argument
check_details improved (native_details mac) c i = err invalid_argument
check_details improved (improved_details g) c i = do
  let needs_group_details = is_improved_group_end c i
  fail_if (xor (has_value g) needs_group_details) invalid_argument
  check_tau_count c g

unfoldable pub validate_data_packet_for_encoding : DataPacket → PacketContext → Throws (Unit {0})
unfolding has_value check_details
validate_data_packet_for_encoding p c = do
  fail_if (ltb c.total_packet_count p.packet_index) invalid_argument
  expected ← expected_interval c p.packet_index
  fail_if (not (p.interval_index == expected)) invalid_argument
  let needs_key = packet_carries_disclosed_key c p.interval_index p.packet_index
  fail_if (xor (has_value p.disclosed_key) needs_key) invalid_argument
  check_details c.mode p.details c p.packet_index

unfoldable pub append_header : ℕ → ℕ → ℕ → List ℕ
append_header chain_id interval_index packet_index =
    append_uint32 (append_uint32 (append_uint64 [] chain_id) interval_index) packet_index

unfoldable pub append_key : List ℕ → Option (List ℕ) → List ℕ
append_key out none = out
append_key out (some key) = out ++ key

unfoldable pub append_details : List ℕ → AuthenticationDetails → List ℕ
append_details out (native_details mac) = out ++ mac
append_details out (improved_details none) = out
append_details out (improved_details (some g)) = foldl ◌++◌ out g.samd_tau ++ g.fast_group_tag

-- The sum of two `uint32_t` wraps.
unfoldable pub add_u32 : ℕ → ℕ → ℕ
add_u32 a b = (a + b) % 2 ^ 32

unfoldable pub disclosure_interval_outside : PacketContext → ℕ → ℕ → Bool
unfolding add_u32
disclosure_interval_outside c final_data_interval interval_index =
    leb interval_index c.disclosure_delay
    || ltb (add_u32 final_data_interval c.disclosure_delay) interval_index

unfoldable pub encode_disclosure : DisclosurePacket → PacketContext → Throws (List ℕ)
unfolding append_header disclosure_interval_outside
encode_disclosure p c = do
  final_data_interval ← expected_interval c c.total_packet_count
  fail_if (disclosure_interval_outside c final_data_interval p.interval_index) invalid_argument
  ok (append_header p.chain_id p.interval_index 0 ++ p.disclosed_key)

unfoldable pub encode_data : DataPacket → PacketContext → Throws (List ℕ)
unfolding validate_data_packet_for_encoding append_header append_key append_details
encode_data p c = do
  validate_data_packet_for_encoding p c
  let head = append_header p.chain_id p.interval_index p.packet_index ++ p.message
  ok (append_details (append_key head p.disclosed_key) p.details)

unfoldable pub encode : Packet → PacketContext → Throws (List ℕ)
unfolding encode_data encode_disclosure
encode (data_packet p) c = encode_data p c
encode (disclosure_packet p) c = encode_disclosure p c
