-- ===== src/Udp/Decode.antt =====
-- UdpAuthenticationPacketCodec::resDecodeHeader and resDecode.
use authentication_transmiss.Prelude.{
  ℕ, zero, suc, ◌+◌, ◌*◌, Bool, true, false, not, ltb, ◌==◌, if◌then◌else◌, Option, none, some,
  List, [], ◌∷◌, length, Result, Throws, ok, err, fail_if, ◌>>=◌, ◌>>◌, invalid_argument,
  out_of_range,
}
use authentication_transmiss.Wire.{BinaryReader, reader, u32_read, u64_read, bytes_read, block_size}
use authentication_transmiss.Wire.Failure.{
  Failure, rejected, thrown, Decoded, attempt, datagram_too_short, datagram_length_mismatch,
  invalid_authentication_context, invalid_packet_index, invalid_interval_index,
  invalid_authentication_fields,
}
use authentication_transmiss.Udp.Context.{
  AuthenticationMode, native, improved, PacketContext, expected_interval,
  packet_carries_disclosed_key, is_improved_group_end,
}
use authentication_transmiss.Udp.Packet.{
  PacketHeader, create_header, GroupDetails, create_group_details, AuthenticationDetails,
  native_details, improved_details, create_data_packet, create_disclosure_packet, Packet,
  data_packet, disclosure_packet,
}
use authentication_transmiss.Udp.Encode.{disclosure_interval_outside}

abbrev pub fixed_header_size : ℕ
fixed_header_size = 16

abbrev pub data_prefix_size : ℕ
data_prefix_size = 48

abbrev pub disclosure_packet_size : ℕ
disclosure_packet_size = 48

-- The three integers at the front, read in order.
unfoldable pub read_header : BinaryReader → Throws (PacketHeader × BinaryReader)
read_header r = do
  (chain_id, r1) ← u64_read r
  (interval_index, r2) ← u32_read r1
  (packet_index, r3) ← u32_read r2
  ok (
    record { chain_id = chain_id; interval_index = interval_index; packet_index = packet_index },
    r3,
  )

-- `catch (const std::exception&)`.
unfoldable pub catch_any {ℓ} : {A : Type ℓ} → Throws A → Decoded A
catch_any (ok a) = ok a
catch_any (err e) = err invalid_authentication_fields

unfoldable pub decode_header : List ℕ → Decoded PacketHeader
unfolding read_header catch_any
decode_header datagram =
    if ltb (length datagram) fixed_header_size
    then err datagram_too_short
    else catch_any (do (header, r) ← read_header (reader datagram); create_header header)

unfoldable pub decode_disclosure :
    PacketContext → ℕ → PacketHeader → BinaryReader → Result Failure Packet
unfolding disclosure_interval_outside
decode_disclosure c size h r = do
  fail_if (not (size == disclosure_packet_size)) (rejected datagram_length_mismatch)
  final_data_interval ← attempt (expected_interval c c.total_packet_count)
  fail_if (disclosure_interval_outside c final_data_interval h.interval_index)
      (rejected invalid_interval_index)
  (key, r1) ← attempt (bytes_read block_size r)
  p ← attempt (
      create_disclosure_packet
        (record { chain_id = h.chain_id; interval_index = h.interval_index; disclosed_key = key }))
  ok (disclosure_packet p)

-- The only length that the context allows for this packet.
unfoldable pub key_length : Bool → ℕ
key_length has_key = if has_key then block_size else 0

unfoldable pub mode_length : AuthenticationMode → PacketContext → ℕ → ℕ
mode_length native c i = block_size
mode_length improved c i = if is_improved_group_end c i then (c.tau_count + 1) * block_size else 0

unfoldable pub expected_length : PacketContext → ℕ → Bool → ℕ
unfolding key_length mode_length
expected_length c i has_key = data_prefix_size + key_length has_key + mode_length c.mode c i

unfoldable pub read_key : Bool → BinaryReader → Throws (Option (List ℕ) × BinaryReader)
read_key false r = ok (none, r)
read_key true r = do (key, r1) ← bytes_read block_size r; ok (some key, r1)

-- `for (nIndex = 0; nIndex < nTauCount; ++nIndex)`.
unfoldable pub read_taus : ℕ → BinaryReader → Throws (List (List ℕ) × BinaryReader)
read_taus zero r = ok ([], r)
read_taus (suc n) r = do
  (tau, r1) ← bytes_read block_size r
  (taus, r2) ← read_taus n r1
  ok (tau ∷ taus, r2)

unfoldable pub read_group_details :
    Bool → PacketContext → BinaryReader → Throws (Option GroupDetails)
unfolding read_taus
read_group_details false c r = ok none
read_group_details true c r = do
  (taus, r1) ← read_taus c.tau_count r
  (tag, r2) ← bytes_read block_size r1
  g ← create_group_details (record { samd_tau = taus; fast_group_tag = tag })
  ok (some g)

unfoldable pub read_details :
    AuthenticationMode → PacketContext → ℕ → BinaryReader → Throws AuthenticationDetails
unfolding read_group_details
read_details native c i r = do (mac, r1) ← bytes_read block_size r; ok (native_details mac)
read_details improved c i r = do
  group ← read_group_details (is_improved_group_end c i) c r
  ok (improved_details group)

-- The fields behind the header of a datagram whose length has been checked.
unfoldable pub read_data : PacketContext → PacketHeader → Bool → BinaryReader → Throws Packet
unfolding read_key read_details
read_data c h has_key r = do
  (message, r1) ← bytes_read block_size r
  (key, r2) ← read_key has_key r1
  details ← read_details c.mode c h.packet_index r2
  p ←
      create_data_packet
        (record { header = h; message = message; disclosed_key = key; details = details })
  ok (data_packet p)

unfoldable pub decode_data : PacketContext → ℕ → PacketHeader → BinaryReader → Result Failure Packet
unfolding expected_length read_data
decode_data c size h r = do
  fail_if (ltb c.total_packet_count h.packet_index) (rejected invalid_packet_index)
  expected ← attempt (expected_interval c h.packet_index)
  fail_if (not (h.interval_index == expected)) (rejected invalid_interval_index)
  let has_key = packet_carries_disclosed_key c h.interval_index h.packet_index
  fail_if (not (size == expected_length c h.packet_index has_key))
      (rejected datagram_length_mismatch)
  attempt (read_data c h has_key r)

unfoldable pub decode_body : List ℕ → PacketContext → Result Failure Packet
unfolding read_header decode_disclosure decode_data
decode_body datagram c = do
  (h, r) ← attempt (read_header (reader datagram))
  fail_if (h.chain_id == 0) (rejected invalid_authentication_context)
  fail_if (h.interval_index == 0) (rejected invalid_interval_index)
  (if h.packet_index == 0
      then decode_disclosure c (length datagram) h r
      else decode_data c (length datagram) h r)

-- `none` is an exception of a class that no handler names, and leaves the function.
unfoldable pub catch_handlers : Result Failure Packet → Option (Decoded Packet)
catch_handlers (ok p) = some (ok p)
catch_handlers (err (rejected code)) = some (err code)
catch_handlers (err (thrown out_of_range)) = some (err datagram_too_short)
catch_handlers (err (thrown invalid_argument)) = some (err invalid_authentication_fields)
catch_handlers (err (thrown other)) = none

unfoldable pub decode : List ℕ → PacketContext → Option (Decoded Packet)
unfolding decode_body catch_handlers
decode datagram c =
    if ltb (length datagram) fixed_header_size
    then some (err datagram_too_short)
    else catch_handlers (decode_body datagram c)
