-- ===== src/Udp/RoundTrip.antt =====
-- `decode` undoes `encode`.
use authentication_transmiss.Wire.{bytes_read, reader, BinaryReader}
use authentication_transmiss.Udp.Fields.{length-packet_bytes, read_data-front, read_header-front}
use authentication_transmiss.Wire.RoundTrip.{bytes_read-end, between}
use authentication_transmiss.Udp.Layout.{
  encode-Admits, Admits-encode, details_bytes, key_bytes, header_bytes, packet_bytes, Admits,
}
use authentication_transmiss.Udp.Encode.{encode, add_u32, disclosure_interval_outside}
use authentication_transmiss.Udp.Packet.{
  disclosure_packet, PacketHeader, DisclosurePacket, data_packet, create_disclosure_packet,
  WellFormed, DataPacket, Packet,
}
use authentication_transmiss.Udp.Context.{IsValid, PacketContext, expected_interval}
use authentication_transmiss.Udp.Decode.{
  read_header, catch_handlers, decode, decode_disclosure, decode_body, decode_data,
}
use authentication_transmiss.Prelude.{
  refl, le→ltb-false, ◌≤◌, ◌≢◌, some, ◌∙◌, List, arith, [], ◌++◌, ok, ◌≡◌, length, ℕ,
}

decode_data-front :
    (p : DataPacket) (c : PacketContext)
    → WellFormed (data_packet p)
    → Admits c (data_packet p)
    → decode_data c (length (packet_bytes (data_packet p))) p.header (
        between
          (header_bytes p.header)
          (p.message ++ (key_bytes p.disclosed_key ++ details_bytes p.details)))
      ≡ ok (data_packet p)
unfolding decode_data expected_interval
decode_data-front p c w a =
    rw (← a.3, read_data-front p c (header_bytes p.header) w a, length-packet_bytes p c w a)
      (ground arith)

last_block_read :
    (front xs : List ℕ)
    → length xs ≡ 32
    → bytes_read 32 (between front xs) ≡ ok (xs, between (front ++ xs) [])
last_block_read front xs e = rw (← e) (bytes_read-end front xs)

decode_disclosure-front :
    (p : DisclosurePacket) (c : PacketContext) (h : PacketHeader) (front : List ℕ) (size : ℕ)
    → IsValid c
    → WellFormed (disclosure_packet p)
    → Admits c (disclosure_packet p)
    → h.chain_id ≡ p.chain_id
    → h.interval_index ≡ p.interval_index
    → size ≡ 48
    → decode_disclosure c size h (between front p.disclosed_key) ≡ ok (disclosure_packet p)
unfolding decode_disclosure expected_interval disclosure_interval_outside add_u32
    create_disclosure_packet
decode_disclosure-front p c h front size v w a e f g =
    rw (last_block_read front p.disclosed_key w.4.0) (ground arith)

module _ (d : List ℕ) (c : PacketContext) (h : PacketHeader) (r : BinaryReader) where
  decode_body-data :
      read_header (reader d) ≡ ok (h, r)
      → h.chain_id ≢ 0
      → h.interval_index ≢ 0
      → h.packet_index ≢ 0
      → decode_body d c ≡ decode_data c (length d) h r
  unfolding decode_body
  decode_body-data e hc hi hp = rw e (ground arith)

  decode_body-disclosure :
      read_header (reader d) ≡ ok (h, r)
      → h.chain_id ≢ 0
      → h.interval_index ≢ 0
      → h.packet_index ≡ 0
      → decode_body d c ≡ decode_disclosure c (length d) h r
  unfolding decode_body
  decode_body-disclosure e hc hi hp = rw e (ground arith)

decode_body-front :
    (p : Packet) (c : PacketContext)
    → IsValid c
    → WellFormed p
    → Admits c p
    → decode_body (packet_bytes p) c ≡ ok p
decode_body-front (data_packet p) c v w a =
    decode_body-data _ c _ _ (read_header-front p.header _ w.0 w.2 w.4) w.1 w.3 w.5
    ∙ decode_data-front p c w a
decode_body-front (disclosure_packet p) c v w a =
    let h : PacketHeader = record {
      chain_id = p.chain_id;
      interval_index = p.interval_index;
      packet_index = 0;
    } in
    decode_body-disclosure _ c h _ (read_header-front h p.disclosed_key w.0 w.2 (omega arith)) w.1
      w.3 (omega arith)
    ∙ decode_disclosure-front p c h (header_bytes h) _ v w a refl refl (omega (arith, w.4.0))

pub decode_lem :
    (d : List ℕ) (c : PacketContext) → 16 ≤ length d → decode d c ≡ catch_handlers (decode_body d c)
unfolding decode
decode_lem d c h = rw (le→ltb-false (length d) 16 h)

length-packet_bytes-le : (p : Packet) → 16 ≤ length (packet_bytes p)
length-packet_bytes-le (data_packet p) = omega arith
length-packet_bytes-le (disclosure_packet p) = omega arith

-- Under a valid context, whatever `encode` returns for a well-formed packet, `decode` turns back
-- into that packet.
pub decode-encode :
    (p : Packet) (c : PacketContext) (d : List ℕ)
    → IsValid c
    → WellFormed p
    → encode p c ≡ ok d
    → decode d c ≡ some (ok p)
unfolding catch_handlers
decode-encode p c d v w e =
    let a = Admits-encode p c d v e in
    let same : d ≡ packet_bytes p = cc (encode-Admits p c v a) in
    rw (same, decode_lem _ c (length-packet_bytes-le p), decode_body-front p c v w a)
