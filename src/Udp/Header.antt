-- ===== src/Udp/Header.antt =====
-- resDecodeHeader, which a receiver uses before it has found the context of a datagram.
use authentication_transmiss.Udp.Fields.{read_header-front}
use authentication_transmiss.Udp.Canonical.{encode-decode}
use authentication_transmiss.Wire.{IsU32, IsByte, IsU64}
use authentication_transmiss.Udp.Layout.{encode_lem, header_bytes, packet_bytes}
use authentication_transmiss.Udp.Context.{IsValid, PacketContext}
use authentication_transmiss.Udp.Decode.{decode, catch_any, decode_header}
use authentication_transmiss.Udp.Packet.{
  disclosure_packet, data_packet, create_header, WellFormed, PacketHeader, Packet,
}
use authentication_transmiss.Prelude.{
  ◌==◌, le→ltb-false, sym, false, subst, length, ltb, ◌++◌, some, arith, ok, ◌≢◌, ◌≡◌, All, List, ℕ,
}

abbrev pub packet_header : Packet → PacketHeader
packet_header (data_packet p) = p.header
packet_header (disclosure_packet p) = record {
  chain_id = p.chain_id;
  interval_index = p.interval_index;
  packet_index = 0;
}

header_bytes-front :
    (h : PacketHeader) (back : List ℕ)
    → IsU64 h.chain_id
    → (h.chain_id ≢ 0)
    → IsU32 h.interval_index
    → (h.interval_index ≢ 0)
    → IsU32 h.packet_index
    → decode_header (header_bytes h ++ back) ≡ ok h
unfolding decode_header catch_any create_header
header_bytes-front h back hc nc hi ni hp =
    let t : ltb (length (header_bytes h ++ back)) 16 ≡ false = le→ltb-false _ 16 (omega arith) in
    let c : (h.chain_id == 0) ≡ false = ground arith in
    let i : (h.interval_index == 0) ≡ false = ground arith in
    rw (t, read_header-front h back hc hi hp) (rw (c, i))

packet_bytes-header :
    (q : Packet) → WellFormed q → decode_header (packet_bytes q) ≡ ok (packet_header q)
packet_bytes-header (data_packet p) w = header_bytes-front p.header _ w.0 w.1 w.2 w.3 w.4
packet_bytes-header (disclosure_packet p) w =
    header_bytes-front (packet_header (disclosure_packet p)) _ w.0 w.1 w.2 w.3 (omega arith)

-- The header that `decode_header` finds, which needs no context, is the header of the packet that
-- `decode` finds in the same datagram of bytes under any valid context that accepts it.
pub decode_header-decode :
    (d : List ℕ) (c : PacketContext) (q : Packet)
    → All IsByte d
    → IsValid c
    → decode d c ≡ some (ok q)
    → decode_header d ≡ ok (packet_header q)
decode_header-decode d c q hd v e =
    let (w, encoded) = encode-decode d c q hd v e in
    let (admitted, same) = (encode_lem q c d v).0 encoded in
    subst (λ t. decode_header t ≡ ok (packet_header q)) (sym same) (packet_bytes-header q w)
