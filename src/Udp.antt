-- ===== src/Udp.antt =====
-- The UDP authentication packets: common/protocol/src/UdpAuthenticationPacket.cpp (Context, Packet)
-- and UdpAuthenticationPacketCodec.cpp (Encode, Decode). Layout describes the wire format, RoundTrip,
-- Canonical, Header and Total hold the laws of the codec, and Fields and Pieces their steps.
pub mod Context
pub mod Packet
pub mod Encode
pub mod Decode
pub mod Layout
pub mod Fields
pub mod RoundTrip
pub mod Pieces
pub mod Canonical
pub mod Header
pub mod Total
mod Examples
