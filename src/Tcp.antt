-- ===== src/Tcp.antt =====
-- The TCP frames: common/protocol/src/TcpFrame.cpp. Frame models the payloads and the codec of
-- one whole frame, Stream the decoder of a byte stream. The library that parses JSON is a
-- parameter: the test that a text is one JSON object.
pub mod Frame
pub mod RoundTrip
pub mod Stream
pub mod Rounds
pub mod Loop
pub mod Fragments
pub mod Delivery
mod Examples
