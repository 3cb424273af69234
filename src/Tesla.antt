-- ===== src/Tesla.antt =====
-- The TESLA algorithms of common/tesla: the inputs of the MACs and their encoding, the SAMD
-- aggregation over a KS+RS matrix, the location of bad packets, and the two strategies.
pub mod Input
pub mod Encoder
pub mod Injective
pub mod GroupInjective
pub mod Mac
pub mod KsRs
pub mod Located
pub mod Location
pub mod Genuine
pub mod Native
pub mod Improved
pub mod NativeLaws
pub mod NativeStatus
pub mod ImprovedLaws
mod Examples
