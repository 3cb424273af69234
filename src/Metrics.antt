-- ===== src/Metrics.antt =====
-- The byte counts of what a round sends: common/metrics/src/CommunicationCost.cpp.
pub mod Cost
pub mod Counting
mod Examples
