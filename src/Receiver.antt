-- ===== src/Receiver.antt =====
-- The receiver's state machine: common/tesla/src/AuthenticationReceiverRuntime.cpp.
pub mod State
pub mod Observe
pub mod Timeline
pub mod Steps
pub mod Native
pub mod Improved
pub mod Attack
pub mod Finish
pub mod Keys
pub mod Datagram
pub mod Timeout
pub mod Frame
pub mod Outcome
pub mod Baseline
pub mod Tidy
pub mod Completion
mod EndExamples
mod Examples
