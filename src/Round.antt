-- ===== src/Round.antt =====
-- What a round is agreed on: AuthenticationRoundParameters.cpp, the receiver's contexts and their
-- store (ReceiverAuthenticationContextStore.cpp), all under common/tesla/src.
pub mod Parameters
pub mod Intervals
pub mod Configuration
pub mod Context
pub mod Store
pub mod Bijection
pub mod Lookup
mod Examples
