-- ===== src/Authority.antt =====
-- The issue of a sender's chain, seed and commitment: common/tesla/src/AuthenticationAuthority.cpp
-- and SenderAuthenticationContext.cpp.
pub mod Issue
pub mod Unique
pub mod Accepted
mod Examples
