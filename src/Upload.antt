-- ===== src/Upload.antt =====
-- The upload of a file over a control connection: common/tesla/src/FileUploadSession.cpp.
pub mod Session
pub mod Invariant
pub mod Transfer
mod Examples
