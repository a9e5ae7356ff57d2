-- ===== src/Recovery.antt =====
-- pkg/recovery and api/recovery.go: secrets split among guardians, and their recovery.
pub mod Field
pub mod Interpolation
pub mod Requests
pub mod Sharing
