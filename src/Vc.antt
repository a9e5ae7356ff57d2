-- ===== src/Vc.antt =====
-- pkg/vc: credentials.
pub mod Credential
pub mod Json
pub mod Keys
pub mod Sdjwt
pub mod Status
