-- ===== src/Bridge.antt =====
-- internal/bridge: external identities mapped to DIDs of the platform.
pub mod MagicLink
pub mod Mapper
pub mod Passwords
