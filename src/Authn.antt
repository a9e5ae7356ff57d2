-- ===== src/Authn.antt =====
-- internal/authn: the lockout after failed logins, time-based codes, and duress passphrases.
pub mod Lockout
pub mod Secrets
pub mod Totp
pub mod Duress
