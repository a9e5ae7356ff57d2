-- ===== src/Trust.antt =====
-- pkg/trust: signed permits between services, and the reputation of domains.
pub mod Permit
pub mod Reputation
