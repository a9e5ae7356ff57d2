-- ===== src/Consent.antt =====
-- pkg/consent: who may see what of a subject.
pub mod Policy
