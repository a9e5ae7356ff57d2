-- ===== src/Audit.antt =====
-- internal/auditlog: the hash-chained log of events.
pub mod Log
