-- ===== src/Schema.antt =====
-- pkg/schema: the registry of credential schemas.
pub mod Registry
