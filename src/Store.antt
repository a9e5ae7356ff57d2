-- ===== src/Store.antt =====
-- internal/store: the rows of the OIDC tables and the statements that read and write them.
-- A statement takes a flag, `down`, that says whether the driver reports an error; a write that
-- fails returns `none`, and a read that fails returns `none` like one that finds no row.
pub mod Rows
pub mod Sessions
pub mod Codes
pub mod Clients
pub mod RefreshTokens
pub mod Spent
pub mod Requests
pub mod Recovery
pub mod Failures
pub mod Links
pub mod Factors
pub mod Secrets
