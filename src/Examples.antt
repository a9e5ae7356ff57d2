-- ===== src/Examples.antt =====
-- Runs of the model at concrete inputs.
pub mod Fixtures
mod Grants
mod Tokens
mod Sessions
mod Policies
pub mod Wallet
mod Credentials
mod Lists
mod Guardians
mod Submissions
mod Enrolments
mod Verifier
mod Services
pub mod Factors
mod Listings
mod Schemas
mod Ledger
mod SignIns
