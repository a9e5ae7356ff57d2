-- ===== src/Oidc.antt =====
-- oidc: the OpenID Connect provider over the store, one module per group of endpoints.
pub mod Handler
pub mod Jwt
pub mod ClientAuth
pub mod Grants
pub mod Tokens
pub mod Presentations
pub mod Registration
pub mod Logout
pub mod Exchange
pub mod Authorize
pub mod Device
pub mod Token
pub mod Offers
pub mod Flow
pub mod History
