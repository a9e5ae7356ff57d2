-- ===== src/Lib.antt =====
-- A verification library for the identity platform: the OpenID Connect provider over its store,
-- the lockout and the second factors, the consent policy, the schema registry, the audit log,
-- verifiable credentials with their status lists and selective disclosure, their presentation to
-- verifiers, permits and reputation, the recovery of keys through guardians, and the mapping of
-- external identities, with the endpoints that sign in by them.
--
-- How the parts interact. Every endpoint of the provider (oidc/) is a handler that reads the
-- request, calls the store (internal/store/) and answers. Here a handler is a function of the
-- provider, the request's surroundings, the request and the world; the world is the tables that the
-- store holds for the provider, and the map of revoked access tokens. A handler's result is its
-- reply and the world that it leaves, so that what was written before an error stays written.
--
-- Which file models which part.
-- - Prelude: shared names, Boolean tests, tables of rows (Table), and Go's strings functions (Words).
-- - Store: internal/store/store.go and internal/store/sqlite.go, one file per table. A table is the
--   list of its rows in insertion order; a statement is one of the functions of Prelude/Table. The
--   flag `down` says that the call of the database fails. Store/Codes and Store/Spent hold the lemmas
--   on authorization codes and on refresh tokens that can no longer be redeemed.
-- - Oidc/Handler: the world, the request, the surroundings (clock, random draws, which store calls
--   fail), and the monad of handlers. The n-th call of the store that stands in a handler's text
--   fails if `down n` holds.
-- - Oidc/Jwt: oidc/jwt.go. Oidc/ClientAuth, Oidc/Grants, Oidc/Authorize, Oidc/Token: oidc/provider.go
--   and oidc/par.go. Oidc/Device: oidc/device.go. Oidc/Tokens: oidc/revocation.go,
--   oidc/introspect.go and UserinfoHandler. Oidc/Exchange: oidc/token_exchange.go and
--   oidc/stepup.go. Oidc/Registration: oidc/registration.go. Oidc/Logout: oidc/logout.go.
--   Oidc/Offers: oidc/oid4vci.go. Oidc/Presentations: oidc/oid4vp.go. Oidc/Flow: an authorization and
--   the exchange of its code. Oidc/History: sequences of requests of the token endpoint, with
--   authorizations among them in Oidc/History/Codes.
-- - Authn/Lockout: internal/authn/lockout.go. Authn/Totp and Authn/Duress: internal/authn/totp.go and
--   internal/authn/duress.go, over the tables of Store/Factors; Authn/Secrets has what both do with texts
--   of secrets. Audit/Log: internal/auditlog/auditlog.go.
--   Consent/Policy: pkg/consent/policy.go. Schema/Registry: pkg/schema/registry.go.
-- - Vc/Json and Vc/Keys: JSON values, DID documents and the keys in them, which pkg/vc/verify.go and
--   pkg/vc/sdjwt.go read. Vc/Status: pkg/vc/status.go; Vc/Status/Bytes has the bits of a byte, and
--   Vc/Status/Writes the list as a set of indices. Vc/Sdjwt: issuance and presentation of
--   pkg/vc/sdjwt.go, Vc/Sdjwt/Verifier its parsing and verification. Vc/Credential:
--   pkg/vc/credential.go, issue.go, presentation.go and verify.go.
-- - Recovery/Field and Recovery/Sharing: pkg/recovery/recovery.go, the arithmetic of GF(256) and the
--   division of a secret into shares. Recovery/Interpolation is the algebra behind it: Lagrange
--   interpolation in any field of characteristic 2. Recovery/Requests: api/recovery.go, over the
--   tables of Store/Recovery.
-- - Trust/Permit: pkg/trust/permit.go. Trust/Reputation: pkg/trust/reputation.go.
-- - Exchange: pkg/pe/definition.go and pkg/pe/submission.go; Exchange/Paths has its functions on texts.
-- - Marketplace: pkg/marketplace/registry.go.
-- - Bridge/Mapper: internal/bridge/mapper.go, over the tables of Store/Links. Bridge/Passwords and
--   Bridge/MagicLink: password.go and magiclink.go of internal/bridge/providers, over the tables of
--   Store/Secrets.
-- - SignIn: the end that all sign-ins of api/bridge.go share; SignIn/State has its signed state,
--   SignIn/Handlers the handlers of other providers and of links, and SignIn/Direct those of
--   passwords and magic links. They call the mapper, the lockout, the duress check and, for a
--   session, Oidc/Authorize. SignIn/Passwords: api/password.go. SignIn/Factors: api/mfa.go and
--   api/duress.go.
-- - Examples: runs at concrete inputs, on the fixtures of Examples/Fixtures.
-- Go's names are kept in lower case with underscores: handleAuthCodeExchange is
-- handle_auth_code_exchange.
--
-- Bounds. Times are natural numbers of nanoseconds; a token's times are whole seconds (`unix`).
-- No loop runs on fuel: every loop of the modelled code goes through a list or a text, or has a
-- fixed number of rounds, as the eight of a multiplication in GF(256). The index of a status
-- list is an integer of either sign (Prelude/Integers), and its bits stand in bytes. The lifetime of
-- a presentation request, which comes from outside, is multiplied in 64 bits (`duration_bits`);
-- wrap-around of times past the year 2262 is not modelled. One request's clock is read once.
--
-- Parameters. JSON, base64url, Ed25519, SHA-256 and strings.ToUpper are the functions of a
-- `Codec`, of a `Digest` for the log, of `Primitives` and of a `Suite` for credentials, where
-- the resolver and the JSON Schema validation stand too, of a `PermitCodec` and a `Registrar`
-- for pkg/trust, of a `Suite` of Argon2id, AES-GCM and HMAC for internal/authn, of a
-- `Reader` for pkg/pe, and of a `StateCodec` for the state of a sign-in; random bytes are arguments,
-- and so are strings.ToLower and the hash of a token for the bridges. The bridges to other providers
-- are values of `Provider`. What a theorem needs of them is a hypothesis of it.
--
-- Not modelled: HTTP encoding and headers, concurrent requests, the store's other tables, the
-- watermarks and age proofs of pkg/vc, the receipts of pkg/consent, the compression of a
-- published status list, the other providers of internal/bridge, JSON Schema validation, the calls of
-- cryptographic libraries and files in pkg/crypto and pkg/keystore, and the components under
-- pkg/did, pkg/didcomm, internal/events and the rest of api: webauthn.go, server.go and the
-- handlers that decode, call and encode. The credentials that the mapper has issued for a new DID
-- (bootstrapCredentials in api/bridge.go) are issued in the background and are left out too.
pub mod Audit
pub mod Authn
pub mod Bridge
pub mod Consent
pub mod Examples
pub mod Exchange
pub mod Marketplace
pub mod Oidc
pub mod Prelude
pub mod Recovery
pub mod Schema
pub mod SignIn
pub mod Store
pub mod Trust
pub mod Vc
