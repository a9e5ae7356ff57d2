-- ===== src/SignIn.antt =====
-- api/bridge.go: sign-ins by a password, a magic link, or another provider, and the links of an
-- account. What stands behind an interface of internal/bridge is a value of `Provider`.
pub mod State
pub mod Handlers
pub mod Direct
pub mod Issued
pub mod Coerced
pub mod Passwords
pub mod Factors
use tpt_identity.Prelude.{
  ℕ, ◌+◌, String, Bool, true, false, List, [], ◌∷◌, ◌++◌, Option, none, some, not, ◌==◌, ◌||◌,
  if◌then◌else◌,
}
use tpt_identity.Vc.Keys.{Document}
use tpt_identity.Store.Rows.{AuthFailure}
use tpt_identity.Store.Links.{ExternalProviderLink}
use tpt_identity.Store.Secrets.{PasswordHash, MagicLinkToken, PasswordResetToken}
use tpt_identity.Store.Factors.{DuressConfig, TotpCredential}
use tpt_identity.Oidc.Handler.{World, Request, Env, Reply, ok, err}
use tpt_identity.Oidc.Jwt.{◌+++◌, Codec}
use tpt_identity.Oidc.Authorize.{issue_session_for_did}
use tpt_identity.Authn.Secrets.{Suite}
use tpt_identity.Bridge.Mapper.{
  ExternalIdentity, MapError, Mapped, Accounts, Surroundings, find_or_create, link_identity,
}
use tpt_identity.SignIn.State.{BridgeState, StateCodec}

-- The dynamic types that the handlers tell apart. An error of a provider is `none`.
pub record Redirecting : Type 0 where
  pub authorization_url : String → Option String
  pub exchange_code : String → Option ExternalIdentity

pub record Saml : Type 0 where
  pub prepare_auth : Option (String × String)
  pub process_acs : List String → Option ExternalIdentity
  pub metadata : String

-- What api/password.go asks a provider to be. PasswordBridge is none: its VerifyCredentials has
-- another result type, so the assertion fails for it.
pub record Changer : Type 0 where
  pub verifies : String → List ℕ → Bool
  pub sets : String → List ℕ → Bool

pub data Provider : Type 0 where
  password_provider : Provider
  redirect_provider : Redirecting → Provider
  saml_provider : Saml → Provider
  other_provider : Option Changer → Provider

pub record Server : Type 0 where
  pub codec : StateCodec
  pub jwt : Codec
  pub suite : Suite
  pub lower : String → String
  pub hash : String → String
  pub escape : String → String
  pub issuer : String
  pub providers : String → Option Provider

pub data Notice : Type 0 where
  duress_alert : String → String → Notice
  reset_requested : String → String → ℕ → Notice

pub record Site : Type 0 where
  pub oidc : World
  pub accounts : Accounts
  pub failures : List AuthFailure
  pub passwords : List PasswordHash
  pub magic_links : List MagicLinkToken
  pub resets : List PasswordResetToken
  pub duress : List DuressConfig
  pub totp : List TotpCredential
  pub published : List Notice

-- A request's surroundings: those of the session that it issues, of the n-th call of the mapper,
-- and which of the other calls of the store fail.
pub record Moment : Type 0 where
  pub env : Env
  pub created : ℕ → Option (String × Document)
  pub account_down : ℕ → ℕ → Bool
  pub down : ℕ → Bool

abbrev pub mapping : Moment → ℕ → Surroundings
mapping m n = record { now = m.env.now; created = m.created n; down = m.account_down n }

pub data Answer : Type 0 where
  refused : ℕ → Answer
  redirect : String → Answer
  linked : String → Answer
  signed_in : String → String → Answer
  link_sent : ℕ → String → Answer
  links : List ExternalProviderLink → Answer
  served : String → Answer
  uri : List ℕ → Answer
  done : Answer
  no_content : Answer

-- What a write of the failure counter leaves.
abbrev pub keep_failures : Site → Option (List AuthFailure) → Site
keep_failures w none = w
keep_failures w (some rows) = record w { failures = rows }

-- The arguments of IssueSessionForDIDCtx, as the query that the session is made of.
unfoldable pub session_params : BridgeState → String → String
session_params st key =
    if key == "client_id"
    then st.client_id
    else if key == "redirect_uri"
    then st.redirect_uri
    else if key == "scope"
    then st.scope
    else if key == "nonce"
    then st.nonce
    else if key == "code_challenge"
    then st.code_challenge
    else if key == "code_challenge_method"
    then st.code_challenge_method
    else ""

abbrev pub target : BridgeState → String → String
target st code =
    st.redirect_uri
    +++ "?code="
    +++ code
    +++ (if st.orig_state == "" then "" else "&state=" +++ st.orig_state)

abbrev pub with_session : BridgeState → Site → Reply String × World → Answer × Site
with_session st w (ok code, o) = (redirect (target st code), record w { oidc = o })
with_session st w (err _, o) = (refused 500, record w { oidc = o })

-- The session is issued where the state names a client and a redirect URI.
abbrev pub issue : Moment → Request → String → String → BridgeState → Site → Answer × Site
issue m r did provider st w =
    if st.client_id == "" || st.redirect_uri == ""
    then (signed_in did provider, w)
    else with_session st w (issue_session_for_did m.env r did (session_params st) w.oidc)

abbrev pub alert : String → ExternalIdentity → Site → Site
alert did ext w =
    if ext.duress
    then record w { published = w.published ++ duress_alert did ext.provider ∷ [] }
    else w

abbrev pub with_accounts : Site → Accounts → Site
with_accounts w a = record w { accounts = a }

abbrev pub resolved :
    Moment
    → Request
    → ExternalIdentity
    → BridgeState
    → Site
    → Mapped (String × Bool) × Accounts
    → Answer × Site
resolved m r ext st w (Mapped.err _, a) = (refused 500, with_accounts w a)
resolved m r ext st w (Mapped.ok (did, _), a) =
    issue m r did ext.provider st (alert did ext (with_accounts w a))

abbrev pub link_reply : String → Site → Mapped (Unit {0}) × Accounts → Answer × Site
link_reply provider w (Mapped.err _, a) = (refused 409, with_accounts w a)
link_reply provider w (Mapped.ok _, a) = (linked provider, with_accounts w a)

unfoldable pub finish_bridge_auth :
    Moment → Request → ExternalIdentity → BridgeState → Site → Answer × Site
unfolding session_params
finish_bridge_auth m r ext st w =
    if not (st.link_for == "")
    then link_reply ext.provider w (link_identity (mapping m 0) st.link_for ext w.accounts)
    else resolved m r ext st w (find_or_create (mapping m 0) ext w.accounts)
