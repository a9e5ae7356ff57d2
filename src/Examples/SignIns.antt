-- ===== src/Examples/SignIns.antt =====
-- Sign-ins and passwords, on the ciphers of Examples/Factors that hide nothing.
use tpt_identity.Prelude.{
  ℕ, zero, suc, ◌+◌, ◌*◌, ◌≤◌, ◌≡◌, ◌↔◌, refl, String, true, false, List, [], ◌∷◌, Option, some,
  none, length, arith, ltb, ◌==◌, subst, if◌then◌else◌,
}
use tpt_identity.Prelude.Table.{find, upsert, insert}
use tpt_identity.Prelude.Words.{trim_space}
use tpt_identity.Store.Rows.{AuthFailure}
use tpt_identity.Store.Sessions.{save_session}
use tpt_identity.Store.Failures.{second}
use tpt_identity.Store.Secrets.{
  PasswordHash, MagicLinkToken, save_password_hash, save_magic_link_token,
}
use tpt_identity.Store.Factors.{DuressConfig, save_duress_config}
use tpt_identity.Oidc.Handler.{Request}
use tpt_identity.Authn.Duress.{check_duress, enrol_duress, stored_duress}
use tpt_identity.Bridge.Mapper.{Accounts, find_or_create}
use tpt_identity.Bridge.Passwords.{
  set_password, verify_credentials, encode_argon2_hash, normalise_email,
}
use tpt_identity.Bridge.Passwords.Checked.{verified, verify_credentials-set_password}
use tpt_identity.Bridge.MagicLink.{generate_token, verify_token, email_identity, magic_link_ttl}
use tpt_identity.Bridge.MagicLink.Once.{Call, apply_all, verify_token-once}
use tpt_identity.SignIn.State.{
  BridgeState, StateCodec, no_state, sign_bridge_state, verify_bridge_state,
}
use tpt_identity.SignIn.State.Signed.{Encodes, verify_bridge_state-sign}
use tpt_identity.Oidc.Jwt.{cut_dot}
use tpt_identity.Oidc.Jwt.Laws.{NoDot}
use tpt_identity.Oidc.Authorize.{issue_session_for_did}
use tpt_identity.SignIn.{
  Redirecting, Provider, password_provider, redirect_provider, Server, Site, Moment, redirect,
  refused, finish_bridge_auth, session_params,
}
use tpt_identity.SignIn.Direct.{handle_password_auth}
use tpt_identity.SignIn.Handlers.{handle_bridge_callback}
use tpt_identity.SignIn.Issued.{CalledBack, handle_bridge_callback-CalledBack}
use tpt_identity.SignIn.Coerced.{duress_passphrase_refused}
use tpt_identity.SignIn.Passwords.{handle_password_reset_request}
use tpt_identity.SignIn.Passwords.Limited.{
  Ask, moment_of, handle_all, handle_password_reset_request-limited,
}
use tpt_identity.Examples.Fixtures.{codec, differ, asking}
use tpt_identity.Examples.Factors.{suite, reduced-AllBytes}

abbrev same : String → String
same s = s

-- Twelve bytes, as many as a password needs.
abbrev times : ℕ → ℕ → List ℕ
times zero b = []
times (suc n) b = b ∷ times n b

abbrev password : List ℕ
password = times 12 7

abbrev row : PasswordHash
row = record { identifier = "bob"; hash = encode_argon2_hash password (1 ∷ []) }

set_run : set_password suite same false (some (1 ∷ [])) " bob" password [] ≡ some (row ∷ [])
unfolding set_password save_password_hash normalise_email upsert trim_space
set_run = refl

verify_credentials-set_password_example :
    (12 ≤ 12)
    × (verified suite same (verify_credentials suite same false "bob" password (row ∷ [])) ≡ true
        ↔ suite.derive password (1 ∷ []) ≡ suite.derive password (1 ∷ []))
    × (verified suite same (verify_credentials suite same false "eve" password (row ∷ []))
        ≡ verified suite same (verify_credentials suite same false "eve" password []))
unfolding normalise_email trim_space
verify_credentials-set_password_example =
    verify_credentials-set_password suite same (1 ∷ []) password password " bob" "bob" "eve" []
      (row ∷ []) (omega arith, tt) reduced-AllBytes refl (differ "eve" "bob" refl) set_run

abbrev link : MagicLinkToken
link = record { hash = "t"; email = "bob"; expires_at = magic_link_ttl; created_at = 0 }

generate_run :
    generate_token same same false (some "t") 0 "bob " [] ≡ some (("t", magic_link_ttl), link ∷ [])
unfolding generate_token save_magic_link_token normalise_email find insert trim_space
generate_run = refl

abbrev later_calls : List (Call same)
later_calls = Call.verifies 1 "t" ∷ Call.generates same "u" 2 "eve" ∷ []

verify_token-once_example :
    ((verify_token same false false 1 "t" (link ∷ [])).0 ≡ (
      if ltb (0 + magic_link_ttl) 1
      then none
      else some (email_identity (normalise_email same "bob "))))
    × ((verify_token same false false 3 "t"
          (apply_all same later_calls (verify_token same false false 1 "t" (link ∷ [])).1)).0
        ≡ none)
verify_token-once_example =
    verify_token-once same same "t" "bob " "t" 0 1 3 magic_link_ttl [] (link ∷ []) later_calls
      generate_run (differ "u" "t" refl, tt)

abbrev state : BridgeState
state = record no_state {
  client_id = "app";
  redirect_uri = "https://app/cb";
  orig_state = "s";
  code_challenge = "challenge";
}

-- One payload, and a MAC that is the payload.
abbrev state_codec : StateCodec
state_codec = record { marshal = λ _. some "pay"; unmarshal = λ _. some state; mac = same }

state_plain : (t : String) → some "pay" ≡ some t → NoDot t
state_plain t e =
    let same : "pay" ≡ t = cc e in subst NoDot same (omega arith, (omega arith, (omega arith, tt)))

Encodes-state : Encodes state_codec state
Encodes-state = record { payload_plain = λ t e. state_plain t e; reads_back = λ t e. refl }

sign_run : sign_bridge_state state_codec state ≡ some "pay.pay"
unfolding sign_bridge_state
sign_run = refl

verify_bridge_state-sign_example : verify_bridge_state state_codec (601 * second) "pay.pay" ≡ none
verify_bridge_state-sign_example =
    verify_bridge_state-sign state_codec state "pay.pay" (601 * second) Encodes-state sign_run

abbrev google : Redirecting
google = record {
  authorization_url = λ s. some s;
  exchange_code =
      λ _. some (record { provider = "google"; external_id = "sub"; claims = []; duress = false });
}

abbrev providers : String → Option Provider
providers name =
    if name == "password" then some password_provider else some (redirect_provider google)

abbrev server : Server
server = record {
  codec = state_codec;
  jwt = codec;
  suite = suite;
  lower = same;
  hash = same;
  escape = same;
  issuer = "https://id";
  providers = providers;
}

abbrev accounts : Accounts
accounts = record {
  links =
      record {
        subject_did = "did:bob";
        provider = "google";
        external_id = "sub";
        linked_at = 0;
        last_used_at = 0;
      }
      ∷ [];
  identities = [];
  documents = [];
}

abbrev locked : AuthFailure
locked = record {
  subject_or_email = "bob";
  count = 5;
  last_failure_at = 0;
  locked_until = some 100;
}

abbrev duress : DuressConfig
duress = record { subject_did = "did:bob"; hash = stored_duress suite (8 ∷ []) (1 ∷ []) }

abbrev site : Site
site = record {
  oidc = record {
    sessions = [];
    clients = [];
    refresh_tokens = [];
    par_requests = [];
    device_codes = [];
    credential_offers = [];
    revoked = [];
  };
  accounts = accounts;
  failures = locked ∷ [];
  passwords = row ∷ [];
  magic_links = [];
  resets = [];
  duress = duress ∷ [];
  totp = [];
  published = [];
}

abbrev moment : Moment
moment = moment_of (record { now = 1; raw = "raw" })

abbrev request : Request
request = asking (("code", "upstream") ∷ ("state", "pay.pay") ∷ [])

called_back_run : handle_bridge_callback server moment request "google" site ≡ (
  redirect "https://app/cb?code=raw&state=s",
  (handle_bridge_callback server moment request "google" site).1,
)
unfolding handle_bridge_callback verify_bridge_state cut_dot finish_bridge_auth session_params
    find_or_create issue_session_for_did find save_session
called_back_run = refl

handle_bridge_callback-CalledBack_example :
    CalledBack server moment request "google" site
      (handle_bridge_callback server moment request "google" site).1
      "https://app/cb?code=raw&state=s"
handle_bridge_callback-CalledBack_example =
    handle_bridge_callback-CalledBack server moment request "google"
      "https://app/cb?code=raw&state=s" site
      (handle_bridge_callback server moment request "google" site).1 called_back_run

bob_run : set_password suite same false (some (1 ∷ [])) "bob" password [] ≡ some (row ∷ [])
unfolding set_password save_password_hash normalise_email upsert trim_space
bob_run = refl

enrol_run : enrol_duress suite "did:bob" (8 ∷ []) (some (1 ∷ [])) false [] ≡ some (duress ∷ [])
unfolding enrol_duress save_duress_config upsert
enrol_run = refl

duress_passphrase_refused_example :
    (check_duress suite "did:bob" (8 ∷ []) false (duress ∷ []) ≡ true)
    × ((handle_password_auth server moment request (some ("bob", 8 ∷ [], state)) site).0
        ≡ refused 401)
    × ((handle_password_auth server moment request (some ("bob", 8 ∷ [], state)) site).1.published
        ≡ [])
duress_passphrase_refused_example =
    duress_passphrase_refused server moment request "bob" "did:bob" password (8 ∷ []) (1 ∷ [])
      (1 ∷ []) state [] [] site (omega arith, tt) (omega arith, tt) (λ p t. reduced-AllBytes p) refl
      refl (differ "bob" "" refl) bob_run enrol_run (λ e. cc e)

abbrev asks : List Ask
asks =
    record { now = 1; raw = "a" }
    ∷ record { now = 2; raw = "b" }
    ∷ record { now = 3; raw = "c" }
    ∷ record { now = 4; raw = "d" }
    ∷ []

handle_password_reset_request-limited_example :
    (length (handle_all server "bob" asks site).published ≤ 0 + 3)
    × ((handle_password_reset_request server
          (moment_of (record { now = 99; raw = "e" }))
          (some "bob")
          (handle_all server "bob" asks site)).1
        ≡ handle_all server "bob" asks site)
handle_password_reset_request-limited_example =
    handle_password_reset_request-limited server "bob" asks (record { now = 99; raw = "e" }) site
      (differ "bob" "" refl) (omega arith)
