-- ===== src/SignIn/Direct.antt =====
-- api/bridge.go: the handlers of passwords and magic links, which this server verifies itself.
use tpt_identity.Prelude.{
  ℕ, String, Bool, true, List, Option, none, some, ◌==◌, ◌||◌, if◌then◌else◌,
}
use tpt_identity.Store.Secrets.{MagicLinkToken}
use tpt_identity.Oidc.Handler.{Request}
use tpt_identity.Oidc.Jwt.{◌+++◌, unix}
use tpt_identity.Authn.Lockout.{record_failure, record_success}
use tpt_identity.Authn.Duress.{check_duress}
use tpt_identity.Recovery.Requests.{is_empty}
use tpt_identity.Bridge.Mapper.{ExternalIdentity, Mapped, find_or_create}
use tpt_identity.Bridge.Passwords.{verify_credentials}
use tpt_identity.Bridge.MagicLink.{generate_token, verify_token}
use tpt_identity.SignIn.State.{BridgeState, sign_bridge_state, verify_bridge_state}
use tpt_identity.SignIn.{
  keep_failures, Provider, password_provider, Server, Site, Moment, mapping, Answer, refused,
  link_sent, with_accounts, finish_bridge_auth,
}
use tpt_identity.SignIn.Handlers.{or_no_state}

-- The fields that the bodies of the two requests have.
abbrev pub login_state : ℕ → BridgeState → BridgeState
login_state now st = record st { link_for = ""; authn_request_id = ""; created_at = unix now }

abbrev pub email_state : ℕ → BridgeState → BridgeState
email_state now st = record (login_state now st) {
  orig_state = "";
  code_challenge = "";
  code_challenge_method = "";
}

module _ (s : Server) (m : Moment) (r : Request) where
  abbrev pub with_duress :
      List ℕ → ExternalIdentity → Site → Mapped (String × Bool) → ExternalIdentity
  with_duress password ext w (Mapped.err _) = ext
  with_duress password ext w (Mapped.ok (did, _)) =
      if check_duress s.suite did password (m.down 4) w.duress
      then record ext { duress = true }
      else ext

  -- Behind a password that was verified: the DID is looked up to ask whether it is a duress
  -- passphrase too, and again to finish.
  abbrev pub after_password : List ℕ → BridgeState → ExternalIdentity → Site → Answer × Site
  after_password password st ext w =
      let probe = find_or_create (mapping m 1) ext w.accounts in
      let w' = with_accounts w probe.1 in
      finish_bridge_auth m r (with_duress password ext w' probe.0) st w'

  abbrev pub by_password :
      String → List ℕ → BridgeState → Site → Option ExternalIdentity → Answer × Site
  by_password identifier password st w none = (
    refused 401,
    keep_failures w (record_failure (m.down 1) (m.down 2) m.env.now identifier w.failures),
  )
  by_password identifier password st w (some ext) =
      after_password password (login_state m.env.now st) ext
        (record w { failures = record_success (m.down 3) identifier w.failures })

  abbrev pub password_with : String → List ℕ → BridgeState → Site → Option Provider → Answer × Site
  password_with identifier password st w none = (refused 404, w)
  password_with identifier password st w (some password_provider) =
      by_password identifier password st w
        (verify_credentials s.suite s.lower (m.down 0) identifier password w.passwords)
  password_with identifier password st w (some _) = (refused 500, w)

  -- The body's identifier, password and the fields of the state; none where it does not decode.
  unfoldable pub handle_password_auth :
      Option (String × List ℕ × BridgeState) → Site → Answer × Site
  unfolding verify_credentials find_or_create finish_bridge_auth check_duress
  handle_password_auth none w = (refused 400, w)
  handle_password_auth (some (identifier, password, st)) w =
      if identifier == "" || is_empty password
      then (refused 400, w)
      else password_with identifier password st w (s.providers "password")

  abbrev pub state_suffix : BridgeState → String
  state_suffix st =
      if st.client_id == ""
      then ""
      else elim (sign_bridge_state s.codec st) [ none ↦ "" | some token ↦ "&state=" +++ token ]

  abbrev pub sent : BridgeState → Site → Option ((String × ℕ) × List MagicLinkToken) → Answer × Site
  sent st w none = (refused 500, w)
  sent st w (some ((raw, expiry), rows)) = (
    link_sent expiry (s.issuer +++ "/auth/magiclink/verify?token=" +++ raw +++ state_suffix st),
    record w { magic_links = rows },
  )

  unfoldable pub handle_magic_link_request : Option (String × BridgeState) → Site → Answer × Site
  unfolding generate_token sign_bridge_state
  handle_magic_link_request none w = (refused 400, w)
  handle_magic_link_request (some (email, st)) w =
      if email == ""
      then (refused 400, w)
      else sent (email_state m.env.now st) w
          (generate_token s.hash s.lower (m.down 0) (m.env.draws 0) m.env.now email w.magic_links)

  abbrev pub verified_link : Site → Option ExternalIdentity × List MagicLinkToken → Answer × Site
  verified_link w (none, rows) = (refused 401, record w { magic_links = rows })
  verified_link w (some ext, rows) =
      finish_bridge_auth m r ext (or_no_state s m r (r.query "state"))
        (record w { magic_links = rows })

  unfoldable pub handle_magic_link_verify : Site → Answer × Site
  unfolding verify_token verify_bridge_state finish_bridge_auth
  handle_magic_link_verify w =
      if r.query "token" == ""
      then (refused 400, w)
      else verified_link w
          (verify_token s.hash (m.down 0) (m.down 1) m.env.now (r.query "token") w.magic_links)
