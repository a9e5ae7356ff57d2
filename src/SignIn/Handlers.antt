-- ===== src/SignIn/Handlers.antt =====
-- api/bridge.go: the handlers of other providers and of the links of an account.
use tpt_identity.Prelude.{
  ℕ, String, Bool, List, [], ◌∷◌, Option, none, some, ◌==◌, ◌||◌, if◌then◌else◌,
}
use tpt_identity.Prelude.Words.{contains}
use tpt_identity.Store.Links.{ExternalProviderLink, list_external_links}
use tpt_identity.Oidc.Handler.{Request}
use tpt_identity.Oidc.Jwt.{◌+++◌, unix}
use tpt_identity.Recovery.Requests.{subject_from_bearer}
use tpt_identity.Bridge.Mapper.{Mapped, Accounts, unlink_identity}
use tpt_identity.SignIn.State.{BridgeState, no_state, sign_bridge_state, verify_bridge_state}
use tpt_identity.SignIn.{
  Redirecting, Saml, Provider, redirect_provider, saml_provider, Server, Site, Moment, mapping,
  Answer, refused, redirect, links, served, no_content, with_accounts, finish_bridge_auth,
}

-- The state that a flow begins with, from the query.
abbrev pub query_state : ℕ → Request → BridgeState
query_state now r = record no_state {
  client_id = r.query "client_id";
  redirect_uri = r.query "redirect_uri";
  scope = r.query "scope";
  nonce = r.query "nonce";
  orig_state = r.query "state";
  created_at = unix now;
}

-- A new provider is linked to the DID of the bearer, where the query asks for it.
abbrev pub linking : Request → Option String → BridgeState → BridgeState
linking r none st = st
linking r (some did) st = if r.query "link" == "true" then record st { link_for = did } else st

abbrev pub redirect_or : ℕ → Option String → Answer
redirect_or code none = refused code
redirect_or code (some url) = redirect url

abbrev pub separator : String → String
separator url = if contains url "?" then "&" else "?"

abbrev pub request_ids : BridgeState → List String
request_ids st = if st.authn_request_id == "" then [] else st.authn_request_id ∷ []

abbrev pub links_or_error : Option (List ExternalProviderLink) → Answer
links_or_error none = refused 500
links_or_error (some rows) = links rows

abbrev pub unlinked : Site → Mapped (Unit {0}) × Accounts → Answer × Site
unlinked w (Mapped.err _, a) = (refused 400, with_accounts w a)
unlinked w (Mapped.ok _, a) = (no_content, with_accounts w a)

module _ (s : Server) (m : Moment) (r : Request) where
  abbrev pub start_redirect_bridge : Redirecting → Answer
  start_redirect_bridge b =
      let st = record (query_state m.env.now r) {
        code_challenge = r.query "code_challenge";
        code_challenge_method = r.query "code_challenge_method";
      } in
      elim (sign_bridge_state s.codec
        (linking r (subject_from_bearer s.jwt m.env.now (r.header "Authorization")) st)) [
          | none ↦ refused 500
          | some token ↦ redirect_or 502 (b.authorization_url token)
        ]

  abbrev pub start_saml_bridge : Saml → Answer
  start_saml_bridge b = elim b.prepare_auth [
    | none ↦ refused 502
    | some (url, request_id) ↦
        elim (sign_bridge_state s.codec
          (record (query_state m.env.now r) { authn_request_id = request_id })) [
            | none ↦ refused 500
            | some token ↦ redirect (url +++ separator url +++ "RelayState=" +++ s.escape token)
          ]
  ]

  unfoldable pub handle_bridge_start : String → Answer
  unfolding sign_bridge_state subject_from_bearer
  handle_bridge_start provider = elim (s.providers provider) [
    | none ↦ refused 404
    | some (redirect_provider b) ↦ start_redirect_bridge b
    | some (saml_provider b) ↦ start_saml_bridge b
    | some _ ↦ refused 400
  ]

  abbrev pub call_back : Redirecting → Site → Answer × Site
  call_back b w =
      if r.query "code" == "" || r.query "state" == ""
      then (refused 400, w)
      else elim (verify_bridge_state s.codec m.env.now (r.query "state")) [
        | none ↦ (refused 400, w)
        | some st ↦ elim (b.exchange_code (r.query "code")) [
          | none ↦ (refused 401, w)
          | some ext ↦ finish_bridge_auth m r ext st w
        ]
      ]

  abbrev pub called_back : Option Provider → Site → Answer × Site
  called_back none w = (refused 404, w)
  called_back (some (redirect_provider b)) w = call_back b w
  called_back (some _) w = (refused 400, w)

  unfoldable pub handle_bridge_callback : String → Site → Answer × Site
  unfolding verify_bridge_state finish_bridge_auth
  handle_bridge_callback provider w = called_back (s.providers provider) w

  unfoldable pub handle_saml_metadata : String → Answer
  handle_saml_metadata provider = elim (s.providers provider) [
    | none ↦ refused 404
    | some (saml_provider b) ↦ served b.metadata
    | some _ ↦ refused 400
  ]

  -- A state that is missing or not verified is an empty one.
  abbrev pub or_no_state : String → BridgeState
  or_no_state token =
      if token == ""
      then no_state
      else elim (verify_bridge_state s.codec m.env.now token) [ none ↦ no_state | some st ↦ st ]

  abbrev pub consume : Saml → BridgeState → Site → Answer × Site
  consume b st w = elim (b.process_acs (request_ids st)) [
    | none ↦ (refused 401, w)
    | some ext ↦ finish_bridge_auth m r ext st w
  ]

  -- `unreadable` says that the form does not parse.
  unfoldable pub handle_saml_acs : Bool → String → Site → Answer × Site
  unfolding verify_bridge_state finish_bridge_auth
  handle_saml_acs unreadable provider w = elim (s.providers provider) [
    | none ↦ (refused 404, w)
    | some (saml_provider b) ↦
        if unreadable then (refused 400, w) else consume b (or_no_state (r.form "RelayState")) w
    | some _ ↦ (refused 400, w)
  ]

  unfoldable pub handle_list_links : Site → Answer
  unfolding subject_from_bearer
  handle_list_links w = elim (subject_from_bearer s.jwt m.env.now (r.header "Authorization")) [
    | none ↦ refused 401
    | some did ↦ links_or_error (list_external_links (m.down 0) did w.accounts.links)
  ]

  unfoldable pub handle_unlink : String → Site → Answer × Site
  unfolding subject_from_bearer unlink_identity
  handle_unlink provider w = elim (subject_from_bearer s.jwt m.env.now (r.header "Authorization")) [
    | none ↦ (refused 401, w)
    | some did ↦
        if r.query "external_id" == ""
        then (refused 400, w)
        else unlinked w
            (unlink_identity (mapping m 0) did provider (r.query "external_id") w.accounts)
  ]
