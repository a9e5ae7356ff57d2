-- ===== src/SignIn/Issued.antt =====
-- Which sign-ins at another provider end in a code for a client.
use tpt_identity.Prelude.{
  ◌≡◌, ◌≢◌, refl, sym, ap, ◌∙◌, String, Bool, Option, none, some, not, arith, ◌==◌, ◌||◌, eq_iff,
  if◌then◌else◌, Option-cases, Bool-cases, inl, inr,
}
use tpt_identity.Store.Rows.{Session}
use tpt_identity.Store.Sessions.{save_session}
use tpt_identity.Oidc.Handler.{World, Request, Reply, ok, err}
use tpt_identity.Oidc.Authorize.{new_session, issue_session_for_did}
use tpt_identity.Bridge.Mapper.{ExternalIdentity, Mapped, Accounts, find_or_create, link_identity}
use tpt_identity.SignIn.State.{BridgeState, verify_bridge_state}
use tpt_identity.SignIn.State.Signed.{SignedState, verify_bridge_state-SignedState}
use tpt_identity.SignIn.{
  Redirecting, Provider, redirect_provider, Server, Site, Moment, mapping, Answer, redirect,
  session_params, target, with_session, issue, alert, with_accounts, resolved, link_reply,
  finish_bridge_auth,
}
use tpt_identity.SignIn.Handlers.{call_back, called_back, handle_bridge_callback}

module _ (m : Moment) (r : Request) (ext : ExternalIdentity) (st : BridgeState) where
  -- A redirect goes to the URI of the state, with the code of a session that was saved for the
  -- DID of the external identity and with the client, the redirect URI and the challenge of the
  -- state.
  pub record Issued (w w' : Site) (url : String) : Type 0 where
    pub not_linking : st.link_for ≡ ""
    pub did : String
    pub created : Bool
    pub account : (find_or_create (mapping m 0) ext w.accounts).0 ≡ Mapped.ok (did, created)
    pub code : String
    pub drawn : m.env.draws 0 ≡ some code
    pub to_client : url ≡ target st code
    pub session : Session
    pub saved : save_session (m.env.down 0) session w.oidc.sessions ≡ some w'.oidc.sessions
    pub with_code : session.code ≡ code
    pub for_subject : session.subject_did ≡ did
    pub for_client : session.client_id ≡ st.client_id
    pub for_uri : session.redirect_uri ≡ st.redirect_uri
    pub for_challenge : session.code_challenge ≡ st.code_challenge

  abbrev made : String → String → Session
  made did code = record (new_session m.env r did code (session_params st)) { state = "" }

  -- What IssueSessionForDIDCtx leaves.
  issue_session-saved :
      (did code : String) (o o' : World)
      → issue_session_for_did m.env r did (session_params st) o ≡ (ok code, o')
      → (m.env.draws 0 ≡ some code)
        × (save_session (m.env.down 0) (made did code) o.sessions ≡ some o'.sessions)
  unfolding issue_session_for_did
  issue_session-saved did code o o' e = elim (Option-cases (m.env.draws 0)) [
    | inl undrawn ↦ absurd (ground (arith, undrawn, e))
    | inr (d, drawn) ↦ elim (Option-cases (save_session (m.env.down 0) (made did d) o.sessions)) [
      | inl unsaved ↦ absurd (ground (arith, drawn, unsaved, e))
      | inr (rows, saved) ↦ ground (arith, drawn, saved, e)
    ]
  ]

  abbrev url_of : Answer → Option String
  url_of (redirect url) = some url
  url_of _ = none

  pub alert-oidc : (did : String) (w : Site) → (alert did ext w).oidc ≡ w.oidc
  alert-oidc did w = elim (Bool-cases ext.duress) [ inl e ↦ rw e refl | inr e ↦ rw e refl ]

  with_session-code :
      (w w' : Site) (url : String) (x : Reply String × World)
      → with_session st w x ≡ (redirect url, w')
      → (code : String) × (x ≡ (ok code, w'.oidc)) × (url ≡ target st code)
  with_session-code w w' url (ok code, o) e = (
    code,
    ap (λ (v : World). (ok code, v)) (ap (λ (p : Answer × Site). p.1.oidc) e),
    cc (ap (λ (p : Answer × Site). url_of p.0) e),
  )
  with_session-code w w' url (err f, o) e = absurd (cc (ap (λ (p : Answer × Site). url_of p.0) e))

  issue_with-code :
      (did provider url : String) (w w' : Site)
      → issue m r did provider st w ≡ (redirect url, w')
      → (code : String) × (issue_session_for_did m.env r did (session_params st) w.oidc
          ≡ (ok code, w'.oidc))
        × (url ≡ target st code)
  issue_with-code did provider url w w' e =
      elim (Bool-cases (st.client_id == "" || st.redirect_uri == "")) [
        | inl direct ↦ absurd (ground (arith, direct, e))
        | inr flow ↦
            with_session-code w w' url
              (issue_session_for_did m.env r did (session_params st) w.oidc)
              (ap
                  (λ b.
                    if b
                    then (Answer.signed_in did provider, w)
                    else with_session st w
                        (issue_session_for_did m.env r did (session_params st) w.oidc))
                  (sym flow)
                ∙ e)
      ]

  resolved-Issued :
      (w w' : Site) (url : String) (x : Mapped (String × Bool) × Accounts)
      → st.link_for ≡ ""
      → find_or_create (mapping m 0) ext w.accounts ≡ x
      → resolved m r ext st w x ≡ (redirect url, w')
      → Issued w w' url
  unfolding new_session session_params
  resolved-Issued w w' url (Mapped.err f, a) h found e =
      absurd (cc (ap (λ (p : Answer × Site). url_of p.0) e))
  resolved-Issued w w' url (Mapped.ok (did, created), a) h found e =
      let (code, issued, to_client) =
        issue_with-code did ext.provider url (alert did ext (with_accounts w a)) w' e in
      let (drawn, saved) = issue_session-saved did code w.oidc w'.oidc (
        ap (λ o. issue_session_for_did m.env r did (session_params st) o)
          (sym (alert-oidc did (with_accounts w a)))
        ∙ issued) in
      record {
        not_linking = h;
        did = did;
        created = created;
        account = ap (λ (p : Mapped (String × Bool) × Accounts). p.0) found;
        code = code;
        drawn = drawn;
        to_client = to_client;
        session = made did code;
        saved = saved;
        with_code = refl;
        for_subject = refl;
        for_client = refl;
        for_uri = refl;
        for_challenge = refl;
      }

  link_reply-no_redirect :
      (w w' : Site) (url : String) (x : Mapped (Unit {0}) × Accounts)
      → link_reply ext.provider w x ≢ (redirect url, w')
  link_reply-no_redirect w w' url (Mapped.err f, a) e =
      cc (ap (λ (p : Answer × Site). url_of p.0) e)
  link_reply-no_redirect w w' url (Mapped.ok _, a) e = cc (ap (λ (p : Answer × Site). url_of p.0) e)

  finish_bridge_auth-Issued :
      (w w' : Site) (url : String)
      → finish_bridge_auth m r ext st w ≡ (redirect url, w')
      → Issued w w' url
  unfolding finish_bridge_auth
  finish_bridge_auth-Issued w w' url e = elim (Bool-cases (st.link_for == "")) [
    | inl none_named ↦
        resolved-Issued w w' url (find_or_create (mapping m 0) ext w.accounts)
          ((eq_iff st.link_for "").0 none_named) refl
          (ap
              (λ b.
                if not b
                then link_reply ext.provider w
                    (link_identity (mapping m 0) st.link_for ext w.accounts)
                else resolved m r ext st w (find_or_create (mapping m 0) ext w.accounts))
              (sym none_named)
            ∙ e)
    | inr named ↦ absurd (
        link_reply-no_redirect w w' url (link_identity (mapping m 0) st.link_for ext w.accounts) (
          ap
            (λ b.
              if not b
              then link_reply ext.provider w
                  (link_identity (mapping m 0) st.link_for ext w.accounts)
              else resolved m r ext st w (find_or_create (mapping m 0) ext w.accounts))
            (sym named)
          ∙ e))
  ]

-- Where a callback's redirect comes from.
pub record CalledBack (s : Server) (m : Moment) (r : Request) (provider : String) (w w' : Site)
    (url : String) : Type 0 where
  pub redirecting : Redirecting
  pub configured : s.providers provider ≡ some (redirect_provider redirecting)
  pub state : BridgeState
  pub signed : SignedState s.codec (r.query "state") state m.env.now
  pub ext : ExternalIdentity
  pub exchanged : redirecting.exchange_code (r.query "code") ≡ some ext
  pub issued : Issued m r ext state w w' url

-- A callback redirects only under a state that the server signed at most ten minutes ago and
-- that links to no account, and for an external identity that a configured provider gave for the
-- code of the request; the redirect goes to the URI of that state, with the code of a session
-- saved for the identity's DID, and the state's client, URI and challenge.
pub handle_bridge_callback-CalledBack :
    (s : Server) (m : Moment) (r : Request) (provider url : String) (w w' : Site)
    → handle_bridge_callback s m r provider w ≡ (redirect url, w')
    → CalledBack s m r provider w w' url
unfolding handle_bridge_callback
handle_bridge_callback-CalledBack s m r provider url w w' e =
    of_provider (s.providers provider) refl e
  where
    with_state :
        (b : Redirecting)
        → s.providers provider ≡ some (redirect_provider b)
        → call_back s m r b w ≡ (redirect url, w')
        → CalledBack s m r provider w w' url
    with_state b there e = elim (Bool-cases (r.query "code" == "" || r.query "state" == "")) [
      | inl absent ↦ absurd (ground (arith, absent, e))
      | inr present ↦
          elim (Option-cases (verify_bridge_state s.codec m.env.now (r.query "state"))) [
            | inl unsigned ↦ absurd (ground (arith, present, unsigned, e))
            | inr (st, signed) ↦ elim (Option-cases (b.exchange_code (r.query "code"))) [
              | inl unknown ↦ absurd (ground (arith, present, signed, unknown, e))
              | inr (ext, known) ↦ record {
                redirecting = b;
                configured = there;
                state = st;
                signed =
                    verify_bridge_state-SignedState s.codec (r.query "state") st m.env.now signed;
                ext = ext;
                exchanged = known;
                issued =
                    finish_bridge_auth-Issued m r ext st w w' url
                      (ground (arith, present, signed, known, e));
              }
            ]
          ]
    ]

    of_provider :
        (o : Option Provider)
        → s.providers provider ≡ o
        → called_back s m r o w ≡ (redirect url, w')
        → CalledBack s m r provider w w' url
    of_provider none there e = absurd (cc e)
    of_provider (some (redirect_provider b)) there e = with_state b there e
    of_provider (some Provider.password_provider) there e = absurd (cc e)
    of_provider (some (Provider.saml_provider b)) there e = absurd (cc e)
    of_provider (some (Provider.other_provider b)) there e = absurd (cc e)
