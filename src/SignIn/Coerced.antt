-- ===== src/SignIn/Coerced.antt =====
-- What a sign-in by password does not ask: whether the account is locked, and a duress
-- passphrase other than the password.
use tpt_identity.Prelude.{
  ℕ, ◌≡◌, ◌≢◌, refl, sym, ap, ◌∙◌, String, Bool, true, false, List, [], ◌∷◌, Option, none, some,
  arith, ◌==◌, ◌||◌, eq_iff, if◌then◌else◌, Option-cases, Bool-cases, inl, inr,
}
use tpt_identity.Store.Rows.{AuthFailure}
use tpt_identity.Store.Secrets.{PasswordHash}
use tpt_identity.Store.Factors.{DuressConfig}
use tpt_identity.Oidc.Handler.{World, Request, Reply, ok, err}
use tpt_identity.Oidc.Authorize.{issue_session_for_did}
use tpt_identity.Recovery.Sharing.Hex.{AllBytes}
use tpt_identity.Recovery.Requests.{is_empty}
use tpt_identity.Authn.Secrets.{Suite}
use tpt_identity.Authn.Lockout.{record_failure, record_success}
use tpt_identity.Authn.Duress.{enrol_duress, check_duress}
use tpt_identity.Authn.Duress.Checked.{check_duress-own}
use tpt_identity.Bridge.Mapper.{ExternalIdentity, Mapped, Accounts, find_or_create, link_identity}
use tpt_identity.Bridge.Passwords.{set_password, verify_credentials}
use tpt_identity.Bridge.Passwords.Checked.{verified, verified-own}
use tpt_identity.SignIn.State.{BridgeState}
use tpt_identity.SignIn.{
  keep_failures, Provider, password_provider, Server, Site, Moment, mapping, Answer, refused,
  session_params, with_session, issue, alert, with_accounts, resolved, link_reply,
  finish_bridge_auth,
}
use tpt_identity.SignIn.Direct.{
  login_state, with_duress, by_password, password_with, handle_password_auth,
}
use tpt_identity.SignIn.Issued.{alert-oidc}

module _ (m : Moment) (r : Request) (ext : ExternalIdentity) (st : BridgeState) where
  with_session-answer :
      (w v : Site) (x : Reply String × World) → (with_session st w x).0 ≡ (with_session st v x).0
  with_session-answer w v (ok code, o) = refl
  with_session-answer w v (err f, o) = refl

  issue_with-answer :
      (did provider : String) (w v : Site)
      → w.oidc ≡ v.oidc
      → (issue m r did provider st w).0 ≡ (issue m r did provider st v).0
  issue_with-answer did provider w v e =
      elim (Bool-cases (st.client_id == "" || st.redirect_uri == "")) [
        | inl direct ↦ rw direct refl
        | inr flow ↦ rw flow (
            ap
              (λ o. (with_session st w (issue_session_for_did m.env r did (session_params st) o)).0)
              e
            ∙ with_session-answer w v
                (issue_session_for_did m.env r did (session_params st) v.oidc))
      ]

  resolved-answer :
      (w v : Site) (x : Mapped (String × Bool) × Accounts)
      → w.oidc ≡ v.oidc
      → (resolved m r ext st w x).0 ≡ (resolved m r ext st v x).0
  resolved-answer w v (Mapped.err f, a) e = refl
  resolved-answer w v (Mapped.ok (did, created), a) e =
      issue_with-answer did ext.provider (alert did ext (with_accounts w a))
        (alert did ext (with_accounts v a))
        (alert-oidc m r ext st did (with_accounts w a)
          ∙ e
          ∙ sym (alert-oidc m r ext st did (with_accounts v a)))

  link_reply-answer :
      (w v : Site) (x : Mapped (Unit {0}) × Accounts)
      → (link_reply ext.provider w x).0 ≡ (link_reply ext.provider v x).0
  link_reply-answer w v (Mapped.err f, a) = refl
  link_reply-answer w v (Mapped.ok _, a) = refl

  -- The failure counter has no part in the end of a sign-in.
  finish_bridge_auth-answer :
      (w : Site) (f : List AuthFailure)
      → (finish_bridge_auth m r ext st (record w { failures = f })).0
        ≡ (finish_bridge_auth m r ext st w).0
  unfolding finish_bridge_auth
  finish_bridge_auth-answer w f = elim (Bool-cases (st.link_for == "")) [
    | inl none_named ↦ rw none_named (
        resolved-answer (record w { failures = f }) w (find_or_create (mapping m 0) ext w.accounts)
          refl)
    | inr named ↦ rw named (
        link_reply-answer (record w { failures = f }) w
          (link_identity (mapping m 0) st.link_for ext w.accounts))
  ]

module _ (s : Server) (m : Moment) (r : Request) where
  by_password-answer :
      (identifier : String) (password : List ℕ) (st : BridgeState) (w : Site) (f : List AuthFailure)
      (o : Option ExternalIdentity)
      → (by_password s m r identifier password st (record w { failures = f }) o).0
        ≡ (by_password s m r identifier password st w o).0
  by_password-answer identifier password st w f none = refl
  by_password-answer identifier password st w f (some ext) =
      let probe = find_or_create (mapping m 1) ext w.accounts in
      let w' = with_accounts w probe.1 in
      let ext' = with_duress s m r password ext w' probe.0 in
      finish_bridge_auth-answer m r ext' (login_state m.env.now st) w'
        (record_success (m.down 3) identifier f)
      ∙ sym (
          finish_bridge_auth-answer m r ext' (login_state m.env.now st) w'
            (record_success (m.down 3) identifier w.failures))

  password_with-answer :
      (identifier : String) (password : List ℕ) (st : BridgeState) (w : Site) (f : List AuthFailure)
      (o : Option Provider)
      → (password_with s m r identifier password st (record w { failures = f }) o).0
        ≡ (password_with s m r identifier password st w o).0
  password_with-answer identifier password st w f none = refl
  password_with-answer identifier password st w f (some Provider.password_provider) =
      by_password-answer identifier password st w f
        (verify_credentials s.suite s.lower (m.down 0) identifier password w.passwords)
  password_with-answer identifier password st w f (some (Provider.redirect_provider b)) = refl
  password_with-answer identifier password st w f (some (Provider.saml_provider b)) = refl
  password_with-answer identifier password st w f (some (Provider.other_provider b)) = refl

-- A sign-in by password is answered alike whatever the failure counter holds, locks included.
pub handle_password_auth-unlocked :
    (s : Server) (m : Moment) (r : Request) (body : Option (String × List ℕ × BridgeState))
    (w : Site) (f : List AuthFailure)
    → (handle_password_auth s m r body (record w { failures = f })).0
      ≡ (handle_password_auth s m r body w).0
unfolding handle_password_auth
handle_password_auth-unlocked s m r none w f = refl
handle_password_auth-unlocked s m r (some (identifier, password, st)) w f =
    elim (Bool-cases (identifier == "" || is_empty password)) [
      | inl missing ↦ rw missing refl
      | inr given ↦
          rw given (password_with-answer s m r identifier password st w f (s.providers "password"))
    ]

keep_failures-published :
    (w : Site) (o : Option (List AuthFailure)) → (keep_failures w o).published ≡ w.published
keep_failures-published w none = refl
keep_failures-published w (some rows) = refl

enrolled_phrase :
    (c : Suite) (did : String) (phrase : List ℕ) (salt : List ℕ) (rows rows' : List DuressConfig)
    → enrol_duress c did phrase (some salt) false rows ≡ some rows'
    → is_empty phrase ≡ false
unfolding enrol_duress
enrolled_phrase c did [] salt rows rows' e = absurd (ground (arith, e))
enrolled_phrase c did (b ∷ phrase) salt rows rows' e = refl

-- The reply to a password that does not verify.
refused_password :
    (s : Server) (m : Moment) (r : Request) (identifier : String) (password : List ℕ)
    (st : BridgeState) (w : Site)
    → identifier ≢ ""
    → is_empty password ≡ false
    → s.providers "password" ≡ some password_provider
    → verify_credentials s.suite s.lower (m.down 0) identifier password w.passwords ≡ none
    → handle_password_auth s m r (some (identifier, password, st)) w ≡ (
      refused 401,
      keep_failures w (record_failure (m.down 1) (m.down 2) m.env.now identifier w.failures),
    )
unfolding handle_password_auth
refused_password s m r identifier password st w named given there unverified =
    let usable : (identifier == "" || is_empty password) ≡ false =
      ground (arith, eq_iff identifier "", named, given) in
    ap
      (λ b.
        if b
        then (refused 400, w)
        else password_with s m r identifier password st w (s.providers "password"))
      usable
    ∙ ap (password_with s m r identifier password st w) there
    ∙ ap (by_password s m r identifier password st w) unverified

-- A duress passphrase that is not the password as well raises no alert: where the two have
-- different Argon2id keys under the password's salt, CheckDuress knows the passphrase, but a
-- sign-in with it is refused with 401 and nothing is published. It is assumed that the salts and
-- the keys are bytes and that the password can be read.
pub duress_passphrase_refused :
    (s : Server) (m : Moment) (r : Request) (identifier did : String)
    (password phrase salt dsalt : List ℕ) (st : BridgeState) (before : List PasswordHash)
    (dbefore : List DuressConfig) (w : Site)
    → AllBytes salt
    → AllBytes dsalt
    → ((p t : List ℕ) → AllBytes (s.suite.derive p t))
    → s.providers "password" ≡ some password_provider
    → m.down 0 ≡ false
    → identifier ≢ ""
    → set_password s.suite s.lower false (some salt) identifier password before ≡ some w.passwords
    → enrol_duress s.suite did phrase (some dsalt) false dbefore ≡ some w.duress
    → s.suite.derive phrase salt ≢ s.suite.derive password salt
    → (check_duress s.suite did phrase false w.duress ≡ true)
      × ((handle_password_auth s m r (some (identifier, phrase, st)) w).0 ≡ refused 401)
      × ((handle_password_auth s m r (some (identifier, phrase, st)) w).1.published ≡ w.published)
duress_passphrase_refused s m r identifier did password phrase salt dsalt st before dbefore w h k
      bytes there works named set enrolled differ =
    let refusal =
      refused_password s m r identifier phrase st w named
        (enrolled_phrase s.suite did phrase dsalt dbefore w.duress enrolled) there
        (ap (λ b. verify_credentials s.suite s.lower b identifier phrase w.passwords) works
          ∙ unverified) in
    (
      (check_duress-own s.suite dsalt phrase phrase did dbefore w.duress k (λ p. bytes p dsalt)
            enrolled).1
          refl,
      ap (λ (p : Answer × Site). p.0) refusal,
      ap (λ (p : Answer × Site). p.1.published) refusal
          ∙ keep_failures-published w
              (record_failure (m.down 1) (m.down 2) m.env.now identifier w.failures),
    )
  where
    unverified : verify_credentials s.suite s.lower false identifier phrase w.passwords ≡ none
    unverified =
        elim (Option-cases
          (verify_credentials s.suite s.lower false identifier phrase w.passwords)) [
            | inl e ↦ e
            | inr (ext, e) ↦ absurd (
                differ (
                  (verified-own s.suite s.lower salt password phrase identifier identifier before
                      w.passwords h (λ p. bytes p salt) refl set).0
                    (ap (verified s.suite s.lower) e)))
          ]
