-- ===== src/SignIn/Passwords.antt =====
-- api/password.go: changing a password, and resetting it by a token. Passwords are bytes, and
-- none is a body that does not decode.
pub mod Limited
use tpt_identity.Prelude.{
  ℕ, ◌+◌, ◌*◌, String, Bool, true, false, List, [], ◌∷◌, ◌++◌, Option, none, some, not, ltb, ◌==◌,
  ◌||◌, if◌then◌else◌,
}
use tpt_identity.Prelude.Words.{trim_space}
use tpt_identity.Store.Rows.{AuthFailure}
use tpt_identity.Store.Failures.{
  second, record_auth_failure, get_auth_failures, clear_auth_failures,
}
use tpt_identity.Store.Secrets.{
  PasswordResetToken, save_password_reset_token, get_password_reset_token,
  delete_password_reset_token,
}
use tpt_identity.Oidc.Jwt.{◌+++◌}
use tpt_identity.Authn.Lockout.{record_failure, record_success}
use tpt_identity.Recovery.Requests.{subject_from_bearer, is_empty}
use tpt_identity.Bridge.Passwords.{normalise_email}
use tpt_identity.SignIn.{
  Provider, other_provider, password_provider, redirect_provider, saml_provider, Changer, Server,
  Site, Moment, Notice, reset_requested, Answer, refused, done, keep_failures,
}

abbrev pub reset_ttl : ℕ
reset_ttl = 15 * 60 * second

-- `raw.(passwordBridge)`.
abbrev pub as_changer : Provider → Option Changer
as_changer (other_provider c) = c
as_changer _ = none

abbrev pub keep_resets : Site → Option (List PasswordResetToken) → Site
keep_resets w none = w
keep_resets w (some rows) = record w { resets = rows }

abbrev pub reset_key : String → String
reset_key identifier = "reset:" +++ identifier

abbrev pub count_of : Option (ℕ × Option ℕ) → ℕ
count_of none = 0
count_of (some (n, _)) = n

abbrev pub with_changer : Site → Option Provider → (Changer → Answer × Site) → Answer × Site
with_changer w none k = (refused 400, w)
with_changer w (some p) k = elim (as_changer p) [ none ↦ (refused 500, w) | some c ↦ k c ]

module _ (s : Server) (m : Moment) where
  abbrev pub change_with : String → List ℕ → List ℕ → Site → Changer → Answer × Site
  change_with did current new w c =
      if not (c.verifies did current)
      then (
        refused 401,
        keep_failures w (record_failure (m.down 0) (m.down 1) m.env.now did w.failures),
      )
      else (
        (if c.sets did new then done else refused 400),
        record w { failures = record_success (m.down 2) did w.failures },
      )

  unfoldable pub handle_password_change : String → Option (List ℕ × List ℕ) → Site → Answer × Site
  unfolding subject_from_bearer
  handle_password_change header body w = elim (subject_from_bearer s.jwt m.env.now header) [
    | none ↦ (refused 401, w)
    | some did ↦ elim body [
      | none ↦ (refused 400, w)
      | some (current, new) ↦
          if is_empty current || is_empty new
          then (refused 400, w)
          else with_changer w (s.providers "password") (change_with did current new w)
    ]
  ]

  abbrev pub announce : String → String → Site → Option (List PasswordResetToken) → Site
  announce identifier raw w none = w
  announce identifier raw w (some rows) = record w {
    resets = rows;
    published = w.published ++ reset_requested identifier raw (m.env.now + reset_ttl) ∷ [];
  }

  abbrev pub make_token : String → Option String → Site → Site
  make_token identifier none w = w
  make_token identifier (some raw) w = announce identifier raw w (
      save_password_reset_token (m.down 1)
        (record {
          hash = s.hash raw;
          identifier = identifier;
          expires_at = m.env.now + reset_ttl;
          created_at = m.env.now;
        })
        w.resets)

  abbrev pub request_reset : String → Site → Site
  request_reset identifier w =
      if ltb (count_of (get_auth_failures (m.down 0) (reset_key identifier) w.failures)) 3
      then (let w' = make_token identifier (m.env.draws 0) w in
          keep_failures w' (
            record_auth_failure (m.down 2) (m.down 3) m.env.now (reset_key identifier) w'.failures))
      else w

  unfoldable pub handle_password_reset_request : Option String → Site → Answer × Site
  unfolding normalise_email
  handle_password_reset_request none w = (refused 400, w)
  handle_password_reset_request (some identifier) w =
      if identifier == ""
      then (refused 400, w)
      else (done, request_reset (normalise_email s.lower identifier) w)

  abbrev pub forget : String → String → Site → Site
  forget hash identifier w =
      let w1 = keep_resets w (delete_password_reset_token (m.down 2) hash w.resets) in
      let w2 = keep_failures w1 (clear_auth_failures (m.down 3) identifier w1.failures) in
      keep_failures w2 (clear_auth_failures (m.down 4) (reset_key identifier) w2.failures)

  abbrev pub reset_with : String → PasswordResetToken → List ℕ → Site → Changer → Answer × Site
  reset_with hash t new w c =
      if c.sets t.identifier new then (done, forget hash t.identifier w) else (refused 400, w)

  abbrev pub redeem : String → List ℕ → Site → Option PasswordResetToken → Answer × Site
  redeem hash new w none = (refused 400, w)
  redeem hash new w (some t) =
      if ltb t.expires_at m.env.now
      then (refused 400, keep_resets w (delete_password_reset_token (m.down 1) hash w.resets))
      else with_changer w (s.providers "password") (reset_with hash t new w)

  unfoldable pub handle_password_reset_confirm : Option (String × List ℕ) → Site → Answer × Site
  handle_password_reset_confirm none w = (refused 400, w)
  handle_password_reset_confirm (some (token, new)) w =
      if token == "" || is_empty new
      then (refused 400, w)
      else redeem (s.hash token) new w (get_password_reset_token (m.down 0) (s.hash token) w.resets)
