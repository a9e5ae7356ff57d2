-- ===== src/SignIn/Factors.antt =====
-- api/mfa.go and api/duress.go: the second factor and the duress passphrase of the bearer. A
-- code and a passphrase are their bytes, and an empty one stands for a body that does not
-- decode.
use tpt_identity.Prelude.{ℕ, String, List, Option, none, some, ◌==◌, if◌then◌else◌}
use tpt_identity.Store.Factors.{TotpCredential, DuressConfig}
use tpt_identity.Authn.Lockout.{record_failure, record_success}
use tpt_identity.Authn.Totp.{Outcome, enrol, verify_code, unenrol}
use tpt_identity.Authn.Duress.{enrol_duress, remove_duress}
use tpt_identity.Recovery.Requests.{subject_from_bearer, is_empty}
use tpt_identity.SignIn.{
  Server, Site, Moment, Answer, refused, uri, done, no_content, keep_failures,
}

abbrev pub or_subject : String → String → String
or_subject did account = if account == "" then did else account

abbrev enrolled : Site → Option (List ℕ × List TotpCredential) → Answer × Site
enrolled w none = (refused 500, w)
enrolled w (some (text, rows)) = (uri text, record w { totp = rows })

abbrev unenrolled : Site → Option (List TotpCredential) → Answer × Site
unenrolled w none = (refused 500, w)
unenrolled w (some rows) = (no_content, record w { totp = rows })

abbrev with_duress_rows : Answer → Site → Option (List DuressConfig) → Answer × Site
with_duress_rows a w none = (refused 500, w)
with_duress_rows a w (some rows) = (a, record w { duress = rows })

module _ (s : Server) (passphrase : List ℕ) (m : Moment) (header : String) where
  abbrev as_bearer : Site → (String → Answer × Site) → Answer × Site
  as_bearer w k = elim (subject_from_bearer s.jwt m.env.now header) [
    | none ↦ (refused 401, w)
    | some did ↦ k did
  ]

  unfoldable pub handle_totp_enrol :
      String → Option (List ℕ) → Option (List ℕ) → Option (List ℕ) → Site → Answer × Site
  unfolding enrol subject_from_bearer
  handle_totp_enrol account secret salt iv w = as_bearer w λ did. enrolled w (
      enrol s.suite passphrase s.issuer did (or_subject did account) secret salt iv m.env.now
        (m.down 0) w.totp)

  abbrev judged : String → Site → Outcome → Answer × Site
  judged did w Outcome.accepted =
      (done, record w { failures = record_success (m.down 1) did w.failures })
  judged did w _ =
      (refused 401, keep_failures w (record_failure (m.down 1) (m.down 2) m.env.now did w.failures))

  unfoldable pub handle_totp_verify : List ℕ → Site → Answer × Site
  unfolding verify_code subject_from_bearer
  handle_totp_verify given w = as_bearer w λ did.
      if is_empty given
      then (refused 400, w)
      else judged did w (verify_code s.suite passphrase (m.down 0) m.env.now did given w.totp)

  unfoldable pub handle_totp_unenrol : Site → Answer × Site
  unfolding unenrol subject_from_bearer
  handle_totp_unenrol w = as_bearer w λ did. unenrolled w (unenrol (m.down 0) did w.totp)

  unfoldable pub handle_duress_enrol : List ℕ → Option (List ℕ) → Site → Answer × Site
  unfolding enrol_duress subject_from_bearer
  handle_duress_enrol phrase salt w = as_bearer w λ did.
      if is_empty phrase
      then (refused 400, w)
      else with_duress_rows done w (enrol_duress s.suite did phrase salt (m.down 0) w.duress)

  unfoldable pub handle_duress_remove : Site → Answer × Site
  unfolding remove_duress subject_from_bearer
  handle_duress_remove w =
      as_bearer w λ did. with_duress_rows no_content w (remove_duress (m.down 0) did w.duress)
