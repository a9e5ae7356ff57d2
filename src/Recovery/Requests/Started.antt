-- ===== src/Recovery/Requests/Started.antt =====
-- Which enrolments can be started.
use tpt_identity.Prelude.{
  ℕ, ◌≤◌, ◌<◌, ◌≡◌, ◌≢◌, refl, sym, ap, ◌∙◌, String, false, List, [], ◌∷◌, Option, none, some,
  length, ltb, ◌||◌, arith, ◌==◌, eq_iff, eq_refl, subst,
}
use tpt_identity.Prelude.Table.{upsert, find-replace}
use tpt_identity.Store.Recovery.{
  RecoveryConfig, of_subject, save_recovery_config, get_recovery_config,
}
use tpt_identity.Recovery.Sharing.{split}
use tpt_identity.Recovery.Requests.{
  Guarded, Answer, Draws, Notice, enrol_subject, handle_recovery_initiate, split_token, start,
  publish,
}
use tpt_identity.Recovery.Requests.Approvals.{up}

split_too_many :
    (random : ℕ → Option (List ℕ)) (secret : List ℕ) (t n : ℕ)
    → 255 < n
    → split random secret t n ≡ none
unfolding split
split_too_many random secret t n h = ground (arith, h)

split_token_too_many :
    (d : Draws) (cfg : RecoveryConfig) (token : Option (List ℕ))
    → 255 < length cfg.guardian_dids
    → split_token d cfg token ≡ none
split_token_too_many d cfg none h = refl
split_token_too_many d cfg (some token) h =
    split_too_many d.coefficients token cfg.threshold (length cfg.guardian_dids) h

module _ (subject : String) (guardians : List String) (threshold now : ℕ) (w : Guarded) where
  abbrev enrolment : RecoveryConfig
  enrolment = record {
    subject_did = subject;
    threshold = threshold;
    guardian_dids = guardians;
    created_at = now;
  }

  abbrev after_enrolment : Guarded
  after_enrolment =
      publish (Notice.enrolled subject threshold (length guardians) ∷ [])
        (record w { configs = upsert (of_subject subject) (λ _. enrolment) enrolment w.configs })

  enrol_accepted :
      2 ≤ threshold
      → threshold ≤ length guardians
      → enrol_subject subject (some (guardians, threshold)) now up w
        ≡ (Answer.enrolled_with threshold (length guardians), after_enrolment)
  unfolding enrol_subject save_recovery_config
  enrol_accepted least most = rw (in_range, enrol_subject) refl
    where
      in_range :
          (ltb (length guardians) 2 || ltb threshold 2 || ltb (length guardians) threshold) ≡ false
      in_range = ground (arith, least, most)

  initiate_refused :
      (d : Draws) (later : ℕ)
      → subject ≢ ""
      → 255 < length guardians
      → handle_recovery_initiate subject d later up after_enrolment
        ≡ (Answer.internal_error, after_enrolment)
  unfolding handle_recovery_initiate get_recovery_config
  initiate_refused d later named many =
      rw (nonempty, handle_recovery_initiate)
        (rw
          (
            find-replace (of_subject subject) enrolment w.configs (eq_refl subject),
            handle_recovery_initiate,
          )
          (ap (start subject enrolment d later up after_enrolment)
            (split_token_too_many d enrolment d.token many)))
    where
      nonempty : subject == "" ≡ false
      nonempty = ground (arith, eq_iff subject "", named)

-- An enrolment that is accepted with more than 255 guardians can never be started: whatever is
-- drawn, the start right after it is answered with an internal error and changes nothing.
pub enrol-initiate :
    (subject : String) (guardians : List String) (threshold now later : ℕ) (w w' : Guarded)
    (answer : Answer) (d : Draws)
    → subject ≢ ""
    → 2 ≤ threshold
    → threshold ≤ length guardians
    → 255 < length guardians
    → enrol_subject subject (some (guardians, threshold)) now up w ≡ (answer, w')
    → (answer ≡ Answer.enrolled_with threshold (length guardians))
      × (handle_recovery_initiate subject d later up w' ≡ (Answer.internal_error, w'))
enrol-initiate subject guardians threshold now later w w' answer d named least most many e =
    let made = sym (enrol_accepted subject guardians threshold now w least most) ∙ e in
    (
      ap (λ (p : Answer × Guarded). p.0) (sym made),
      subst
          (λ (v : Guarded).
            handle_recovery_initiate subject d later up v ≡ (Answer.internal_error, v))
          (ap (λ (p : Answer × Guarded). p.1) made)
          (initiate_refused subject guardians threshold now w d later named many),
    )
