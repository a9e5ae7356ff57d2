-- ===== src/Trust/Reputation/Issued.antt =====
-- A reputation that an authority signs is the one that verifies under its key.
use tpt_identity.Prelude.{
  ℕ, zero, suc, ◌-◌, ℤ, pos, negsuc, ◌+◌, ◌*◌, ◌/◌, ◌≤◌, ◌≡◌, ◌↔◌, ◌⊎◌, inl, inr, refl, sym, ap,
  ◌∙◌, String, true, false, Bool, none, some, List, arith, ltb, not, ◌==◌, if◌then◌else◌,
  Option-cases,
}
use tpt_identity.Oidc.Jwt.{second}
use tpt_identity.Trust.Permit.{after}
use tpt_identity.Trust.Reputation.{
  ReputationRecord, ReputationVc, ReputationProof, Registrar, slice_contains, out_of_range, is_zero,
  reputation_sign_input, assessment, proof_with, issue_reputation_vc, still_valid, record_of,
  verify_proof, verify_reputation_vc,
}

-- What the code relies on of the libraries, for one credential: its JSON reads back, base64url reads
-- back, and a signature verifies.
pub record Reads {Key : Type 0} (g : Registrar Key) (key : Key) (v : ReputationVc)
    (p : String → ReputationProof) : Type 0 where
  pub json_back :
      (m : List ℕ) (t : String)
      → g.marshal v (p (g.base64_encode (g.sign key m))) ≡ some t
      → g.unmarshal t ≡ some (v, some (p (g.base64_encode (g.sign key m))))
  pub sig_back :
      (m : List ℕ) → g.base64_decode (g.base64_encode (g.sign key m)) ≡ some (g.sign key m)
  pub signed : (m : List ℕ) → g.verify key m (g.sign key m) ≡ true

-- A time written as RFC 3339 is not empty, and reads back to its second.
pub record Times {Key : Type 0} (g : Registrar Key) : Type 0 where
  pub time_back : (t : ℕ) → g.parse_time (g.rfc3339 t) ≡ some (t / second * second)
  pub time_given : (t : ℕ) → g.rfc3339 t == "" ≡ false

-- The credential has no end, or its last second has not begun to pass.
abbrev pub Lasts : ℕ → ℤ → ℕ → Type 0
Lasts now valid_for later = (valid_for ≡ pos 0) ⊎ (later ≤ after now valid_for / second * second)

not_past :
    (t later : ℕ) → not (ltb (t / second * second) later) ≡ true → later ≤ t / second * second
not_past t later h = ground (arith, h)

module _ {Key : Type 0} (g : Registrar Key) (key : Key) (times : Times g) where
  valid_until_time :
      (t later : ℕ) → still_valid g (g.rfc3339 t) later ≡ not (ltb (t / second * second) later)
  unfolding still_valid
  valid_until_time t later = ground (arith, times.time_given t, times.time_back t)

  still_valid-Lasts :
      (now later : ℕ) (valid_for : ℤ)
      → (still_valid g (if is_zero valid_for then "" else g.rfc3339 (after now valid_for)) later
          ≡ true)
        ↔ Lasts now valid_for later
  unfolding still_valid
  still_valid-Lasts now later (pos zero) = ((λ _. inl refl), (λ _. refl))
  still_valid-Lasts now later (pos (suc n)) = (
    (λ h. inr (not_past (now + suc n) later (sym (valid_until_time (now + suc n) later) ∙ h))),
    (λ l. valid_until_time (now + suc n) later ∙ of_lasts l),
  )
    where
      of_lasts :
          Lasts now (pos (suc n)) later → not (ltb ((now + suc n) / second * second) later) ≡ true
      of_lasts l = ground (arith, l)
  still_valid-Lasts now later (negsuc n) = (
    (λ h. inr (not_past (now - suc n) later (sym (valid_until_time (now - suc n) later) ∙ h))),
    (λ l. valid_until_time (now - suc n) later ∙ of_lasts l),
  )
    where
      of_lasts :
          Lasts now (negsuc n) later → not (ltb ((now - suc n) / second * second) later) ≡ true
      of_lasts l = ground (arith, l)

  module _ (authority verification_method subject uuid : String) (r : ReputationRecord)
      (valid_for : ℤ) (now : ℕ)
      (reads : Reads g key
        (assessment g authority subject r valid_for uuid now)
        (proof_with g verification_method now)) where
    abbrev issued : ReputationVc
    issued = assessment g authority subject r valid_for uuid now

    -- The options that are signed leave the proof value out.
    sign_input_value :
        (value : String)
        → reputation_sign_input g (proof_with g verification_method now value) issued
          ≡ reputation_sign_input g (proof_with g verification_method now "") issued
    unfolding reputation_sign_input
    sign_input_value value = refl

    verify_proof-sign :
        (m : List ℕ)
        → reputation_sign_input g (proof_with g verification_method now "") issued ≡ some m
        → verify_proof g issued
            (proof_with g verification_method now (g.base64_encode (g.sign key m)))
            key
          ≡ some (record_of g issued.credential_subject)
    unfolding verify_proof reputation_sign_input
    verify_proof-sign m e =
        let value = g.base64_encode (g.sign key m) in
        ground (arith, sign_input_value value ∙ e, reads.sig_back m, reads.signed m)

    verify_issued :
        (m : List ℕ) (json : String) (later : ℕ)
        → reputation_sign_input g (proof_with g verification_method now "") issued ≡ some m
        → g.marshal issued (proof_with g verification_method now (g.base64_encode (g.sign key m)))
          ≡ some json
        → verify_reputation_vc g json key later ≡ (
            if still_valid g issued.valid_until later
            then some (record_of g issued.credential_subject)
            else none)
    unfolding verify_reputation_vc slice_contains
    verify_issued m json later e k =
        let p = proof_with g verification_method now (g.base64_encode (g.sign key m)) in
        ground (arith, reads.json_back m json k, verify_proof-sign m e)

  -- A reputation with a score from 0 to 100 that an authority issues verifies under its key exactly until the
  -- end of its validity, which is cut down to a whole second; it then gives the subject, score,
  -- tier and date that were issued. No other score is issued.
  pub verify_reputation_vc-issue :
      (authority verification_method subject uuid json : String) (r : ReputationRecord)
      (valid_for : ℤ) (now later : ℕ) (q : ReputationRecord)
      → Reads g key
          (assessment g authority subject r valid_for uuid now)
          (proof_with g verification_method now)
      → issue_reputation_vc g authority key verification_method subject r valid_for uuid now
        ≡ some json
      → (out_of_range r.score ≡ false)
        × ((verify_reputation_vc g json key later ≡ some q) ↔ (
            (q ≡ record {
              domain = subject;
              score = r.score;
              tier = r.tier;
              since = r.since;
              raw = "";
            })
            × Lasts now valid_for later))
  unfolding issue_reputation_vc
  verify_reputation_vc-issue authority vm subject uuid json r valid_for now later q reads e =
      elim (Option-cases (reputation_sign_input g (proof_with g vm now "") cred)) [
        | inl bad ↦ absurd (ground (arith, bad, e))
        | inr (m, done) ↦ (
          ground (arith, e),
          answers (still_valid g cred.valid_until later)
              (verify_issued authority vm subject uuid r valid_for now reads m json later done
                (ground (arith, done, e)))
              (still_valid-Lasts now later valid_for),
        )
      ]
    where
      cred : ReputationVc
      cred = assessment g authority subject r valid_for uuid now

      answers :
          (b : Bool)
          → verify_reputation_vc g json key later
            ≡ (if b then some (record_of g cred.credential_subject) else none)
          → ((b ≡ true) ↔ Lasts now valid_for later)
          → (verify_reputation_vc g json key later ≡ some q)
            ↔ ((q ≡ record_of g cred.credential_subject) × Lasts now valid_for later)
      answers true k l = ((λ h. (ground (arith, h, k), l.0 refl)), (λ h. k ∙ ap some (sym h.0)))
      answers false k l =
          ((λ h. absurd (ground (arith, h, k))), (λ h. absurd (ground (arith, l.1 h.1))))
