-- ===== src/Exchange/Met.antt =====
-- What a satisfied evaluation says of each input descriptor.
use tpt_identity.Prelude.{
  suc, ◌≤◌, ◌≡◌, ◌≢◌, ap, String, true, List, [], ◌∷◌, Option, none, some, arith, ◌==◌, eq_iff,
  if◌then◌else◌, Option-cases, Bool-cases, inl, inr,
}
use tpt_identity.Exchange.{
  InputDescriptor, PresentationDefinition, Descriptor, PresentationSubmission, Reader, find_path,
  meets, Evaluation, put_match, judge, credential_at, evaluate_all, satisfied, evaluate,
}

module _ {C : Type 0} (g : Reader C) (entries : List Descriptor) (creds : List C) where
  -- The submission has an entry for the descriptor whose path names a credential that meets the constraints.
  pub record Met (d : InputDescriptor) : Type 0 where
    pub cred : C
    pub named : credential_at g creds (find_path d.id entries none) ≡ some cred
    pub constrained : meets g d.constraints cred ≡ true

  abbrev pub AllMet : List InputDescriptor → Type 0
  AllMet [] = Unit {0}
  AllMet (d ∷ ds) = Met d × AllMet ds

  abbrev pub OtherIds : String → List InputDescriptor → Type 0
  OtherIds id [] = Unit {0}
  OtherIds id (d ∷ ds) = (d.id ≢ id) × OtherIds id ds

  abbrev pub DistinctIds : List InputDescriptor → Type 0
  DistinctIds [] = Unit {0}
  DistinctIds (d ∷ ds) = OtherIds d.id ds × DistinctIds ds

  abbrev credential : InputDescriptor → Option C
  credential d = credential_at g creds (find_path d.id entries none)

  judge-grows :
      (d : InputDescriptor) (o : Option C) (r : Evaluation g) → r.errors ≤ (judge g d o r).errors
  judge-grows d none r = omega arith
  judge-grows d (some cred) r = ground arith

  -- Errors are never taken back.
  evaluate_all-grows :
      (ds : List InputDescriptor) (r : Evaluation g)
      → r.errors ≤ (evaluate_all g entries creds ds r).errors
  unfolding evaluate_all
  evaluate_all-grows [] r = omega arith
  evaluate_all-grows (d ∷ ds) r =
      omega
        (arith, judge-grows d (credential d) r, evaluate_all-grows ds (judge g d (credential d) r))

  judge-Met :
      (d : InputDescriptor) (r : Evaluation g)
      → (judge g d (credential d) r).errors ≡ r.errors
      → Met d
  judge-Met d r e = elim (Option-cases (credential d)) [
    | inl missing ↦ absurd (omega (arith, e, ap (λ o. (judge g d o r).errors) missing))
    | inr (cred, there) ↦ elim (Bool-cases (meets g d.constraints cred)) [
      | inl good ↦ record { cred = cred; named = there; constrained = good }
      | inr bad ↦ absurd (
          omega (
            arith,
            e,
            ap (λ o. (judge g d o r).errors) there,
            ap
                (λ b.
                  (if b
                    then put_match g d.id cred r
                    else (record r { errors = suc r.errors })).errors)
                bad,
          ))
    ]
  ]

  evaluate_all-AllMet :
      (ds : List InputDescriptor) (r : Evaluation g)
      → (evaluate_all g entries creds ds r).errors ≡ r.errors
      → AllMet ds
  unfolding evaluate_all
  evaluate_all-AllMet [] r e = tt
  evaluate_all-AllMet (d ∷ ds) r e =
      let next = judge g d (credential d) r in
      let grown = judge-grows d (credential d) r in
      let more = evaluate_all-grows ds next in
      (
        judge-Met d r (omega (arith, e, grown, more)),
        evaluate_all-AllMet ds next (omega (arith, e, grown, more)),
      )

module _ {C : Type 0} (g : Reader C) (def : PresentationDefinition)
    (submission : PresentationSubmission) (creds : List C) where
  -- A submission that satisfies a definition is for it, and has for every input descriptor an entry whose path
  -- names a credential of the presentation that meets the descriptor's constraints.
  pub evaluate-AllMet :
      (r : Evaluation g)
      → evaluate g def submission creds ≡ some (true, r)
      → (submission.definition_id ≡ def.id)
        × AllMet g submission.descriptor_map creds def.input_descriptors
  unfolding evaluate
  evaluate-AllMet r e = elim (Bool-cases (submission.definition_id == def.id)) [
    | inr other ↦ absurd (ground (arith, other, e))
    | inl same ↦ (
      (eq_iff submission.definition_id def.id).0 same,
      evaluate_all-AllMet g submission.descriptor_map creds def.input_descriptors begun
          (none_failed (ground (arith, same, e))),
    )
  ]
    where
      begun : Evaluation g
      begun = record { errors = 0; matched = [] }

      none_failed :
          satisfied g def
              (evaluate_all g submission.descriptor_map creds def.input_descriptors begun)
            ≡ true
          → (evaluate_all g submission.descriptor_map creds def.input_descriptors begun).errors ≡ 0
      none_failed h = ground (arith, h)
