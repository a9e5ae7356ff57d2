-- ===== src/Exchange/Satisfied.antt =====
-- Which submissions satisfy a definition.
use tpt_identity.Prelude.{
  suc, ◌+◌, ◌≡◌, refl, ap, ◌∙◌, String, Bool, true, false, List, [], ◌∷◌, none, some, length, arith,
  ◌==◌, eq_iff, if◌then◌else◌, Bool-cases, inl, inr,
}
use tpt_identity.Prelude.Table.{find, upsert, find-upsert_other}
use tpt_identity.Exchange.{
  InputDescriptor, PresentationDefinition, Descriptor, PresentationSubmission, Reader, find_path,
  Evaluation, has_key, put_match, judge, credential_at, evaluate_all, evaluate,
}
use tpt_identity.Exchange.Met.{AllMet, OtherIds, DistinctIds}

length-upsert {ℓ} :
    {A : Type ℓ} (p : A → Bool) (f : A → A) (a : A) (xs : List A)
    → find p xs ≡ none
    → length (upsert p f a xs) ≡ suc (length xs)
unfolding find upsert
length-upsert p f a [] e = refl
length-upsert p f a (x ∷ xs) e = elim (Bool-cases (p x)) [
  | inl h ↦ absurd (ground (arith, h, e))
  | inr h ↦ rw (h, upsert) (ap suc (length-upsert p f a xs (ground (arith, h, e))))
]

module _ {C : Type 0} (g : Reader C) (entries : List Descriptor) (creds : List C) where
  abbrev Fresh : List InputDescriptor → Evaluation g → Type 0
  Fresh [] r = Unit {0}
  Fresh (d ∷ ds) r = (find (has_key g d.id) r.matched ≡ none) × Fresh ds r

  put_match-Fresh :
      (id : String) (cred : C) (ds : List InputDescriptor) (r : Evaluation g)
      → OtherIds g entries creds id ds
      → Fresh ds r
      → Fresh ds (put_match g id cred r)
  put_match-Fresh id cred [] r h k = tt
  put_match-Fresh id cred (d ∷ ds) r h k = (
    find-upsert_other (has_key g id) (has_key g d.id) (λ _. (id, cred)) (id, cred) r.matched apart
          (λ x e. ground (arith, eq_iff x.0 id, eq_iff x.0 d.id, eq_iff id d.id, e, h.0))
        ∙ k.0,
    put_match-Fresh id cred ds r h.1 k.1,
  )
    where
      apart : id == d.id ≡ false
      apart = ground (arith, eq_iff id d.id, h.0)

  -- Every descriptor adds its credential, and no error.
  record Grown (ds : List InputDescriptor) (r q : Evaluation g) : Type 0 where
    errors_same : q.errors ≡ r.errors
    matched_more : length q.matched ≡ length r.matched + length ds

  evaluate_all-Grown :
      (ds : List InputDescriptor) (r : Evaluation g)
      → AllMet g entries creds ds
      → DistinctIds g entries creds ds
      → Fresh ds r
      → Grown ds r (evaluate_all g entries creds ds r)
  unfolding evaluate_all
  evaluate_all-Grown [] r met distinct fresh = record {
    errors_same = refl;
    matched_more = omega arith;
  }
  evaluate_all-Grown (d ∷ ds) r met distinct fresh =
      let m = met.0 in
      let judged : judge g d (credential_at g creds (find_path d.id entries none)) r
          ≡ put_match g d.id m.cred r =
        ap (λ o. judge g d o r) m.named
        ∙ ap (λ b. if b then put_match g d.id m.cred r else (record r { errors = suc r.errors }))
            m.constrained in
      let next =
        evaluate_all-Grown ds (put_match g d.id m.cred r) met.1 distinct.1
          (put_match-Fresh d.id m.cred ds r distinct.0 fresh.1) in
      rw (evaluate_all, judged)
        (record {
          errors_same = next.errors_same;
          matched_more = omega (
            arith,
            next.matched_more,
            length-upsert (has_key g d.id) (λ _. (d.id, m.cred)) (d.id, m.cred) r.matched fresh.0,
          );
        })

  all-Fresh : (ds : List InputDescriptor) (r : Evaluation g) → r.matched ≡ [] → Fresh ds r
  unfolding find
  all-Fresh [] r e = tt
  all-Fresh (d ∷ ds) r e = (ground (arith, e), all-Fresh ds r e)

-- A submission for the definition, whose descriptors have different IDs and each an entry that names a
-- credential meeting its constraints, satisfies it.
pub evaluate-satisfied :
    {C : Type 0} (g : Reader C) (def : PresentationDefinition) (submission : PresentationSubmission)
    (creds : List C)
    → submission.definition_id ≡ def.id
    → DistinctIds g submission.descriptor_map creds def.input_descriptors
    → AllMet g submission.descriptor_map creds def.input_descriptors
    → (r : Evaluation g) × (evaluate g def submission creds ≡ some (true, r))
unfolding evaluate
evaluate-satisfied {C} g def submission creds same distinct met = (
  run,
  ground (
    arith,
    (eq_iff submission.definition_id def.id).1 same,
    grown.errors_same,
    grown.matched_more,
  ),
)
  where
    begun : Evaluation g
    begun = record { errors = 0; matched = [] }

    run : Evaluation g
    run = evaluate_all g submission.descriptor_map creds def.input_descriptors begun

    grown : Grown g submission.descriptor_map creds def.input_descriptors begun run
    grown =
        evaluate_all-Grown g submission.descriptor_map creds def.input_descriptors begun met
          distinct (all-Fresh g submission.descriptor_map creds def.input_descriptors begun refl)
