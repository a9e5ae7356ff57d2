-- ===== src/Authn/Duress/Checked.antt =====
-- Which passphrases are those of duress.
use tpt_identity.Prelude.{
  ℕ, ◌≡◌, ◌≢◌, ◌↔◌, refl, sym, ap, ◌∙◌, String, true, false, List, [], ◌∷◌, some, arith, eq_iff,
  eq_refl, Option-cases, inl, inr,
}
use tpt_identity.Prelude.Table.{find, upsert, find-upsert, find-upsert_other}
use tpt_identity.Store.Factors.{
  DuressConfig, duress_of, with_hash, hash_of, save_duress_config, get_duress_hash,
}
use tpt_identity.Recovery.Sharing.{hex_encode}
use tpt_identity.Recovery.Sharing.Hex.{AllBytes, decode-encode}
use tpt_identity.Authn.Secrets.{Suite, split_colon}
use tpt_identity.Authn.Secrets.Split.{split_colon-hex}
use tpt_identity.Authn.Duress.{
  same_bytes, argon2_hash_duress, stored_duress, enrol_duress, matches_salted, matches_parts,
  matches_stored, check_duress,
}

pub same_bytes_iff : (s t : List ℕ) → same_bytes s t ≡ true ↔ s ≡ t
unfolding same_bytes
same_bytes_iff [] [] = (λ e. refl, λ e. refl)
same_bytes_iff [] (b ∷ t) = (λ e. ground (arith, e), λ e. ground (arith, e))
same_bytes_iff (a ∷ s) [] = (λ e. ground (arith, e), λ e. ground (arith, e))
same_bytes_iff (a ∷ s) (b ∷ t) = ground (arith, same_bytes_iff s t)

pub hex_encode_inj : (s t : List ℕ) → AllBytes s → AllBytes t → hex_encode s ≡ hex_encode t → s ≡ t
hex_encode_inj s t h k e = cc (decode-encode s h, decode-encode t k, e)

module _ (c : Suite) (salt : List ℕ) where
  matches_nonempty :
      (provided passphrase : List ℕ)
      → matches_stored c provided (some (stored_duress c passphrase salt))
        ≡ matches_parts c provided (split_colon (stored_duress c passphrase salt))
  unfolding stored_duress
  matches_nonempty provided passphrase = of_salt salt
    where
      of_salt :
          (digits : List ℕ)
          → matches_stored c provided (some (stored_duress c passphrase digits))
            ≡ matches_parts c provided (split_colon (stored_duress c passphrase digits))
      of_salt [] = refl
      of_salt (b ∷ digits) = refl

  hashes_iff :
      (provided passphrase : List ℕ)
      → ((p : List ℕ) → AllBytes (c.derive p salt))
      → same_bytes (argon2_hash_duress c provided salt) (argon2_hash_duress c passphrase salt)
          ≡ true
        ↔ c.derive provided salt ≡ c.derive passphrase salt
  unfolding argon2_hash_duress
  hashes_iff provided passphrase bytes =
      let (to, from) =
        same_bytes_iff (hex_encode (c.derive provided salt))
          (hex_encode (c.derive passphrase salt)) in
      (
        λ e.
            hex_encode_inj (c.derive provided salt) (c.derive passphrase salt) (bytes provided)
              (bytes passphrase) (to e),
        λ e. from (ap hex_encode e),
      )

  matches_hash :
      (provided passphrase : List ℕ)
      → AllBytes salt
      → matches_stored c provided (some (stored_duress c passphrase salt))
        ≡ same_bytes (argon2_hash_duress c provided salt) (argon2_hash_duress c passphrase salt)
  unfolding stored_duress
  matches_hash provided passphrase h =
      matches_nonempty provided passphrase
      ∙ ap (matches_parts c provided)
          (split_colon-hex salt (argon2_hash_duress c passphrase salt) h)
      ∙ ap (matches_salted c provided (argon2_hash_duress c passphrase salt)) (decode-encode salt h)

  -- What is stored for the subject after an enrolment, and for another.
  get_enrolled :
      (subject : String) (passphrase : List ℕ) (rows rows' : List DuressConfig)
      → enrol_duress c subject passphrase (some salt) false rows ≡ some rows'
      → get_duress_hash false subject rows' ≡ some (stored_duress c passphrase salt)
  unfolding enrol_duress save_duress_config get_duress_hash
  get_enrolled subject [] rows rows' e = absurd (ground (arith, e))
  get_enrolled subject (b ∷ passphrase) rows rows' e =
      let hash = stored_duress c (b ∷ passphrase) salt in
      let row : DuressConfig = record { subject_did = subject; hash = hash } in
      let same : upsert (duress_of subject) (with_hash hash) row rows ≡ rows' = cc e in
      ap (λ t. hash_of (find (duress_of subject) t)) (sym same)
      ∙ ap hash_of
          (find-upsert (duress_of subject) (with_hash hash) row rows (eq_refl subject) (λ x h. h))
      ∙ elim (Option-cases (find (duress_of subject) rows)) [
        | inl e ↦ rw e refl
        | inr (x, e) ↦ rw e refl
      ]

  get_other :
      (subject other : String) (passphrase : List ℕ) (rows rows' : List DuressConfig)
      → other ≢ subject
      → enrol_duress c subject passphrase (some salt) false rows ≡ some rows'
      → get_duress_hash false other rows' ≡ get_duress_hash false other rows
  unfolding enrol_duress save_duress_config get_duress_hash
  get_other subject other [] rows rows' d e = absurd (ground (arith, e))
  get_other subject other (b ∷ passphrase) rows rows' d e =
      let hash = stored_duress c (b ∷ passphrase) salt in
      let row : DuressConfig = record { subject_did = subject; hash = hash } in
      let same : upsert (duress_of subject) (with_hash hash) row rows ≡ rows' = cc e in
      ap (λ t. hash_of (find (duress_of other) t)) (sym same)
      ∙ ap hash_of (
          find-upsert_other (duress_of subject) (duress_of other) (with_hash hash) row rows
            (ground (arith, eq_iff subject other, d))
            (λ x k. ground (arith, eq_iff x.subject_did subject, eq_iff x.subject_did other, k, d)))

-- The subject's own part of it.
pub check_duress-own :
    (c : Suite) (salt passphrase provided : List ℕ) (subject : String)
    (rows rows' : List DuressConfig)
    → AllBytes salt
    → ((p : List ℕ) → AllBytes (c.derive p salt))
    → enrol_duress c subject passphrase (some salt) false rows ≡ some rows'
    → check_duress c subject provided false rows' ≡ true
      ↔ c.derive provided salt ≡ c.derive passphrase salt
unfolding check_duress
check_duress-own c salt passphrase provided subject rows rows' h bytes e =
    let (to, from) = hashes_iff c salt provided passphrase bytes in
    let same =
      ap (matches_stored c provided) (get_enrolled c salt subject passphrase rows rows' e)
      ∙ matches_hash c salt provided passphrase h in
    (λ a. to (sym same ∙ a), λ a. same ∙ from a)

-- After an enrolment of a passphrase, CheckDuress answers for the subject with whether the
-- passphrase provided has the enrolled one's Argon2id key under the salt drawn, and for every
-- other subject as it did before. It is assumed that the salt and the keys are bytes.
pub check_duress-enrol :
    (c : Suite) (salt passphrase provided : List ℕ) (subject other : String)
    (rows rows' : List DuressConfig)
    → AllBytes salt
    → ((p : List ℕ) → AllBytes (c.derive p salt))
    → other ≢ subject
    → enrol_duress c subject passphrase (some salt) false rows ≡ some rows'
    → (check_duress c subject provided false rows' ≡ true
        ↔ c.derive provided salt ≡ c.derive passphrase salt)
      × (check_duress c other provided false rows' ≡ check_duress c other provided false rows)
unfolding check_duress
check_duress-enrol c salt passphrase provided subject other rows rows' h bytes d e = (
  check_duress-own c salt passphrase provided subject rows rows' h bytes e,
  ap (matches_stored c provided) (get_other c salt subject other passphrase rows rows' d e),
)
