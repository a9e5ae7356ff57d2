-- ===== src/Authn/Totp/Window.antt =====
-- The codes that an enrolled secret is answered with.
use tpt_identity.Prelude.{
  ℕ, zero, suc, ◌+◌, ◌*◌, ◌/◌, ◌≤◌, ◌≡◌, ◌↔◌, ◌⊎◌, inl, inr, refl, sym, ap, ◌∙◌, subst, String,
  true, false, List, some, pos, negsuc, arith, eq_iff, Option-cases,
}
use tpt_identity.Prelude.Table.{find, upsert, merged, find-upsert}
use tpt_identity.Oidc.Jwt.{unix}
use tpt_identity.Store.Failures.{second}
use tpt_identity.Store.Factors.{
  TotpCredential, totp_of, reenrolled, save_totp_credential, get_totp_credential,
}
use tpt_identity.Authn.Secrets.{Suite, encrypt_secret, decrypt_secret}
use tpt_identity.Authn.Secrets.Split.{Sealing, decrypt-encrypt, timing_safe_equal_iff}
use tpt_identity.Authn.Totp.{
  totp_period, Outcome, shifted, deltas, generate_totp, in_window, check_secret, check_credential,
  verify_code, save_encrypted, enrol,
}

module _ (c : Suite) (secret given : List ℕ) where
  -- The given code is that of one of the three periods around a counter.
  abbrev pub Around : ℕ → Type 0
  Around n =
      (given ≡ generate_totp c secret (shifted n (negsuc 0)))
      ⊎ (given ≡ generate_totp c secret (shifted n (pos 0)))
      ⊎ (given ≡ generate_totp c secret (shifted n (pos 1)))

  in_window_iff : (n : ℕ) → in_window c secret n given deltas ≡ true ↔ Around n
  unfolding in_window
  in_window_iff n =
      let before = timing_safe_equal_iff given (generate_totp c secret (shifted n (negsuc 0))) in
      let here = timing_safe_equal_iff given (generate_totp c secret (shifted n (pos 0))) in
      let after = timing_safe_equal_iff given (generate_totp c secret (shifted n (pos 1))) in
      (λ e. ground (arith, before, here, after, e), λ e. ground (arith, before, here, after, e))

  -- What VerifyCtx says of a secret that decrypts.
  accepted_iff :
      (now : ℕ)
      → check_secret c now given (some secret) ≡ Outcome.accepted ↔ Around (unix now / totp_period)
  accepted_iff now =
      let same = in_window_iff (unix now / totp_period) in
      (λ e. same.0 (ground (arith, e)), λ e. ground (arith, same.1 e))

module _ (c : Suite) (passphrase : List ℕ) (issuer subject account : String)
    (secret salt iv : List ℕ) (made : ℕ) (rows : List TotpCredential) where
  -- The row that is found after the enrolment holds the new encrypted secret.
  found :
      (text : List ℕ) (r : TotpCredential)
      → r.subject_did ≡ subject
      → r.encrypted_secret ≡ text
      → (q : TotpCredential) × (find
            (totp_of subject)
            (upsert (totp_of subject) (reenrolled r) r rows)
          ≡ some q)
        × (q.encrypted_secret ≡ text)
  found text r here holds = (
    merged (reenrolled r) r (find (totp_of subject) rows),
    find-upsert (totp_of subject) (reenrolled r) r rows
        (ground (arith, eq_iff r.subject_did subject, here)) (λ x h. h),
    elim (Option-cases (find (totp_of subject) rows)) [
      | inl e ↦ rw e holds
      | inr (x, e) ↦ rw e holds
    ],
  )

  verify_found :
      (text given : List ℕ) (now : ℕ) (rows' : List TotpCredential) (q : TotpCredential)
      → decrypt_secret c passphrase text ≡ some secret
      → find (totp_of subject) rows' ≡ some q
      → q.encrypted_secret ≡ text
      → verify_code c passphrase false now subject given rows'
        ≡ check_secret c now given (some secret)
  unfolding verify_code get_totp_credential
  verify_found text given now rows' q decrypts there holds =
      ap (check_credential c passphrase now given) there
      ∙ ap (λ t. check_secret c now given (decrypt_secret c passphrase t)) holds
      ∙ ap (check_secret c now given) decrypts

  verify_enrolled :
      (given uri : List ℕ) (now : ℕ) (rows' : List TotpCredential)
      → Sealing c passphrase salt iv secret
      → enrol c passphrase issuer subject account
          (some secret)
          (some salt)
          (some iv)
          made
          false
          rows
        ≡ some (uri, rows')
      → verify_code c passphrase false now subject given rows'
        ≡ check_secret c now given (some secret)
  unfolding enrol save_totp_credential
  verify_enrolled given uri now rows' h e =
      elim (Option-cases (encrypt_secret c passphrase (some salt) (some iv) secret)) [
        | inl missing ↦ absurd (ground (arith, missing, e))
        | inr (text, encrypted) ↦
            let r : TotpCredential = record {
              subject_did = subject;
              encrypted_secret = text;
              account_name = account;
              created_at = made;
            } in
            let (q, there, holds) = found text r refl refl in
            let same : upsert (totp_of subject) (reenrolled r) r rows ≡ rows' = cc (
              sym (ap (save_encrypted c issuer subject account secret made false rows) encrypted)
              ∙ e) in
            verify_found text given now rows' q
              (decrypt-encrypt c passphrase salt iv secret text h encrypted)
              (subst (λ t. find (totp_of subject) t ≡ some q) same there) holds
      ]

  -- After an enrolment, and until the store's row is written again, VerifyCtx accepts the
  -- codes of the enrolled secret for the period of the time and for the two next to it, and no
  -- others. It is assumed that the salt, the nonce and the sealed secret are bytes, and that
  -- the sealed secret opens.
  pub verify_code-enrol :
      (given uri : List ℕ) (now : ℕ) (rows' : List TotpCredential)
      → Sealing c passphrase salt iv secret
      → enrol c passphrase issuer subject account
          (some secret)
          (some salt)
          (some iv)
          made
          false
          rows
        ≡ some (uri, rows')
      → verify_code c passphrase false now subject given rows' ≡ Outcome.accepted
        ↔ Around c secret given (unix now / totp_period)
  verify_code-enrol given uri now rows' h e =
      let same = verify_enrolled given uri now rows' h e in
      let (to, from) = accepted_iff c secret given now in
      (λ a. to (sym same ∙ a), λ a. same ∙ from a)

three_ways : (n k : ℕ) → k ≤ n + 1 → n ≤ k + 1 → (k + 1 ≡ n) ⊎ (k ≡ n + 0) ⊎ (k ≡ n + 1)
three_ways n k h l = ground arith

before : (n k : ℕ) → k + 1 ≡ n → pos k ≡ shifted n (negsuc 0)
unfolding shifted
before zero k e = absurd (omega (arith, e))
before (suc n) k e = ap pos (omega (arith, e))

-- The code of a period that is the same or next to it.
beside :
    (c : Suite) (secret : List ℕ) (n k : ℕ)
    → k ≤ n + 1
    → n ≤ k + 1
    → Around c secret (generate_totp c secret (pos k)) n
unfolding shifted
beside c secret n k h l = elim (three_ways n k h l) [
  | inl e ↦ inl (ap (generate_totp c secret) (before n k e))
  | inr (inl e) ↦ inr (inl (ap (λ i. generate_totp c secret (pos i)) e))
  | inr (inr e) ↦ inr (inr (ap (λ i. generate_totp c secret (pos i)) e))
]

-- The number of the period that a time is in.
abbrev pub period : ℕ → ℕ
period t = unix t / totp_period

near_period : (t now : ℕ) → t ≤ now + totp_period * second → period t ≤ period now + 1
near_period t now h = omega (arith, h)

-- A subject who enrolled and whose clock is at most 30 seconds off, before or after, is accepted
-- with the code that the secret gives for that clock, whatever was enrolled before.
pub verify_code-skew :
    (c : Suite) (passphrase : List ℕ) (issuer subject account : String)
    (secret salt iv uri : List ℕ) (made now clock : ℕ) (rows rows' : List TotpCredential)
    → Sealing c passphrase salt iv secret
    → enrol c passphrase issuer subject account (some secret) (some salt) (some iv) made false rows
      ≡ some (uri, rows')
    → clock ≤ now + totp_period * second
    → now ≤ clock + totp_period * second
    → verify_code c passphrase false now subject (generate_totp c secret (pos (period clock))) rows'
      ≡ Outcome.accepted
verify_code-skew c passphrase issuer subject account secret salt iv uri made now clock rows rows' h
      e ahead behind =
    (verify_code-enrol c passphrase issuer subject account secret salt iv made rows
        (generate_totp c secret (pos (period clock))) uri now rows' h e).1
      (beside c secret (period now) (period clock) (near_period clock now ahead)
        (near_period now clock behind))
