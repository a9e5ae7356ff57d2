-- ===== src/Bridge/Passwords/Checked.antt =====
-- Which passwords are verified.
use tpt_identity.Prelude.{
  ℕ, ◌≤◌, ◌≡◌, ◌≢◌, ◌↔◌, refl, sym, ap, ◌∙◌, String, Bool, true, false, List, Option, none, some,
  length, arith, eq_iff, eq_refl,
}
use tpt_identity.Prelude.Table.{find, upsert, find-replace, find-upsert_other}
use tpt_identity.Store.Secrets.{PasswordHash, password_of, save_password_hash, get_password_hash}
use tpt_identity.Recovery.Sharing.{hex_encode}
use tpt_identity.Recovery.Sharing.Hex.{AllBytes, decode-encode}
use tpt_identity.Authn.Secrets.{Suite}
use tpt_identity.Authn.Secrets.Split.{split_colon-hex}
use tpt_identity.Authn.Duress.{same_bytes}
use tpt_identity.Authn.Duress.Checked.{same_bytes_iff}
use tpt_identity.Bridge.Mapper.{ExternalIdentity}
use tpt_identity.Bridge.Passwords.{
  normalise_email, encode_argon2_hash, matches_encoded, verify_argon2, verifies_row,
  verify_credentials, set_password,
}

module _ (c : Suite) (lower : String → String) where
  verify_argon2-encode :
      (given password salt : List ℕ)
      → AllBytes salt
      → AllBytes (c.derive password salt)
      → verify_argon2 c given (encode_argon2_hash (c.derive password salt) salt)
        ≡ same_bytes (c.derive given salt) (c.derive password salt)
  unfolding verify_argon2 encode_argon2_hash
  verify_argon2-encode given password salt h k =
      ap (matches_encoded c given) (split_colon-hex salt (hex_encode (c.derive password salt)) h)
      ∙ rw (decode-encode salt h, decode-encode (c.derive password salt) k) refl

  -- Whether the password given verifies.
  abbrev pub verified : Option ExternalIdentity → Bool
  verified none = false
  verified (some _) = true

  verified-row :
      (given : List ℕ) (identifier : String) (rows : List PasswordHash)
      → verified (verify_credentials c lower false identifier given rows)
        ≡ verifies_row c given (find (password_of (normalise_email lower identifier)) rows)
  unfolding verify_credentials get_password_hash
  verified-row given identifier rows = ground arith

  abbrev row_of : List ℕ → List ℕ → String → PasswordHash
  row_of salt password identifier = record {
    identifier = normalise_email lower identifier;
    hash = encode_argon2_hash (c.derive password salt) salt;
  }

  abbrev with_row : PasswordHash → List PasswordHash → List PasswordHash
  with_row row rows = upsert (password_of row.identifier) (λ _. row) row rows

  set_password-row :
      (salt password : List ℕ) (identifier : String) (rows rows' : List PasswordHash)
      → set_password c lower false (some salt) identifier password rows ≡ some rows'
      → (12 ≤ length password) × (with_row (row_of salt password identifier) rows ≡ rows')
  unfolding set_password save_password_hash
  set_password-row salt password identifier rows rows' e = ground (arith, e)

-- The identifier's own part of it.
pub verified-own :
    (c : Suite) (lower : String → String) (salt password given : List ℕ) (identifier again : String)
    (rows rows' : List PasswordHash)
    → AllBytes salt
    → ((p : List ℕ) → AllBytes (c.derive p salt))
    → normalise_email lower again ≡ normalise_email lower identifier
    → set_password c lower false (some salt) identifier password rows ≡ some rows'
    → verified c lower (verify_credentials c lower false again given rows') ≡ true
      ↔ c.derive given salt ≡ c.derive password salt
verified-own c lower salt password given identifier again rows rows' h bytes same e =
    let (long, written) = set_password-row c lower salt password identifier rows rows' e in
    let row = row_of c lower salt password identifier in
    let k = normalise_email lower identifier in
    let there : find (password_of (normalise_email lower again)) rows' ≡ some row =
      ap (λ t. find (password_of t) rows') same
      ∙ ap (find (password_of k)) (sym written)
      ∙ find-replace (password_of k) row rows (eq_refl k) in
    let answer =
      verified-row c lower given again rows'
      ∙ ap (verifies_row c given) there
      ∙ verify_argon2-encode c lower given password salt h (bytes password) in
    let (to, from) = same_bytes_iff (c.derive given salt) (c.derive password salt) in
    (λ a. to (sym answer ∙ a), λ a. answer ∙ from a)

-- After SetPassword, which refuses fewer than 12 bytes, a password given for the same identifier
-- up to case and surrounding space verifies just if it has the new password's Argon2id key under
-- the salt drawn, and for every other identifier it verifies as it did before. It is assumed
-- that the salt and the keys are bytes.
pub verify_credentials-set_password :
    (c : Suite) (lower : String → String) (salt password given : List ℕ)
    (identifier again other : String) (rows rows' : List PasswordHash)
    → AllBytes salt
    → ((p : List ℕ) → AllBytes (c.derive p salt))
    → normalise_email lower again ≡ normalise_email lower identifier
    → normalise_email lower other ≢ normalise_email lower identifier
    → set_password c lower false (some salt) identifier password rows ≡ some rows'
    → (12 ≤ length password)
      × (verified c lower (verify_credentials c lower false again given rows') ≡ true
          ↔ c.derive given salt ≡ c.derive password salt)
      × (verified c lower (verify_credentials c lower false other given rows')
          ≡ verified c lower (verify_credentials c lower false other given rows))
verify_credentials-set_password c lower salt password given identifier again other rows rows' h
      bytes same differ e =
    let (long, written) = set_password-row c lower salt password identifier rows rows' e in
    let row = row_of c lower salt password identifier in
    let k = normalise_email lower identifier in
    let stranger = normalise_email lower other in
    let kept : find (password_of stranger) rows' ≡ find (password_of stranger) rows =
      ap (find (password_of stranger)) (sym written)
      ∙ find-upsert_other (password_of k) (password_of stranger) (λ _. row) row rows
          (ground (arith, eq_iff k stranger, differ))
          (λ x m. (
            ground (arith, eq_iff x.identifier k, eq_iff x.identifier stranger, m, differ),
            ground (arith, eq_iff k stranger, differ),
          )) in
    (
      long,
      verified-own c lower salt password given identifier again rows rows' h bytes same e,
      verified-row c lower given other rows'
          ∙ ap (verifies_row c given) kept
          ∙ sym (verified-row c lower given other rows),
    )
