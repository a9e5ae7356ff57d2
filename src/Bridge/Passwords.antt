-- ===== src/Bridge/Passwords.antt =====
-- internal/bridge/providers/password.go: passwords as an identity provider. A password is its
-- bytes; strings.ToLower is the argument `lower`, and Argon2id is the `derive` of a `Suite`.
pub mod Checked
use tpt_identity.Prelude.{
  ℕ, String, Bool, true, false, List, [], ◌∷◌, ◌++◌, Option, none, some, length, ltb, if◌then◌else◌,
}
use tpt_identity.Prelude.Words.{trim_space}
use tpt_identity.Recovery.Sharing.{hex_encode, hex_decode}
use tpt_identity.Store.Secrets.{PasswordHash, save_password_hash, get_password_hash}
use tpt_identity.Authn.Secrets.{Suite, split_colon}
use tpt_identity.Authn.Duress.{same_bytes}
use tpt_identity.Bridge.Mapper.{ExternalIdentity}

unfoldable pub normalise_email : (String → String) → String → String
normalise_email lower email = lower (trim_space email)

unfoldable pub encode_argon2_hash : List ℕ → List ℕ → List ℕ
unfolding hex_encode
encode_argon2_hash hash salt = hex_encode salt ++ (b':' ∷ hex_encode hash)

module _ (c : Suite) where
  abbrev pub matches_key : List ℕ → Option (List ℕ) → Option (List ℕ) → Bool
  matches_key password (some salt) (some expected) = same_bytes (c.derive password salt) expected
  matches_key password _ _ = false

  abbrev pub matches_encoded : List ℕ → Option (List ℕ × List ℕ) → Bool
  matches_encoded password none = false
  matches_encoded password (some (salt, hash)) =
      matches_key password (hex_decode salt) (hex_decode hash)

  -- Whether verifyArgon2 returns nil.
  unfoldable pub verify_argon2 : List ℕ → List ℕ → Bool
  verify_argon2 password stored = matches_encoded password (split_colon stored)

  abbrev pub verifies_row : List ℕ → Option PasswordHash → Bool
  verifies_row password none = false
  verifies_row password (some row) = verify_argon2 password row.hash

module _ (c : Suite) (lower : String → String) where
  unfoldable pub verify_credentials :
      Bool → String → List ℕ → List PasswordHash → Option ExternalIdentity
  verify_credentials down identifier password rows =
      if verifies_row c password (get_password_hash down (normalise_email lower identifier) rows)
      then some (record {
        provider = "password";
        external_id = normalise_email lower identifier;
        claims = ("identifier", identifier) ∷ [];
        duress = false;
      })
      else none

  -- The salt is drawn where the password is long enough.
  unfoldable pub set_password :
      Bool → Option (List ℕ) → String → List ℕ → List PasswordHash → Option (List PasswordHash)
  set_password down none identifier password rows = none
  set_password down (some salt) identifier password rows =
      if ltb (length password) 12
      then none
      else save_password_hash down (normalise_email lower identifier)
          (encode_argon2_hash (c.derive password salt) salt) rows
