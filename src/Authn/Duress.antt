-- ===== src/Authn/Duress.antt =====
-- internal/authn/duress.go: the passphrase that tells of coercion.
pub mod Checked
use tpt_identity.Prelude.{
  ℕ, String, Bool, true, false, List, [], ◌∷◌, ◌++◌, Option, none, some, nat_beq, ◌&&◌,
}
use tpt_identity.Recovery.Sharing.{hex_encode, hex_decode}
use tpt_identity.Store.Factors.{
  DuressConfig, save_duress_config, get_duress_hash, delete_duress_config,
}
use tpt_identity.Authn.Secrets.{Suite, split_colon}

-- subtle.ConstantTimeCompare.
unfoldable pub same_bytes : List ℕ → List ℕ → Bool
same_bytes [] [] = true
same_bytes (a ∷ s) (b ∷ t) = nat_beq a b && same_bytes s t
same_bytes _ _ = false

module _ (c : Suite) where
  unfoldable pub argon2_hash_duress : List ℕ → List ℕ → List ℕ
  unfolding hex_encode
  argon2_hash_duress passphrase salt = hex_encode (c.derive passphrase salt)

  unfoldable pub stored_duress : List ℕ → List ℕ → List ℕ
  unfolding hex_encode argon2_hash_duress
  stored_duress passphrase salt = hex_encode salt ++ (b':' ∷ argon2_hash_duress passphrase salt)

  unfoldable pub enrol_duress :
      String → List ℕ → Option (List ℕ) → Bool → List DuressConfig → Option (List DuressConfig)
  enrol_duress subject [] salt down rows = none
  enrol_duress subject (b ∷ passphrase) none down rows = none
  enrol_duress subject (b ∷ passphrase) (some salt) down rows =
      save_duress_config down subject (stored_duress (b ∷ passphrase) salt) rows

  abbrev pub matches_salted : List ℕ → List ℕ → Option (List ℕ) → Bool
  matches_salted provided hash none = false
  matches_salted provided hash (some salt) = same_bytes (argon2_hash_duress provided salt) hash

  abbrev pub matches_parts : List ℕ → Option (List ℕ × List ℕ) → Bool
  matches_parts provided none = false
  matches_parts provided (some (salt, hash)) = matches_salted provided hash (hex_decode salt)

  -- An empty text is not one that was stored; no error is returned in any case.
  abbrev pub matches_stored : List ℕ → Option (List ℕ) → Bool
  matches_stored provided none = false
  matches_stored provided (some []) = false
  matches_stored provided (some (b ∷ text)) = matches_parts provided (split_colon (b ∷ text))

  unfoldable pub check_duress : String → List ℕ → Bool → List DuressConfig → Bool
  check_duress subject provided down rows =
      matches_stored provided (get_duress_hash down subject rows)

unfoldable pub remove_duress : Bool → String → List DuressConfig → Option (List DuressConfig)
remove_duress down subject rows = delete_duress_config down subject rows
