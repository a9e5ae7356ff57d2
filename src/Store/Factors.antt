-- ===== src/Store/Factors.antt =====
-- internal/store/sqlite.go: totp_credentials and duress_configs, whose key is the subject. What
-- is stored of a secret is a text as its bytes.
use tpt_identity.Prelude.{ℕ, String, Bool, List, Option, none, some, ◌==◌, if◌then◌else◌}
use tpt_identity.Prelude.Table.{find, delete, upsert}

pub record TotpCredential : Type 0 where
  pub subject_did : String
  pub encrypted_secret : List ℕ
  pub account_name : String
  pub created_at : ℕ

pub record DuressConfig : Type 0 where
  pub subject_did : String
  pub hash : List ℕ

abbrev pub totp_of : String → TotpCredential → Bool
totp_of k c = c.subject_did == k

abbrev pub reenrolled : TotpCredential → TotpCredential → TotpCredential
reenrolled new old = record old {
  encrypted_secret = new.encrypted_secret;
  account_name = new.account_name;
}

unfoldable pub save_totp_credential :
    Bool → TotpCredential → List TotpCredential → Option (List TotpCredential)
save_totp_credential down c rows =
    if down then none else some (upsert (totp_of c.subject_did) (reenrolled c) c rows)

unfoldable pub get_totp_credential : Bool → String → List TotpCredential → Option TotpCredential
get_totp_credential down k rows = if down then none else find (totp_of k) rows

unfoldable pub delete_totp_credential :
    Bool → String → List TotpCredential → Option (List TotpCredential)
delete_totp_credential down k rows = if down then none else some (delete (totp_of k) rows)

abbrev pub duress_of : String → DuressConfig → Bool
duress_of k c = c.subject_did == k

abbrev pub with_hash : List ℕ → DuressConfig → DuressConfig
with_hash h old = record old { hash = h }

unfoldable pub save_duress_config :
    Bool → String → List ℕ → List DuressConfig → Option (List DuressConfig)
save_duress_config down k hash rows =
    if down
    then none
    else some (upsert (duress_of k) (with_hash hash) (record { subject_did = k; hash = hash }) rows)

abbrev pub hash_of : Option DuressConfig → Option (List ℕ)
hash_of none = none
hash_of (some c) = some c.hash

-- No row is an error, as a failing call is.
unfoldable pub get_duress_hash : Bool → String → List DuressConfig → Option (List ℕ)
get_duress_hash down k rows = if down then none else hash_of (find (duress_of k) rows)

unfoldable pub delete_duress_config : Bool → String → List DuressConfig → Option (List DuressConfig)
delete_duress_config down k rows = if down then none else some (delete (duress_of k) rows)
