-- ===== src/Store/Secrets.antt =====
-- internal/store/sqlite.go: passwords, magic_link_tokens and password_reset_tokens. A stored
-- password is a text as its bytes.
use tpt_identity.Prelude.{ℕ, String, Bool, List, Option, none, some, ◌==◌, if◌then◌else◌}
use tpt_identity.Prelude.Table.{find, delete, upsert, insert}

pub record PasswordHash : Type 0 where
  pub identifier : String
  pub hash : List ℕ

pub record MagicLinkToken : Type 0 where
  pub hash : String
  pub email : String
  pub expires_at : ℕ
  pub created_at : ℕ

pub record PasswordResetToken : Type 0 where
  pub hash : String
  pub identifier : String
  pub expires_at : ℕ
  pub created_at : ℕ

abbrev pub password_of : String → PasswordHash → Bool
password_of k p = p.identifier == k

unfoldable pub save_password_hash :
    Bool → String → List ℕ → List PasswordHash → Option (List PasswordHash)
save_password_hash down k hash rows =
    let row : PasswordHash = record { identifier = k; hash = hash } in
    if down then none else some (upsert (password_of k) (λ _. row) row rows)

unfoldable pub get_password_hash : Bool → String → List PasswordHash → Option PasswordHash
get_password_hash down k rows = if down then none else find (password_of k) rows

unfoldable pub delete_password_hash : Bool → String → List PasswordHash → Option (List PasswordHash)
delete_password_hash down k rows = if down then none else some (delete (password_of k) rows)

abbrev pub has_link_hash : String → MagicLinkToken → Bool
has_link_hash k t = t.hash == k

unfoldable pub save_magic_link_token :
    Bool → MagicLinkToken → List MagicLinkToken → Option (List MagicLinkToken)
save_magic_link_token down t rows = if down then none else insert (has_link_hash t.hash) t rows

unfoldable pub get_magic_link_token : Bool → String → List MagicLinkToken → Option MagicLinkToken
get_magic_link_token down k rows = if down then none else find (has_link_hash k) rows

unfoldable pub delete_magic_link_token :
    Bool → String → List MagicLinkToken → Option (List MagicLinkToken)
delete_magic_link_token down k rows = if down then none else some (delete (has_link_hash k) rows)

abbrev pub has_reset_hash : String → PasswordResetToken → Bool
has_reset_hash k t = t.hash == k

unfoldable pub save_password_reset_token :
    Bool → PasswordResetToken → List PasswordResetToken → Option (List PasswordResetToken)
save_password_reset_token down t rows = if down then none else insert (has_reset_hash t.hash) t rows

unfoldable pub get_password_reset_token :
    Bool → String → List PasswordResetToken → Option PasswordResetToken
get_password_reset_token down k rows = if down then none else find (has_reset_hash k) rows

unfoldable pub delete_password_reset_token :
    Bool → String → List PasswordResetToken → Option (List PasswordResetToken)
delete_password_reset_token down k rows =
    if down then none else some (delete (has_reset_hash k) rows)
