-- ===== src/Store/RefreshTokens.antt =====
-- internal/store/sqlite.go: the statements on refresh_tokens, whose key is `hash`.
use tpt_identity.Prelude.{String, Bool, List, Option, none, some, ◌==◌, if◌then◌else◌}
use tpt_identity.Prelude.Table.{find, delete, upsert}
use tpt_identity.Store.Rows.{RefreshToken}

abbrev pub has_hash : String → RefreshToken → Bool
has_hash k t = t.hash == k

-- A row that is there changes in used_at only.
abbrev pub refresh_update : RefreshToken → RefreshToken → RefreshToken
refresh_update new old = record old { used_at = new.used_at }

unfoldable pub save_refresh_token :
    Bool → RefreshToken → List RefreshToken → Option (List RefreshToken)
save_refresh_token down t rows =
    if down then none else some (upsert (has_hash t.hash) (refresh_update t) t rows)

unfoldable pub get_refresh_token : Bool → String → List RefreshToken → Option RefreshToken
get_refresh_token down k rows = if down then none else find (has_hash k) rows

unfoldable pub delete_refresh_token : Bool → String → List RefreshToken → Option (List RefreshToken)
delete_refresh_token down k rows = if down then none else some (delete (has_hash k) rows)
