-- ===== src/Store/Sessions.antt =====
-- internal/store/sqlite.go: the statements on oidc_sessions, whose key is `id`.
use tpt_identity.Prelude.{
  ℕ, String, Bool, List, [], ◌∷◌, Option, none, some, ◌==◌, ltb, if◌then◌else◌, ◌&&◌,
}
use tpt_identity.Prelude.Table.{find, delete, upsert}
use tpt_identity.Store.Rows.{Session}

abbrev pub has_id : String → Session → Bool
has_id k s = s.id == k

abbrev pub has_code : String → Session → Bool
has_code k s = s.code == k

-- The columns of the ON CONFLICT clause; the others stay.
abbrev pub session_update : Session → Session → Session
session_update new old = record old {
  state = new.state;
  code = new.code;
  code_challenge = new.code_challenge;
  code_challenge_method = new.code_challenge_method;
  access_token = new.access_token;
  refresh_token_hash = new.refresh_token_hash;
  last_used_at = new.last_used_at;
  expires_at = new.expires_at;
}

unfoldable pub save_session : Bool → Session → List Session → Option (List Session)
save_session down s rows =
    if down then none else some (upsert (has_id s.id) (session_update s) s rows)

unfoldable pub get_session : Bool → String → List Session → Option Session
get_session down k rows = if down then none else find (has_id k) rows

unfoldable pub get_session_by_code : Bool → String → List Session → Option Session
get_session_by_code down k rows = if down then none else find (has_code k) rows

unfoldable pub delete_session : Bool → String → List Session → Option (List Session)
delete_session down k rows = if down then none else some (delete (has_id k) rows)

unfoldable pub purge_expired_sessions : Bool → ℕ → List Session → Option (List Session)
purge_expired_sessions down now rows =
    if down then none else some (delete (λ s. ltb s.expires_at now) rows)

-- The rows of a subject that have not expired, in table order: the modelled caller acts on every
-- row, so ORDER BY created_at DESC is left out.
unfoldable pub live_of : String → ℕ → List Session → List Session
live_of did now [] = []
live_of did now (s ∷ rows) =
    let rest = live_of did now rows in
    if s.subject_did == did && ltb now s.expires_at then s ∷ rest else rest

unfoldable pub list_sessions_by_subject : Bool → String → ℕ → List Session → Option (List Session)
unfolding live_of
list_sessions_by_subject down did now rows = if down then none else some (live_of did now rows)
