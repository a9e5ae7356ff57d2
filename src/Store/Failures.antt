-- ===== src/Store/Failures.antt =====
-- internal/store/sqlite.go: the counter of failed logins and the lock that it sets.
use tpt_identity.Prelude.{
  ℕ, ◌+◌, ◌*◌, String, Bool, List, Option, none, some, ◌==◌, leb, if◌then◌else◌,
}
use tpt_identity.Prelude.Table.{find, delete, upsert}
use tpt_identity.Store.Rows.{AuthFailure}

abbrev pub second : ℕ
second = 1000000000

abbrev pub lock_threshold1 : ℕ
lock_threshold1 = 5

abbrev pub lock_duration1 : ℕ
lock_duration1 = 5 * 60 * second

abbrev pub lock_threshold2 : ℕ
lock_threshold2 = 10

abbrev pub lock_duration2 : ℕ
lock_duration2 = 30 * 60 * second

abbrev pub lock_threshold3 : ℕ
lock_threshold3 = 20

-- 100 years of 365 days.
abbrev pub permanent : ℕ
permanent = 100 * 365 * 24 * 3600 * second

abbrev pub has_subject : String → AuthFailure → Bool
has_subject k f = f.subject_or_email == k

-- The count that `row.Scan` leaves: 0 where there is no row, or where the read fails.
abbrev pub scanned_count : Option AuthFailure → ℕ
scanned_count none = 0
scanned_count (some f) = f.count

-- The switch of RecordAuthFailure, on the new count.
unfoldable pub lock_until : ℕ → ℕ → Option ℕ
lock_until now count =
    if leb lock_threshold3 count
    then some (now + permanent)
    else if leb lock_threshold2 count
    then some (now + lock_duration2)
    else if leb lock_threshold1 count
    then some (now + lock_duration1)
    else none

abbrev pub failure_update : AuthFailure → AuthFailure → AuthFailure
failure_update new old = record old {
  count = new.count;
  last_failure_at = new.last_failure_at;
  locked_until = new.locked_until;
}

abbrev pub failure_row : String → ℕ → ℕ → AuthFailure
failure_row k now count = record {
  subject_or_email = k;
  count = count;
  last_failure_at = now;
  locked_until = lock_until now count;
}

-- `unread` says that the SELECT fails, `down` that the INSERT does.
unfoldable pub record_auth_failure :
    Bool → Bool → ℕ → String → List AuthFailure → Option (List AuthFailure)
record_auth_failure unread down now k rows =
    let seen : Option AuthFailure = if unread then none else find (has_subject k) rows in
    let row = failure_row k now (scanned_count seen + 1) in
    if down then none else some (upsert (has_subject k) (failure_update row) row rows)

-- No row is a count of 0 and no lock; only a driver error is an error.
unfoldable pub get_auth_failures : Bool → String → List AuthFailure → Option (ℕ × Option ℕ)
get_auth_failures down k rows = if down then none else elim (find (has_subject k) rows) [
  | none ↦ some (0, none)
  | some f ↦ some (f.count, f.locked_until)
]

unfoldable pub clear_auth_failures : Bool → String → List AuthFailure → Option (List AuthFailure)
clear_auth_failures down k rows = if down then none else some (delete (has_subject k) rows)
