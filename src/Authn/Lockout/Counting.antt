-- ===== src/Authn/Lockout/Counting.antt =====
-- Failures in a row, and the lock that they set: internal/authn/lockout.go.
use tpt_identity.Prelude.{
  ℕ, suc, ◌+◌, ◌≡◌, ◌≢◌, ◌⊎◌, refl, ap, ◌∙◌, String, false, List, [], ◌∷◌, Option, some, none,
  arith, eq_iff, eq_refl, ltb, leb, not, ◌&&◌, ◌==◌, if◌then◌else◌, Bool-cases, inl, inr,
  Option-cases,
}
use tpt_identity.Prelude.Table.{
  find, delete, merged, find-upsert, find-upsert_other, find-delete, find-delete_other,
}
use tpt_identity.Store.Rows.{AuthFailure}
use tpt_identity.Store.Failures.{
  has_subject, lock_until, failure_update, failure_row, scanned_count, record_auth_failure,
  get_auth_failures, clear_auth_failures, lock_duration1, lock_duration2, permanent,
}
use tpt_identity.Authn.Lockout.{check_locked, record_failure, record_success, admin_reset}

abbrev pub or_same : List AuthFailure → Option (List AuthFailure) → List AuthFailure
or_same rows none = rows
or_same rows (some next) = next

-- Failures of one subject at these times, the last one first, while the store works.
unfoldable pub fail_at : String → List ℕ → List AuthFailure → List AuthFailure
fail_at k [] rows = rows
fail_at k (t ∷ ts) rows =
    let before = fail_at k ts rows in or_same before (record_failure false false t k before)

-- The state that the same failures leave, told without the table: how many, and the lock of the
-- last one.
unfoldable pub count : List ℕ → ℕ
count [] = 0
count (_ ∷ ts) = suc (count ts)

unfoldable pub last_lock : List ℕ → Option ℕ
unfolding count
last_lock [] = none
last_lock (t ∷ ts) = lock_until t (suc (count ts))

merged-row :
    (k : String) (now n : ℕ) (row : Option AuthFailure)
    → let r = merged (failure_update (failure_row k now n)) (failure_row k now n) row in
      (r.count ≡ n) × (r.locked_until ≡ lock_until now n)
merged-row k now n none = (refl, refl)
merged-row k now n (some old) = (refl, refl)

find-fail :
    (k : String) (now : ℕ) (rows : List AuthFailure)
    → let n = scanned_count (find (has_subject k) rows) + 1 in
      get_auth_failures false k (or_same rows (record_failure false false now k rows))
      ≡ some (n, lock_until now n)
unfolding record_failure record_auth_failure get_auth_failures
find-fail k now rows =
    let n = scanned_count (find (has_subject k) rows) + 1 in
    let row = failure_row k now n in
    let found = find-upsert (has_subject k) (failure_update row) row rows (eq_refl k) (λ f h. h) in
    rw found (
      ap (λ (x : ℕ × Option ℕ). some x)
        (ground (arith, merged-row k now n (find (has_subject k) rows))))

scanned-get :
    (k : String) (rows : List AuthFailure) (n : ℕ) (lock : Option ℕ)
    → get_auth_failures false k rows ≡ some (n, lock)
    → scanned_count (find (has_subject k) rows) ≡ n
unfolding get_auth_failures
scanned-get k rows n lock e = ground (arith, Option-cases (find (has_subject k) rows))

-- Failures in a row of a subject without a record are counted, and the lock is that of the last
-- failure under the count.
get_auth_failures-fail_at :
    (k : String) (ts : List ℕ) (rows : List AuthFailure)
    → find (has_subject k) rows ≡ none
    → get_auth_failures false k (fail_at k ts rows) ≡ some (count ts, last_lock ts)
unfolding fail_at count last_lock get_auth_failures
get_auth_failures-fail_at k [] rows new = rw new refl
get_auth_failures-fail_at k (t ∷ ts) rows new =
    let before = fail_at k ts rows in
    let seen =
      scanned-get k before (count ts) (last_lock ts) (get_auth_failures-fail_at k ts rows new) in
    ground (arith, seen, find-fail k t before)

-- The lock after failures in a row, the last at `t`, for a subject without a record: none up to
-- the fourth; from the fifth on five minutes, from the tenth on thirty, and from the twentieth on
-- a hundred years of 365 days, each counted from the last failure.
pub check_locked-fail_at :
    (k : String) (t : ℕ) (ts : List ℕ) (rows : List AuthFailure) (now : ℕ)
    → find (has_subject k) rows ≡ none
    → let n = count (t ∷ ts) in
      check_locked false now k (fail_at k (t ∷ ts) rows) ≡ (
        leb 5 n
        && ltb now (
            t
            + (if leb 20 n
                then permanent
                else if leb 10 n
                then lock_duration2
                else lock_duration1)))
unfolding check_locked last_lock lock_until
check_locked-fail_at k t ts rows now new =
    ground (arith, get_auth_failures-fail_at k (t ∷ ts) rows new)

find-record_other :
    (j k : String) (now : ℕ) (rows : List AuthFailure)
    → j ≢ k
    → find (has_subject j) (or_same rows (record_failure false false now k rows))
      ≡ find (has_subject j) rows
unfolding record_failure record_auth_failure
find-record_other j k now rows ne =
    let n = scanned_count (find (has_subject k) rows) + 1 in
    let row = failure_row k now n in
    find-upsert_other (has_subject k) (has_subject j) (failure_update row) row rows
      (ground (arith, eq_iff k j))
      (λ x hit. ground (arith, eq_iff x.subject_or_email k, eq_iff x.subject_or_email j))

find-fail_at :
    (j k : String) (ts : List ℕ) (rows : List AuthFailure)
    → j ≢ k
    → find (has_subject j) (fail_at k ts rows) ≡ find (has_subject j) rows
unfolding fail_at
find-fail_at j k [] rows ne = refl
find-fail_at j k (t ∷ ts) rows ne =
    find-record_other j k t (fail_at k ts rows) ne ∙ find-fail_at j k ts rows ne

-- Failures of one subject neither lock nor unlock another one.
fail_at-other :
    (j k : String) (ts : List ℕ) (rows : List AuthFailure) (now : ℕ)
    → j ≢ k
    → check_locked false now j (fail_at k ts rows) ≡ check_locked false now j rows
unfolding check_locked get_auth_failures
fail_at-other j k ts rows now ne = rw (find-fail_at j k ts rows ne) refl

-- A success that is recorded, and a reset by the administrator, unlock the subject at once and
-- leave every other one as it was.
cleared-unlocked :
    (j k : String) (rows rows' : List AuthFailure) (now : ℕ)
    → (record_success false k rows ≡ rows') ⊎ (admin_reset false k rows ≡ some rows')
    → check_locked false now j rows' ≡ (not (j == k) && check_locked false now j rows)
unfolding check_locked record_success admin_reset clear_auth_failures get_auth_failures
cleared-unlocked j k rows rows' now e =
    let left : rows' ≡ delete (has_subject k) rows = ground arith in
    rw left (elim (Bool-cases (j == k)) [
      | inl same ↦ ground (arith, (eq_iff j k).0 same, find-delete (has_subject k) rows)
      | inr other ↦ ground (
        arith,
        find-delete_other (has_subject k) (has_subject j) rows (λ x hit.
            ground (arith, eq_iff j k, eq_iff x.subject_or_email k, eq_iff x.subject_or_email j)),
      )
    ])
