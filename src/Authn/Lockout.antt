-- ===== src/Authn/Lockout.antt =====
-- internal/authn/lockout.go over the counter of internal/store/sqlite.go.
pub mod Counting
use tpt_identity.Prelude.{ℕ, String, Bool, true, false, List, Option, none, some, ltb}
use tpt_identity.Store.Rows.{AuthFailure}
use tpt_identity.Store.Failures.{record_auth_failure, get_auth_failures, clear_auth_failures}

abbrev locked_at : ℕ → Option (ℕ × Option ℕ) → Bool
locked_at now none = false
locked_at now (some (_, none)) = false
locked_at now (some (_, some until)) = ltb now until

-- Whether CheckLocked returns an error: not when the read fails.
unfoldable pub check_locked : Bool → ℕ → String → List AuthFailure → Bool
check_locked down now k rows = locked_at now (get_auth_failures down k rows)

unfoldable pub record_failure :
    Bool → Bool → ℕ → String → List AuthFailure → Option (List AuthFailure)
record_failure unread down now k rows = record_auth_failure unread down now k rows

-- The deletion's error is dropped.
unfoldable pub record_success : Bool → String → List AuthFailure → List AuthFailure
record_success down k rows = elim (clear_auth_failures down k rows) [
  | none ↦ rows
  | some rest ↦ rest
]

unfoldable pub admin_reset : Bool → String → List AuthFailure → Option (List AuthFailure)
admin_reset down k rows = clear_auth_failures down k rows
