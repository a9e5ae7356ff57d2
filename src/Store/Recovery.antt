-- ===== src/Store/Recovery.antt =====
-- internal/store: recovery_configs, recovery_requests and recovery_shares. The database writes its
-- own clock in the columns of times, which is read here as the caller's.
use tpt_identity.Prelude.{ℕ, String, Bool, List, Option, none, some, ◌==◌, ◌&&◌, if◌then◌else◌}
use tpt_identity.Prelude.Table.{find, delete, update, upsert, insert}

pub record RecoveryConfig : Type 0 where
  pub subject_did : String
  pub threshold : ℕ
  pub guardian_dids : List String
  pub created_at : ℕ

pub record RecoveryRequest : Type 0 where
  pub id : String
  pub subject_did : String
  pub started_at : ℕ
  pub shares_collected : ℕ
  pub completed : Bool

pub record RecoveryShare : Type 0 where
  pub request_id : String
  pub guardian_did : String
  pub share_hash : List ℕ
  pub collected_at : ℕ

abbrev pub of_subject : String → RecoveryConfig → Bool
of_subject k c = c.subject_did == k

unfoldable pub save_recovery_config :
    Bool → RecoveryConfig → List RecoveryConfig → Option (List RecoveryConfig)
save_recovery_config down c rows =
    if down then none else some (upsert (of_subject c.subject_did) (λ _. c) c rows)

unfoldable pub get_recovery_config : Bool → String → List RecoveryConfig → Option RecoveryConfig
get_recovery_config down k rows = if down then none else find (of_subject k) rows

unfoldable pub delete_recovery_config :
    Bool → String → List RecoveryConfig → Option (List RecoveryConfig)
delete_recovery_config down k rows = if down then none else some (delete (of_subject k) rows)

abbrev pub is_request : String → RecoveryRequest → Bool
is_request k r = r.id == k

unfoldable pub save_recovery_request :
    Bool → RecoveryRequest → List RecoveryRequest → Option (List RecoveryRequest)
save_recovery_request down r rows = if down then none else insert (is_request r.id) r rows

unfoldable pub get_recovery_request : Bool → String → List RecoveryRequest → Option RecoveryRequest
get_recovery_request down k rows = if down then none else find (is_request k) rows

-- The columns that the UPDATE statement writes.
abbrev pub progress : RecoveryRequest → RecoveryRequest → RecoveryRequest
progress new old = record old { shares_collected = new.shares_collected; completed = new.completed }

unfoldable pub update_recovery_request :
    Bool → RecoveryRequest → List RecoveryRequest → Option (List RecoveryRequest)
update_recovery_request down r rows =
    if down then none else some (update (is_request r.id) (progress r) rows)

abbrev pub is_share_of : String → String → RecoveryShare → Bool
is_share_of request guardian s = s.request_id == request && s.guardian_did == guardian

-- ON CONFLICT DO NOTHING.
unfoldable pub save_recovery_share :
    Bool → RecoveryShare → List RecoveryShare → Option (List RecoveryShare)
save_recovery_share down s rows =
    if down
    then none
    else some (upsert (is_share_of s.request_id s.guardian_did) (λ old. old) s rows)
