-- ===== src/Store/Requests.antt =====
-- internal/store/sqlite.go: the statements on par_requests, device_codes and credential_offers.
use tpt_identity.Prelude.{String, Bool, true, List, Option, none, some, ◌==◌, if◌then◌else◌}
use tpt_identity.Prelude.Table.{find, delete, update, upsert, insert}
use tpt_identity.Store.Rows.{ParRequest, DeviceCode, CredentialOffer}

abbrev pub has_request_uri : String → ParRequest → Bool
has_request_uri k r = r.request_uri == k

unfoldable pub save_par_request : Bool → ParRequest → List ParRequest → Option (List ParRequest)
save_par_request down r rows = if down then none else insert (has_request_uri r.request_uri) r rows

unfoldable pub get_par_request : Bool → String → List ParRequest → Option ParRequest
get_par_request down k rows = if down then none else find (has_request_uri k) rows

unfoldable pub delete_par_request : Bool → String → List ParRequest → Option (List ParRequest)
delete_par_request down k rows = if down then none else some (delete (has_request_uri k) rows)

abbrev pub has_device_code : String → DeviceCode → Bool
has_device_code k d = d.device_code == k

abbrev pub has_user_code : String → DeviceCode → Bool
has_user_code k d = d.user_code == k

-- The columns that ON CONFLICT(device_code) and the UPDATE statement write.
abbrev pub device_update : DeviceCode → DeviceCode → DeviceCode
device_update new old = record old {
  subject_did = new.subject_did;
  approved = new.approved;
  denied = new.denied;
}

-- `user_code` is UNIQUE, and no ON CONFLICT clause covers it.
unfoldable pub save_device_code : Bool → DeviceCode → List DeviceCode → Option (List DeviceCode)
save_device_code down d rows = if down then none else elim (find (has_user_code d.user_code) rows) [
  | none ↦ some (upsert (has_device_code d.device_code) (device_update d) d rows)
  | some _ ↦ none
]

unfoldable pub get_device_code : Bool → String → List DeviceCode → Option DeviceCode
get_device_code down k rows = if down then none else find (has_device_code k) rows

unfoldable pub get_device_code_by_user_code : Bool → String → List DeviceCode → Option DeviceCode
get_device_code_by_user_code down k rows = if down then none else find (has_user_code k) rows

unfoldable pub update_device_code : Bool → DeviceCode → List DeviceCode → Option (List DeviceCode)
update_device_code down d rows =
    if down then none else some (update (has_device_code d.device_code) (device_update d) rows)

unfoldable pub delete_device_code : Bool → String → List DeviceCode → Option (List DeviceCode)
delete_device_code down k rows = if down then none else some (delete (has_device_code k) rows)

abbrev pub has_offer_id : String → CredentialOffer → Bool
has_offer_id k o = o.id == k

unfoldable pub save_credential_offer :
    Bool → CredentialOffer → List CredentialOffer → Option (List CredentialOffer)
save_credential_offer down o rows = if down then none else insert (has_offer_id o.id) o rows

unfoldable pub get_credential_offer : Bool → String → List CredentialOffer → Option CredentialOffer
get_credential_offer down k rows = if down then none else find (has_offer_id k) rows

unfoldable pub mark_credential_offer_used :
    Bool → String → List CredentialOffer → Option (List CredentialOffer)
mark_credential_offer_used down k rows =
    if down then none else some (update (has_offer_id k) (λ o. record o { used = true }) rows)
