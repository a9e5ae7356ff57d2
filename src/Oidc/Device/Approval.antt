-- ===== src/Oidc/Device/Approval.antt =====
-- The life of a device code: oidc/device.go.
use tpt_identity.Prelude.{◌≤◌, ◌≡◌, ◌≢◌, ◌⊎◌, true, false, some, none, arith, eq_iff, if◌then◌else◌}
use tpt_identity.Prelude.Table.{delete, find-update}
use tpt_identity.Store.Rows.{DeviceCode}
use tpt_identity.Store.Requests.{
  has_device_code, device_update, get_device_code, get_device_code_by_user_code, update_device_code,
}
use tpt_identity.Oidc.Handler.{
  World, Request, Env, ok, err, refused, invalid_grant, authorization_pending,
}
use tpt_identity.Oidc.Jwt.{issue_access_token}
use tpt_identity.Oidc.ClientAuth.{Provider, TokenResponse, access_token_ttl}
use tpt_identity.Oidc.Device.{handle_device_grant, device_approve_handler}

pub record Granted (p : Provider) (env : Env) (r : Request) (w w' : World) (t : TokenResponse)
    : Type 0 where
  pub device : DeviceCode
  pub found : get_device_code (env.down 0) (r.form "device_code") w.device_codes ≡ some device
  pub in_time : env.now ≤ device.expires_at
  pub approved : device.approved ≡ true
  pub not_denied : device.denied ≡ false
  pub right_client : (r.form "client_id" ≡ "") ⊎ (r.form "client_id" ≡ device.client_id)
  pub access :
      issue_access_token p.codec p.issuer device.subject_did device.client_id access_token_ttl
        p.key_id env.now
      ≡ some t.access_token
  pub scope : t.scope ≡ device.scope
  pub consumed : w'.device_codes ≡ (
      if env.down 3
      then w.device_codes
      else delete (has_device_code (r.form "device_code")) w.device_codes)

unknown_device :
    (p : Provider) (env : Env) (r : Request) (w : World)
    → r.form "device_code" ≢ ""
    → get_device_code (env.down 0) (r.form "device_code") w.device_codes ≡ none
    → handle_device_grant p env r w ≡ (err (refused invalid_grant), w)
unfolding handle_device_grant
unknown_device p env r w given missing = ground (arith, eq_iff (r.form "device_code") "")

-- Before the approval and before the expiry, polling answers that the authorization is pending and
-- changes nothing, however often it is done.
pub poll_pending :
    (p : Provider) (env : Env) (r : Request) (w : World) (d : DeviceCode)
    → r.form "device_code" ≢ ""
    → (r.form "client_id" ≡ "") ⊎ (r.form "client_id" ≡ d.client_id)
    → get_device_code (env.down 0) (r.form "device_code") w.device_codes ≡ some d
    → env.now ≤ d.expires_at
    → d.approved ≡ false
    → d.denied ≡ false
    → handle_device_grant p env r w ≡ (err (refused authorization_pending), w)
unfolding handle_device_grant
poll_pending p env r w d given client found in_time waiting open_still = ground (
  arith,
  eq_iff (r.form "device_code") "",
  eq_iff (r.form "client_id") "",
  eq_iff (r.form "client_id") d.client_id,
)

-- An approval marks the row that the user code names, and with it the row that the device polls:
-- that row is then approved for the subject who was given, and keeps its client, scope and expiry.
pub approve-device :
    (p : Provider) (env : Env) (r : Request) (w w' : World) (d : DeviceCode)
    → get_device_code_by_user_code false (p.codec.to_upper (r.form "user_code")) w.device_codes
      ≡ some d
    → get_device_code false d.device_code w.device_codes ≡ some d
    → device_approve_handler p env r w ≡ (ok tt, w')
    → get_device_code false d.device_code w'.device_codes
      ≡ some (record d { subject_did = r.form "subject_did"; approved = true })
unfolding device_approve_handler update_device_code get_device_code get_device_code_by_user_code
approve-device p env r w w' d by_user by_device e =
    let new : DeviceCode = record d { subject_did = r.form "subject_did"; approved = true } in
    ground (
      arith,
      find-update (has_device_code d.device_code) (device_update new) w.device_codes
          (λ x here. here),
    )
