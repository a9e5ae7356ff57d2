-- ===== src/Oidc/Device.antt =====
-- oidc/device.go: the device authorization grant (RFC 8628).
pub mod Approval
use Prim.Native.String
use tpt_identity.Prelude.{
  ℕ, zero, suc, ◌+◌, ◌*◌, String, Bool, true, false, Option, none, some, not, ◌==◌, ◌||◌, ◌&&◌, ltb,
  if◌then◌else◌,
}
use tpt_identity.Store.Rows.{DeviceCode}
use tpt_identity.Store.Requests.{
  save_device_code, get_device_code, get_device_code_by_user_code, update_device_code,
  delete_device_code,
}
use tpt_identity.Store.RefreshTokens.{save_refresh_token}
use tpt_identity.Oidc.Handler.{
  World, Request, Env, Handler, Failure, refused, internal_error, invalid_request, invalid_client,
  invalid_grant, expired_token, access_denied, authorization_pending, ◌>>=◌, ◌>>◌, pure, fail,
  reject_if, read, need, write, try, with_device_codes, with_refresh_tokens,
}
use tpt_identity.Oidc.Jwt.{◌+++◌, second, issue_access_token}
use tpt_identity.Oidc.ClientAuth.{
  Provider, TokenResponse, token_response, authenticate, access_token_ttl,
}
use tpt_identity.Oidc.Grants.{new_refresh_token}

abbrev pub device_code_ttl : ℕ
device_code_ttl = 15 * 60 * second

abbrev pub device_poll_interval : ℕ
device_poll_interval = 5

-- The character at a position, as a text.
abbrev letter : String → ℕ → String
letter String.[] i = ""
letter (String.◌∷◌ c s) zero = String.◌∷◌ c String.[]
letter (String.◌∷◌ c s) (suc i) = letter s i

abbrev letters : String → (ℕ → ℕ) → ℕ → ℕ → String
letters chars picks zero i = ""
letters chars picks (suc n) i = letter chars (picks i) +++ letters chars picks n (i + 1)

unfoldable pub generate_user_code : (ℕ → ℕ) → String
generate_user_code picks =
    let chars : String = "ABCDEFGHJKLMNPQRSTUVWXYZ23456789" in
    letters chars picks 4 0 +++ "-" +++ letters chars picks 4 4

unfoldable pub device_authorization_handler : Provider → Env → Request → Handler DeviceCode
device_authorization_handler p env r = do
  let client_id = r.form "client_id"
  reject_if (client_id == "") (refused invalid_client)
  authenticate p (env.down 0) r client_id
  device ← need (env.draws 0) internal_error
  let dc =
      let row : DeviceCode = record {
        device_code = device;
        user_code = generate_user_code env.picks;
        client_id = client_id;
        scope = r.form "scope";
        subject_did = "";
        approved = false;
        denied = false;
        expires_at = env.now + device_code_ttl;
        interval_secs = device_poll_interval;
        created_at = env.now;
      } in
      row
  write λ w. with_device_codes w (save_device_code (env.down 1) dc w.device_codes)
  pure dc

-- The row that a user code names, unless it has expired.
unfoldable pub pending_device : Provider → Env → String → Handler DeviceCode
pending_device p env user_code = do
  dc ←
      read (λ w. get_device_code_by_user_code (env.down 0) user_code w.device_codes)
        (refused invalid_request)
  reject_if (ltb dc.expires_at env.now) (refused invalid_request)
  pure dc

-- The client and the scope that the page shows; `none` is the prompt for a code.
unfoldable pub device_verify_handler : Provider → Env → Request → Handler (Option (String × String))
unfolding pending_device
device_verify_handler p env r =
    let user_code = r.query "user_code" in
    if user_code == ""
    then pure none
    else (pending_device p env (p.codec.to_upper user_code) >>= λ dc.
        pure (some (dc.client_id, dc.scope)))

unfoldable pub device_approve_handler : Provider → Env → Request → Handler (Unit {0})
unfolding pending_device
device_approve_handler p env r = do
  let user_code = p.codec.to_upper (r.form "user_code")
  let subject = r.form "subject_did"
  reject_if (user_code == "" || subject == "") (refused invalid_request)
  dc ← pending_device p env user_code
  write λ w. with_device_codes w (
      update_device_code (env.down 1) (record dc { subject_did = subject; approved = true })
        w.device_codes)

-- `_ = p.store.DeleteDeviceCode(…)`, an error reply, and return.
abbrev drop_device : Env → String → Failure → Handler TokenResponse
drop_device env device f = do
  try λ w. with_device_codes w (delete_device_code (env.down 1) device w.device_codes)
  fail f

-- The part of handleDeviceGrant for an approved code.
unfoldable pub issue_for_device : Provider → Env → String → DeviceCode → Handler TokenResponse
issue_for_device p env device dc = do
  access_token ←
      need
        (issue_access_token p.codec p.issuer dc.subject_did dc.client_id access_token_ttl p.key_id
          env.now)
        internal_error
  raw ← need (env.draws 0) internal_error
  write λ w. with_refresh_tokens w (
      save_refresh_token (env.down 2)
        (new_refresh_token p raw dc.subject_did dc.client_id dc.scope env.now) w.refresh_tokens)
  try λ w. with_device_codes w (delete_device_code (env.down 3) device w.device_codes)
  pure (token_response access_token "" raw dc.scope access_token_ttl)

unfoldable pub handle_device_grant : Provider → Env → Request → Handler TokenResponse
unfolding issue_for_device
handle_device_grant p env r = do
  let device = r.form "device_code"
  let client_id = r.form "client_id"
  reject_if (device == "") (refused invalid_request)
  dc ← read (λ w. get_device_code (env.down 0) device w.device_codes) (refused invalid_grant)
  reject_if (not (client_id == "") && not (client_id == dc.client_id)) (refused invalid_client)
  if ltb dc.expires_at env.now
      then drop_device env device (refused expired_token)
      else if dc.denied
      then drop_device env device (refused access_denied)
      else if dc.approved
      then issue_for_device p env device dc
      else fail (refused authorization_pending)
