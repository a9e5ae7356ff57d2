-- ===== src/Examples/Sessions.antt =====
-- Authorization, devices, offers, registration and logout, run on the fixtures.
use tpt_identity.Prelude.{◌≡◌, refl, String, [], ◌∷◌, some}
use tpt_identity.Prelude.Table.{find}
use tpt_identity.Store.Rows.{Client}
use tpt_identity.Store.Sessions.{save_session}
use tpt_identity.Store.Clients.{get_client, save_client}
use tpt_identity.Store.Requests.{
  get_device_code_by_user_code, update_device_code, get_credential_offer,
  mark_credential_offer_used,
}
use tpt_identity.Oidc.Handler.{World, Request, ok}
use tpt_identity.Oidc.Jwt.{sign_jwt, issue_jwt_with_extra}
use tpt_identity.Oidc.ClientAuth.{TokenResponse, token_response, contains_uri, access_token_ttl}
use tpt_identity.Oidc.Authorize.{
  overlay, resolve_par_request, authorize_params, authorize_with, authorize_handler,
}
use tpt_identity.Oidc.Grants.{handle_auth_code_exchange}
use tpt_identity.Store.Requests.{get_par_request, delete_par_request}
use tpt_identity.Store.Rows.{ParRequest}
use tpt_identity.Oidc.Authorize.Checks.{Admitted, authorize_with-Admitted}
use tpt_identity.Oidc.Device.{handle_device_grant, device_approve_handler, pending_device}
use tpt_identity.Oidc.Offers.{handle_pre_authorized_code}
use tpt_identity.Oidc.Registration.{RegisterClientRequest, register_client_handler}
use tpt_identity.Examples.Fixtures.{provider, token, asking, at_time, world}

abbrev authorizing : Request
authorizing = asking (
    ("client_id", "app")
    ∷ ("redirect_uri", "https://app/cb")
    ∷ ("state", "xyz")
    ∷ ("code_challenge", "challenge")
    ∷ ("code_challenge_method", "S256")
    ∷ ("X-Subject-DID", "did:alice")
    ∷ [])

abbrev authorized : World
authorized = (authorize_with (at_time 1) authorizing authorizing.query world).1

abbrev target : String
target = "https://app/cb?code=raw&state=xyz"

authorized_run :
    authorize_with (at_time 1) authorizing authorizing.query world ≡ (ok target, authorized)
unfolding authorize_with get_client find contains_uri save_session
authorized_run = refl

authorize_with-Admitted_example :
    Admitted (at_time 1) authorizing authorizing.query world authorized target
authorize_with-Admitted_example =
    authorize_with-Admitted (at_time 1) authorizing authorizing.query world authorized target
      authorized_run

abbrev with_verifier : Request
with_verifier = asking (
    ("code", "raw")
    ∷ ("client_id", "app")
    ∷ ("client_secret", "secret")
    ∷ ("code_verifier", "challenge")
    ∷ [])

abbrev flow_tokens : TokenResponse
flow_tokens = token_response token token "raw" (authorizing.query "scope") access_token_ttl

abbrev exchanged_world : World
exchanged_world = (handle_auth_code_exchange provider (at_time 2) with_verifier authorized).1

abbrev pushed_request : Request
pushed_request = asking (
    ("request_uri", "urn:1")
    ∷ ("client_id", "app")
    ∷ ("redirect_uri", "https://app/cb")
    ∷ ("state", "xyz")
    ∷ ("code_challenge", "challenge")
    ∷ ("code_challenge_method", "S256")
    ∷ ("X-Subject-DID", "did:alice")
    ∷ [])

abbrev pushed : World
pushed =
    let row : ParRequest = record {
      request_uri = "urn:1";
      client_id = "app";
      params = "{}";
      expires_at = 90;
      created_at = 0;
    } in
    record world { par_requests = row ∷ [] }

abbrev admitted : World
admitted = (authorize_handler provider (at_time 1) pushed_request pushed).1

admitted_run : authorize_handler provider (at_time 1) pushed_request pushed ≡ (ok target, admitted)
unfolding authorize_handler authorize_params resolve_par_request get_par_request delete_par_request
    overlay authorize_with get_client find contains_uri save_session
admitted_run = refl

abbrev polling : Request
polling = asking (("device_code", "device") ∷ ("client_id", "app") ∷ [])

abbrev approving : Request
approving = asking (("user_code", "USER-CODE") ∷ ("subject_did", "did:alice") ∷ [])

abbrev approved : World
approved = (device_approve_handler provider (at_time 1) approving world).1

approved_run : device_approve_handler provider (at_time 1) approving world ≡ (ok tt, approved)
unfolding device_approve_handler pending_device get_device_code_by_user_code find update_device_code
approved_run = refl

abbrev device_tokens : TokenResponse
device_tokens = token_response token "" "raw" "openid" access_token_ttl

abbrev polled : World
polled = (handle_device_grant provider (at_time 2) polling approved).1

abbrev taking : Request
taking = asking (("pre-authorized_code", "offer") ∷ [])

abbrev taken : World
taken = (handle_pre_authorized_code provider (at_time 1) taking world).1

taken_run : handle_pre_authorized_code provider (at_time 1) taking world ≡ (ok token, taken)
unfolding handle_pre_authorized_code get_credential_offer find mark_credential_offer_used
    issue_jwt_with_extra sign_jwt
taken_run = refl

abbrev registering : RegisterClientRequest
registering = record {
  client_name = "New";
  redirect_uris = "https://new/cb" ∷ [];
  token_endpoint_auth_method = "";
  grant_types = [];
  response_types = [];
  scope = "openid";
  backchannel_logout_uri = "";
}

abbrev registered_client : Client
registered_client = record {
  client_id = "raw";
  client_secret_hash = "raw";
  client_name = "New";
  redirect_uris = "https://new/cb" ∷ [];
  token_endpoint_auth_method = "client_secret_basic";
  grant_types = "authorization_code" ∷ "refresh_token" ∷ [];
  response_types = "code" ∷ [];
  scope = "openid";
  tenant_id = "";
  backchannel_logout_uri = "";
  post_logout_redirect_uris = [];
  created_at = 1;
}

abbrev registered : World
registered = (register_client_handler provider (at_time 1) (some registering) world).1

registered_run :
    register_client_handler provider (at_time 1) (some registering) world
    ≡ (ok (registered_client, "raw"), registered)
unfolding register_client_handler save_client
registered_run = refl

abbrev with_secret : Request
with_secret = asking (("client_secret", "raw") ∷ [])

abbrev logging_out : Request
logging_out = asking (("id_token_hint", token) ∷ [])
