-- ===== src/Store/Rows.antt =====
-- internal/store/store.go: the structs that the OIDC tables hold. Times are nanoseconds.
use tpt_identity.Prelude.{ℕ, String, Bool, List, Option}

pub record Session : Type 0 where
  pub id : String
  pub subject_did : String
  pub client_id : String
  pub redirect_uri : String
  pub scope : String
  pub nonce : String
  pub state : String
  pub code : String
  pub code_challenge : String
  pub code_challenge_method : String
  pub access_token : String
  pub refresh_token_hash : String
  pub user_agent : String
  pub ip_address : String
  pub last_used_at : Option ℕ
  pub created_at : ℕ
  pub expires_at : ℕ

pub record Client : Type 0 where
  pub client_id : String
  pub client_secret_hash : String
  pub client_name : String
  pub redirect_uris : List String
  pub token_endpoint_auth_method : String
  pub grant_types : List String
  pub response_types : List String
  pub scope : String
  pub tenant_id : String
  pub backchannel_logout_uri : String
  pub post_logout_redirect_uris : List String
  pub created_at : ℕ

pub record RefreshToken : Type 0 where
  pub hash : String
  pub subject_did : String
  pub client_id : String
  pub scope : String
  pub issued_at : ℕ
  pub expires_at : ℕ
  pub used_at : Option ℕ

pub record ParRequest : Type 0 where
  pub request_uri : String
  pub client_id : String
  pub params : String
  pub expires_at : ℕ
  pub created_at : ℕ

pub record DeviceCode : Type 0 where
  pub device_code : String
  pub user_code : String
  pub client_id : String
  pub scope : String
  pub subject_did : String
  pub approved : Bool
  pub denied : Bool
  pub expires_at : ℕ
  pub interval_secs : ℕ
  pub created_at : ℕ

pub record CredentialOffer : Type 0 where
  pub id : String
  pub client_id : String
  pub schema_ids : List String
  pub issuer_did : String
  pub subject_did : String
  pub expires_at : ℕ
  pub used : Bool
  pub created_at : ℕ

pub record AuthFailure : Type 0 where
  pub subject_or_email : String
  pub count : ℕ
  pub last_failure_at : ℕ
  pub locked_until : Option ℕ
