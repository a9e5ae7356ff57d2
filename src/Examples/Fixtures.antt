-- ===== src/Examples/Fixtures.antt =====
-- A provider with a toy codec, a client, a session, and the requests that the examples make.
use tpt_identity.Prelude.{
  ℕ, ◌*◌, ◌≡◌, ◌≢◌, String, false, List, [], ◌∷◌, none, some, ◌==◌, arith, eq_iff, if◌then◌else◌,
}
use tpt_identity.Store.Rows.{Session, Client, RefreshToken, DeviceCode, CredentialOffer}
use tpt_identity.Oidc.Handler.{World, Request, Env}
use tpt_identity.Oidc.Jwt.{Codec, Claims, second}
use tpt_identity.Oidc.ClientAuth.{Provider}

pub differ : (a b : String) → (a == b) ≡ false → a ≢ b
differ a b h e = ground (arith, eq_iff a b)

abbrev pub claims : Claims
claims = record {
  issuer = "https://id";
  subject = "did:alice";
  audience = "app";
  issued_at = 0;
  expires_at = 3600;
  nonce = "";
  did = "did:alice";
  amr = [];
  acr = "pwd";
  token_type = "access";
  scope = "openid email";
}

-- One payload, one signature, and a hash that changes nothing.
abbrev pub codec : Codec
codec = record {
  header = λ _. "head";
  marshal = λ _. some "body";
  unmarshal = λ _. some claims;
  marshal_params = λ _. "";
  unmarshal_params = λ _. some [];
  sign = λ _. "sig";
  verify = λ _ s. some (s == "sig");
  sha256_hex = λ s. s;
  sha256_b64 = λ s. s;
  to_upper = λ s. s;
}

abbrev pub provider : Provider
provider = record { issuer = "https://id"; key_id = "k1"; codec = codec }

abbrev pub token : String
token = "head.body.sig"

abbrev pub lookup : List (String × String) → String → String
lookup [] key = ""
lookup ((k, v) ∷ pairs) key = if k == key then v else lookup pairs key

-- The same values as form, query and headers.
abbrev pub asking : List (String × String) → Request
asking pairs = record {
  form = lookup pairs;
  query = lookup pairs;
  form_pairs = pairs;
  header = lookup pairs;
  basic = none;
  user_agent = "agent";
  remote_ip = "::1";
}

abbrev pub at_time : ℕ → Env
at_time now = record { now = now; draws = λ _. some "raw"; picks = λ _. 0; down = λ _. false }

abbrev pub app : Client
app = record {
  client_id = "app";
  client_secret_hash = "secret";
  client_name = "App";
  redirect_uris = "https://app/cb" ∷ [];
  token_endpoint_auth_method = "client_secret_post";
  grant_types = [];
  response_types = [];
  scope = "openid";
  tenant_id = "";
  backchannel_logout_uri = "";
  post_logout_redirect_uris = [];
  created_at = 0;
}

abbrev pub session : Session
session = record {
  id = "sess_1";
  subject_did = "did:alice";
  client_id = "app";
  redirect_uri = "https://app/cb";
  scope = "openid";
  nonce = "";
  state = "s";
  code = "code";
  code_challenge = "verifier";
  code_challenge_method = "S256";
  access_token = "";
  refresh_token_hash = "";
  user_agent = "agent";
  ip_address = "::1";
  last_used_at = none;
  created_at = 0;
  expires_at = 300 * second;
}

abbrev pub old_token : RefreshToken
old_token = record {
  hash = "old";
  subject_did = "did:alice";
  client_id = "app";
  scope = "openid";
  issued_at = 0;
  expires_at = 600 * second;
  used_at = none;
}

abbrev pub device : DeviceCode
device = record {
  device_code = "device";
  user_code = "USER-CODE";
  client_id = "app";
  scope = "openid";
  subject_did = "";
  approved = false;
  denied = false;
  expires_at = 900 * second;
  interval_secs = 5;
  created_at = 0;
}

abbrev pub offer : CredentialOffer
offer = record {
  id = "offer";
  client_id = "";
  schema_ids = "identity.legal-name" ∷ [];
  issuer_did = "https://id";
  subject_did = "did:alice";
  expires_at = 600 * second;
  used = false;
  created_at = 0;
}

abbrev pub world : World
world = record {
  sessions = session ∷ [];
  clients = app ∷ [];
  refresh_tokens = old_token ∷ [];
  par_requests = [];
  device_codes = device ∷ [];
  credential_offers = offer ∷ [];
  revoked = [];
}
