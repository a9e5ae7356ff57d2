-- ===== src/Oidc/ClientAuth.antt =====
-- oidc/provider.go: the provider, the checks that its grants share, and the token reply.
pub mod Proven
use tpt_identity.Prelude.{
  ℕ, ◌*◌, ◌/◌, String, Bool, true, false, List, [], ◌∷◌, Option, none, some, not, ◌==◌, ◌||◌, ◌&&◌,
  if◌then◌else◌,
}
use tpt_identity.Store.Rows.{Client}
use tpt_identity.Store.Clients.{get_client}
use tpt_identity.Oidc.Handler.{Request, Handler, refused, invalid_client, reject_if}
use tpt_identity.Oidc.Jwt.{Codec, second}

pub record Provider : Type 0 where
  pub issuer : String
  pub key_id : String
  pub codec : Codec

abbrev pub code_ttl : ℕ
code_ttl = 5 * 60 * second

abbrev pub id_token_ttl : ℕ
id_token_ttl = 3600 * second

abbrev pub access_token_ttl : ℕ
access_token_ttl = 3600 * second

abbrev pub refresh_token_ttl : ℕ
refresh_token_ttl = 30 * 24 * 3600 * second

abbrev secret_of : Option (String × String) → String → String → String
secret_of none id posted = posted
secret_of (some (user, pass)) id posted = if user == id then pass else posted

-- The secret of the Authorization header if that names the client, else that of the form.
unfoldable pub provided_secret : Request → String → String
provided_secret r id = secret_of r.basic id (r.form "client_secret")

-- hashToken, hashSecret and hashTokenValue are one function, the hexadecimal SHA-256.
abbrev pub hash_token : Provider → String → String
hash_token p raw = p.codec.sha256_hex raw

unfoldable pub accepts_secret : Provider → Client → String → Bool
accepts_secret p c secret =
    if c.token_endpoint_auth_method == "none"
    then true
    else if secret == ""
    then false
    else hash_token p secret == c.client_secret_hash

-- Whether validateClientAuth returns nil.
unfoldable pub validate_client_auth : Provider → Bool → Request → String → List Client → Bool
unfolding provided_secret accepts_secret
validate_client_auth p down r id clients = elim (get_client down id clients) [
  | none ↦ false
  | some c ↦ accepts_secret p c (provided_secret r id)
]

-- `if err := p.validateClientAuth(…); err != nil { writeError(w, "invalid_client", …); return }`
abbrev pub authenticate : Provider → Bool → Request → String → Handler (Unit {0})
authenticate p down r id w =
    reject_if (not (validate_client_auth p down r id w.clients)) (refused invalid_client) w

-- The same under `if clientID != "" { … }`.
abbrev pub authenticate_named : Provider → Bool → Request → String → Handler (Unit {0})
authenticate_named p down r id w =
    reject_if (not (id == "") && not (validate_client_auth p down r id w.clients))
      (refused invalid_client) w

-- Whether verifyPKCE returns nil.
unfoldable pub verify_pkce : Provider → String → String → Bool
verify_pkce p challenge verifier = p.codec.sha256_b64 verifier == challenge

unfoldable pub contains_uri : List String → String → Bool
contains_uri [] uri = false
contains_uri (u ∷ list) uri = u == uri || contains_uri list uri

pub record TokenResponse : Type 0 where
  pub access_token : String
  pub id_token : String
  pub refresh_token : String
  pub scope : String
  pub expires_in : ℕ

-- `refresh_token` and `id_token` are "" where the reply has no such member.
abbrev pub token_response : String → String → String → String → ℕ → TokenResponse
token_response access id refresh scope ttl = record {
  access_token = access;
  id_token = id;
  refresh_token = refresh;
  scope = scope;
  expires_in = ttl / second;
}
