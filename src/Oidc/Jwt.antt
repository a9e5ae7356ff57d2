-- ===== src/Oidc/Jwt.antt =====
-- oidc/jwt.go: compact tokens, header "." payload "." signature.
-- JSON, base64url and Ed25519 are Go's and stand as the functions of a `Codec`.
pub mod Laws
use Prim.Native.Char.{Char, code}
use Prim.Native.String
use tpt_identity.Prelude.{
  ℕ, ◌+◌, ◌/◌, String, Bool, true, false, List, [], Option, none, some, ltb, nat_beq, if◌then◌else◌,
}

infixr 66 ◌+++◌
abbrev pub ◌+++◌ : String → String → String
a +++ b = String.◌++◌ a b

pub record Claims : Type 0 where
  pub issuer : String
  pub subject : String
  pub audience : String
  pub issued_at : ℕ
  pub expires_at : ℕ
  pub nonce : String
  pub did : String
  pub amr : List String
  pub acr : String
  pub token_type : String
  pub scope : String

-- A signed payload: the claims, and the members of an `extra` map that `Claims` does not have.
pub record Payload : Type 0 where
  pub claims : Claims
  pub act : Option String
  pub offer_id : String
  pub schema_ids : List String

abbrev pub plain : Claims → Payload
plain c = record { claims = c; act = none; offer_id = ""; schema_ids = [] }

pub record Codec : Type 0 where
  -- base64url of the JSON header for a key ID.
  pub header : String → String
  -- base64url of json.Marshal; `none` is its error.
  pub marshal : Payload → Option String
  -- json.Unmarshal of the decoded base64url.
  pub unmarshal : String → Option Claims
  -- json.Marshal and json.Unmarshal of a map of texts.
  pub marshal_params : List (String × String) → String
  pub unmarshal_params : String → Option (List (String × String))
  -- base64url of ed25519.Sign by the provider's key.
  pub sign : String → String
  -- ed25519.Verify of a message against a base64url signature, by the provider's key.
  pub verify : String → String → Option Bool
  -- hex of SHA-256, and base64url of SHA-256.
  pub sha256_hex : String → String
  pub sha256_b64 : String → String
  -- strings.ToUpper.
  pub to_upper : String → String

abbrev pub second : ℕ
second = 1000000000

-- time.Unix of a time in nanoseconds.
abbrev pub unix : ℕ → ℕ
unix t = t / second

abbrev push_head : Char → Option (String × String) → Option (String × String)
push_head c none = none
push_head c (some (a, b)) = some (String.◌∷◌ c a, b)

-- The text before the first dot, and the text behind it.
unfoldable pub cut_dot : String → Option (String × String)
cut_dot String.[] = none
cut_dot (String.◌∷◌ c s) = if nat_beq (code c) b'.' then some ("", s) else push_head c (cut_dot s)

abbrev cut_second : Option (String × String) → Option (String × String × String)
cut_second none = none
cut_second (some (a, rest)) = elim (cut_dot rest) [ none ↦ none | some bc ↦ some (a, bc.0, bc.1) ]

-- strings.SplitN(token, ".", 3), refused unless it gives three parts.
unfoldable pub split3 : String → Option (String × String × String)
unfolding cut_dot
split3 token = cut_second (cut_dot token)

-- The base64url-encoded signing input, and the token.
unfoldable pub sign_jwt : Codec → String → Payload → Option String
sign_jwt c key_id p = elim (c.marshal p) [
  | none ↦ none
  | some payload ↦
      let input = c.header key_id +++ "." +++ payload in some (input +++ "." +++ c.sign input)
]

unfoldable pub parse_unverified : Codec → String → Option Claims
parse_unverified c token = elim (split3 token) [
  | none ↦ none
  | some (_, payload, _) ↦ c.unmarshal payload
]

abbrev unless_expired : ℕ → Option Claims → Option Claims
unless_expired now none = none
unless_expired now (some claims) = if ltb claims.expires_at (unix now) then none else some claims

abbrev if_signed : Option Bool → Option Claims → Option Claims
if_signed (some true) claims = claims
if_signed (some false) claims = none
if_signed none claims = none

-- A bad signature text, a bad signature, a bad payload and an expired token all give an error.
unfoldable pub verify : Codec → ℕ → String → Option Claims
verify c now token = elim (split3 token) [
  | none ↦ none
  | some (header, payload, sig) ↦
      if_signed (c.verify (header +++ "." +++ payload) sig)
        (unless_expired now (parse_unverified c token))
]

abbrev pub access_claims : String → String → String → ℕ → ℕ → Claims
access_claims issuer subject audience ttl now = record {
  issuer = issuer;
  subject = subject;
  audience = audience;
  issued_at = unix now;
  expires_at = unix (now + ttl);
  nonce = "";
  did = subject;
  amr = [];
  acr = "";
  token_type = "access";
  scope = "";
}

unfoldable pub issue_id_token :
    Codec → String → String → String → String → ℕ → List String → String → ℕ → Option String
issue_id_token c issuer subject audience nonce ttl amr key_id now =
    let base = access_claims issuer subject audience ttl now in
    sign_jwt c key_id (plain (record base { nonce = nonce; amr = amr; token_type = "id" }))

unfoldable pub issue_access_token :
    Codec → String → String → String → ℕ → String → ℕ → Option String
issue_access_token c issuer subject audience ttl key_id now =
    sign_jwt c key_id (plain (access_claims issuer subject audience ttl now))

-- The base claims with an `extra` map laid over them: `extra` makes the payload of the claims.
unfoldable pub issue_jwt_with_extra :
    Codec → String → String → String → ℕ → String → (Claims → Payload) → ℕ → Option String
issue_jwt_with_extra c issuer subject client_id ttl key_id extra now =
    sign_jwt c key_id (extra (access_claims issuer subject client_id ttl now))
