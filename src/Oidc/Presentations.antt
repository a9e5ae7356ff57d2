-- ===== src/Oidc/Presentations.antt =====
-- oidc/oid4vp.go: a verifier's presentation requests and the wallets' answers, kept in two maps.
-- A map is the list of its rows, each key once. Every handler is one critical section, so a server is a sequence of calls (`Call`).
pub mod Kept
pub mod Answered
use tpt_identity.Prelude.{
  ℕ, zero, suc, ℤ, pos, negsuc, ◌+◌, ◌-◌, ◌*◌, ◌%◌, ◌^◌, String, Bool, false, List, [], ◌∷◌, Option,
  none, some, ◌==◌, ltb, leb, nat_beq, ◌||◌, if◌then◌else◌,
}
use tpt_identity.Prelude.Table.{find, upsert, delete}
use tpt_identity.Oidc.Jwt.{◌+++◌, Codec, Claims, second, access_claims}
use tpt_identity.Vc.Json.{Json}

pub record VpRequest : Type 0 where
  pub id : String
  pub client_id : String
  pub response_type : String
  pub response_mode : String
  pub response_uri : String
  pub nonce : String
  pub presentation_definition : Json
  pub expires_at : ℕ
  pub created_at : ℕ

pub record VpResponse : Type 0 where
  pub request_id : String
  pub vp_token : String
  pub received_at : ℕ

pub record VpStore : Type 0 where
  pub requests : List VpRequest
  pub responses : List VpResponse

abbrev pub has_id : String → VpRequest → Bool
has_id id r = r.id == id

abbrev pub answers : String → VpResponse → Bool
answers id x = x.request_id == id

unfoldable pub is_past : ℕ → List VpRequest → String → Bool
is_past now requests id = elim (find (has_id id) requests) [
  | none ↦ false
  | some r ↦ ltb r.expires_at now
]

-- The loop deletes each key whose request is past from both maps.
unfoldable pub evict : ℕ → VpStore → VpStore
unfolding is_past
evict now s = record {
  requests = delete (λ r. is_past now s.requests r.id) s.requests;
  responses = delete (λ x. is_past now s.requests x.request_id) s.responses;
}

-- The decoded body; a definition that is absent or null is `none`.
pub record RequestBody : Type 0 where
  pub client_id : String
  pub presentation_definition : Option Json
  pub expires_in : ℤ
  pub response_mode : String

-- The request object that the wallet is given, its state being the request's ID.
pub record RequestObject : Type 0 where
  pub response_type : String
  pub response_mode : String
  pub response_uri : String
  pub client_id : String
  pub nonce : String
  pub presentation_definition : Json
  pub state : String

pub data VpReply : Type 0 where
  invalid_request : VpReply
  created : String → String → String → String → ℕ → VpReply
  not_found gone internal_error : VpReply
  request_object : String → VpReply
  redirect : String → VpReply
  pending : VpReply
  complete : String → ℕ → VpReply

-- `time.Duration(req.ExpiresIn) * time.Second` as its 64 bits.
abbrev pub duration_bits : ℤ → ℕ
duration_bits (pos n) = (n * second) % 2 ^ 64
duration_bits (negsuc n) = (2 ^ 64 - (suc n * second) % 2 ^ 64) % 2 ^ 64

-- Bits that stand for no positive number are replaced by five minutes.
abbrev pub ttl_of : ℤ → ℕ
ttl_of n =
    let bits = duration_bits n in if nat_beq bits 0 || leb (2 ^ 63) bits then 300 * second else bits

-- What randomHex gives, its error ignored.
abbrev pub or_empty : Option String → String
or_empty none = ""
or_empty (some s) = s

abbrev pub new_request : String → RequestBody → Json → Option String → Option String → ℕ → VpRequest
new_request issuer body definition id salt now = record {
  id = or_empty id;
  client_id = body.client_id;
  response_type = "vp_token";
  response_mode = if body.response_mode == "" then "direct_post" else body.response_mode;
  response_uri = issuer +++ "/oid4vp/responses";
  nonce = or_empty salt;
  presentation_definition = definition;
  expires_at = now + ttl_of body.expires_in;
  created_at = now;
}

abbrev pub save_request : VpRequest → VpStore → VpStore
save_request r s = record s { requests = upsert (has_id r.id) (λ _. r) r s.requests }

abbrev pub created_reply : String → VpRequest → VpReply
created_reply issuer r =
    let request_uri = issuer +++ "/oid4vp/requests/" +++ r.id in
    created r.id request_uri
      ("openid4vp://?request_uri=" +++ request_uri +++ "&client_id=" +++ r.client_id) r.nonce
      r.expires_at

unfoldable pub create_request :
    String → Option RequestBody → Option String → Option String → ℕ → VpStore → VpReply × VpStore
create_request issuer none id salt now s = (invalid_request, s)
create_request issuer (some body) id salt now s = elim body.presentation_definition [
  | none ↦ (invalid_request, s)
  | some definition ↦
      let r = new_request issuer body definition id salt now in
      (created_reply issuer r, save_request r s)
]

abbrev pub object_of : VpRequest → RequestObject
object_of r = record {
  response_type = r.response_type;
  response_mode = r.response_mode;
  response_uri = r.response_uri;
  client_id = r.client_id;
  nonce = r.nonce;
  presentation_definition = r.presentation_definition;
  state = r.id;
}

-- issueJWTWithExtra for the object: `marshal` is base64url of the JSON of the claims with the object laid over them.
unfoldable pub sign_object :
    Codec
    → (Claims → RequestObject → Option String)
    → String
    → String
    → VpRequest
    → ℕ
    → Option String
sign_object c marshal issuer key_id r now =
    elim (marshal (access_claims issuer r.client_id issuer (r.expires_at - now) now)
      (object_of r)) [
        | none ↦ none
        | some payload ↦
            let input = c.header key_id +++ "." +++ payload in some (input +++ "." +++ c.sign input)
      ]

abbrev pub object_reply : Option String → VpReply
object_reply none = internal_error
object_reply (some jwt) = request_object jwt

unfoldable pub get_request : (VpRequest → ℕ → Option String) → String → ℕ → VpStore → VpReply
get_request sign id now s = elim (find (has_id id) s.requests) [
  | none ↦ not_found
  | some r ↦ if ltb r.expires_at now then gone else object_reply (sign r now)
]

abbrev pub save_response : VpResponse → VpStore → VpStore
save_response x s = record s { responses = upsert (answers x.request_id) (λ _. x) x s.responses }

unfoldable pub post_response : String → String → String → ℕ → VpStore → VpReply × VpStore
post_response issuer vp_token state now s = if vp_token == "" then (invalid_request, s) else (
  redirect (issuer +++ "/oid4vp/responses/" +++ state +++ "/result"),
  save_response (record { request_id = state; vp_token = vp_token; received_at = now }) s,
)

unfoldable pub get_response : String → VpStore → VpReply
get_response id s = elim (find (answers id) s.responses) [
  | none ↦ pending
  | some x ↦ complete x.vp_token x.received_at
]

-- The calls that change the store, each with its time.
pub data Call : Type 0 where
  creates : Option RequestBody → Option String → Option String → ℕ → Call
  posts : String → String → ℕ → Call
  evicts : ℕ → Call

unfoldable pub call : String → Call → VpStore → VpStore
unfolding create_request post_response evict
call issuer (creates body id salt now) s = (create_request issuer body id salt now s).1
call issuer (posts vp_token state now) s = (post_response issuer vp_token state now s).1
call issuer (evicts now) s = evict now s

unfoldable pub calls : String → List Call → VpStore → VpStore
unfolding call
calls issuer [] s = s
calls issuer (c ∷ cs) s = calls issuer cs (call issuer c s)
