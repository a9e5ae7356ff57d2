-- ===== src/Vc/Sdjwt/Verifier.antt =====
-- pkg/vc/sdjwt.go: parsing and verification of a presentation.
use Prim.Native.Char.{Char, code}
use tpt_identity.Prelude.{
  length, ℕ, ℤ, ◌+◌, String, Bool, true, false, List, [], ◌∷◌, ◌++◌, Option, none, some, past, not,
  ◌==◌, ◌||◌, nat_beq, if◌then◌else◌,
}
use tpt_identity.Oidc.Jwt.{◌+++◌, split3, unix}
use tpt_identity.Vc.Json.{
  Json, null, number, array, object, Members, no_member, member, lookup, put, as_text,
  text_or_empty, as_object, texts,
}
use tpt_identity.Vc.Keys.{Key, Primitives, resolve_signing_key}
use tpt_identity.Vc.Sdjwt.{
  Outcome, ok, err, ◌>>=◌, ◌>>◌, need, guard, digest, parse_disclosure, join_tilde, mem,
  empty_token, no_separator, bad_payload, no_iss, unresolved_key, bad_signature, expired,
  forged_disclosure, bad_disclosure, no_holder_key, kb_required, nonce_mismatch, audience_mismatch,
  sd_hash_mismatch,
}

abbrev push_char : Char → String × List String → String × List String
push_char c (p, parts) = (String.◌∷◌ c p, parts)

-- strings.Split of "~": the first part, and the others.
unfoldable pub split_tilde : String → String × List String
split_tilde String.[] = ("", [])
split_tilde (String.◌∷◌ c s) =
    let rest = split_tilde s in
    if nat_beq (code c) b'~' then ("", rest.0 ∷ rest.1) else push_char c rest

-- strings.Count of ".".
unfoldable pub count_dot : String → ℕ
count_dot String.[] = 0
count_dot (String.◌∷◌ c s) = (if nat_beq (code c) b'.' then 1 else 0) + count_dot s

pub record Parsed : Type 0 where
  pub jwt : String
  pub disclosures : List String
  pub kb_token : String

-- The loop of ParseSDJWT over the parts behind the first: the disclosures, and the last part
-- with two dots.
unfoldable pub sort_parts : List String → List String × String → List String × String
unfolding count_dot
sort_parts [] (ds, kb) = (ds, kb)
sort_parts (p ∷ parts) (ds, kb) =
    sort_parts parts (
      if p == "" then (ds, kb) else if nat_beq (count_dot p) 2 then (ds, p) else (ds ++ p ∷ [], kb))

unfoldable pub parse_sd_jwt : String → Outcome Parsed
unfolding split_tilde sort_parts
parse_sd_jwt token =
    let parts = split_tilde token in
    let sorted = sort_parts parts.1 ([], "") in
    if token == "" then err empty_token else elim parts.1 [
      | [] ↦ err no_separator
      | _ ∷ _ ↦ ok (record { jwt = parts.0; disclosures = sorted.0; kb_token = sorted.1 })
    ]

-- JSON's null is a map without entries.
abbrev pub claims_of : Option Json → Option Members
claims_of (some (object m)) = some m
claims_of (some null) = some no_member
claims_of _ = none

unfoldable pub parse_payload : Primitives → String → Option Members
unfolding split3
parse_payload c jwt = elim (split3 jwt) [
  | none ↦ none
  | some (_, payload, _) ↦ claims_of (c.unmarshal payload)
]

-- Whether verifySDJWTSig returns nil.
unfoldable pub verify_sig : Primitives → String → Key → Bool
unfolding split3
verify_sig c jwt key = elim (split3 jwt) [
  | none ↦ false
  | some (header, payload, sig) ↦ c.verify key (header +++ "." +++ payload) sig
]

-- The texts of `_sd`.
abbrev pub sd_digests : Option Json → List String
sd_digests (some (array items)) = texts items
sd_digests _ = []

-- The loop over the disclosures: each must have its digest in the list.
unfoldable pub reveal : Primitives → List String → List String → Members → Outcome Members
unfolding parse_disclosure digest mem put
reveal c digests [] claims = ok claims
reveal c digests (enc ∷ encs) claims =
    let step = need bad_disclosure (parse_disclosure c enc) >>= λ d.
    need bad_disclosure (digest c d) >>= λ h.
    if mem h digests then ok (put d.key d.value claims) else err forged_disclosure in
    step >>= reveal c digests encs

-- The holder's key of cnf.jwk: an error and the absence of a key are both refused by the caller.
unfoldable pub extract_holder_key : Primitives → Members → Option Key
extract_holder_key c claims = elim (as_object (lookup "cnf" claims)) [
  | none ↦ none
  | some cnf ↦ elim (as_object (lookup "jwk" cnf)) [
    | none ↦ none
    | some jwk ↦
        if not (text_or_empty (lookup "kty" jwk) == "OKP")
        then none
        else elim (as_text (lookup "x" jwk)) [
          | none ↦ none
          | some x ↦ elim (c.base64_decode x) [
            | none ↦ none
            | some raw ↦ if nat_beq (length raw) 32 then some raw else none
          ]
        ]
  ]
]

unfoldable pub sd_hash_of : Primitives → Parsed → String
unfolding join_tilde
sd_hash_of c p = c.sha256 (join_tilde p.jwt p.disclosures +++ "~")

unfoldable pub verify_kb_jwt : Primitives → Parsed → Key → String → String → Outcome (Unit {0})
unfolding parse_payload sd_hash_of verify_sig lookup
verify_kb_jwt c p holder nonce audience = do
  claims ← need bad_payload (parse_payload c p.kb_token)
  guard (nonce == "" || text_or_empty (lookup "nonce" claims) == nonce) nonce_mismatch
  guard (audience == "" || text_or_empty (lookup "aud" claims) == audience) audience_mismatch
  guard (text_or_empty (lookup "sd_hash" claims) == sd_hash_of c p) sd_hash_mismatch
  guard (verify_sig c p.kb_token holder) bad_signature

-- Whether a holder's key has been verified.
unfoldable pub key_binding : Primitives → Parsed → Members → String → String → Outcome Bool
unfolding extract_holder_key verify_kb_jwt
key_binding c p claims nonce audience =
    if p.kb_token == ""
    then (if not (nonce == "") || not (audience == "") then err kb_required else ok false)
    else need no_holder_key (extract_holder_key c claims) >>= λ holder.
        verify_kb_jwt c p holder nonce audience >>= λ _. ok true

abbrev pub skipped : List String
skipped = "iss" ∷ "sub" ∷ "iat" ∷ "exp" ∷ "_sd" ∷ "_sd_alg" ∷ "vct" ∷ "cnf" ∷ []

unfoldable pub visible : Members → Members
unfolding mem
visible no_member = no_member
visible (member k v rest) =
    let more = visible rest in if mem k skipped then more else member k v more

abbrev pub seconds : Primitives → Option Json → Option ℤ
seconds c (some (number n)) = some (c.int64 n)
seconds c _ = none

abbrev pub is_past : ℕ → Option ℤ → Bool
is_past now none = false
is_past now (some t) = past (unix now) t

pub record Verified : Type 0 where
  pub issuer_did : String
  pub subject_did : String
  pub schema_id : String
  pub disclosed_claims : Members
  pub always_claims : Members
  pub issued_at : Option ℤ
  pub expires_at : Option ℤ
  pub key_binding_verified : Bool

unfoldable pub verify : Primitives → ℕ → String → String → String → Outcome Verified
unfolding parse_sd_jwt parse_payload resolve_signing_key verify_sig reveal key_binding visible
    lookup
verify c now token nonce audience = do
  p ← parse_sd_jwt token
  claims ← need bad_payload (parse_payload c p.jwt)
  let issuer = text_or_empty (lookup "iss" claims)
  guard (not (issuer == "")) no_iss
  key ← need unresolved_key (resolve_signing_key c issuer)
  guard (verify_sig c p.jwt key) bad_signature
  guard (not (is_past now (seconds c (lookup "exp" claims)))) expired
  disclosed ← reveal c (sd_digests (lookup "_sd" claims)) p.disclosures no_member
  bound ← key_binding c p claims nonce audience
  ok (record {
    issuer_did = issuer;
    subject_did = text_or_empty (lookup "sub" claims);
    schema_id = text_or_empty (lookup "vct" claims);
    disclosed_claims = disclosed;
    always_claims = visible claims;
    issued_at = seconds c (lookup "iat" claims);
    expires_at = seconds c (lookup "exp" claims);
    key_binding_verified = bound;
  })
