-- ===== src/Vc/Sdjwt.antt =====
-- pkg/vc/sdjwt.go: disclosures, and credentials whose claims the holder reveals one by one.
-- The order in which Go walks a map is the order of the entries; randomness is a function of the
-- claim that a salt is drawn for.
pub mod Binding
pub mod Parts
pub mod Roundtrip
pub mod Selection
pub mod Signed
pub mod Sound
pub mod Verifier
use Prim.Native.Char.{Char, code}
use Prim.Native.String
use tpt_identity.Prelude.{
  ℕ, ℤ, ◌≡◌, ◌⊎◌, inl, inr, refl, pos, negsuc, ◌+◌, ◌*◌, String, Bool, true, false, List, [], ◌∷◌,
  Option, none, some, map, not, ◌==◌, ◌||◌, nat_beq, if◌then◌else◌,
}
use tpt_identity.Prelude.Words.{has_prefix}
use tpt_identity.Oidc.Jwt.{◌+++◌, second, unix}
use tpt_identity.Schema.Registry.{Schema, Registry, get_schema, versioned_id}
use tpt_identity.Vc.Json.{
  Json, number, text, array, object, Items, no_item, item, Members, no_member, member, put, put_all,
  text_items,
}
use tpt_identity.Vc.Keys.{Key, Primitives}

-- The errors that the operations return.
pub data SdError : Type 0 where
  ephemeral_issuer no_issuer no_subject unknown_schema bad_disclosure bad_claims : SdError
  empty_token no_separator bad_payload no_iss unresolved_key bad_signature expired : SdError
  forged_disclosure no_holder_key kb_required : SdError
  nonce_mismatch audience_mismatch sd_hash_mismatch : SdError

pub data Outcome (A : Type 0) : Type 0 where
  ok : A → Outcome A
  err : SdError → Outcome A

infixl 5 ◌>>=◌ ◌>>◌
abbrev pub ◌>>=◌ : {A B : Type 0} → Outcome A → (A → Outcome B) → Outcome B
ok a >>= f = f a
err e >>= f = err e

abbrev pub ◌>>◌ : {B : Type 0} → Outcome (Unit {0}) → Outcome B → Outcome B
m >> k = m >>= λ _. k

abbrev pub need : {A : Type 0} → SdError → Option A → Outcome A
need e none = err e
need e (some a) = ok a

abbrev pub guard : Bool → SdError → Outcome (Unit {0})
guard true e = ok tt
guard false e = err e

pub Outcome-cases :
    {A : Type 0} (o : Outcome A) → ((e : SdError) × (o ≡ err e)) ⊎ ((a : A) × (o ≡ ok a))
Outcome-cases (ok a) = inr (a, refl)
Outcome-cases (err e) = inl (e, refl)

pub record Disclosure : Type 0 where
  pub salt : String
  pub key : String
  pub value : Json

unfoldable pub encode : Primitives → Disclosure → Option String
encode c d = c.marshal (array (item (text d.salt) (item (text d.key) (item d.value no_item))))

unfoldable pub digest : Primitives → Disclosure → Option String
unfolding encode
digest c d = elim (encode c d) [ none ↦ none | some enc ↦ some (c.sha256 enc) ]

-- A decoded disclosure: an array of three, the first two of them texts.
abbrev pub of_json : Option Json → Option Disclosure
of_json (some (array (item (text s) (item (text k) (item v no_item))))) =
    some (record { salt = s; key = k; value = v })
of_json _ = none

unfoldable pub parse_disclosure : Primitives → String → Option Disclosure
parse_disclosure c encoded = of_json (c.unmarshal encoded)

pub record Token : Type 0 where
  pub jwt : String
  pub disclosures : List Disclosure

abbrev pub or_none : Option String → String
or_none none = ""
or_none (some enc) = enc

-- strings.Join with "~".
unfoldable pub join_tilde : String → List String → String
join_tilde s [] = s
join_tilde s (p ∷ parts) = s +++ "~" +++ join_tilde p parts

-- Encode's error is dropped.
unfoldable pub serialize_with : Primitives → String → List Disclosure → String
unfolding encode join_tilde
serialize_with c jwt ds = join_tilde jwt (map (λ d. or_none (encode c d)) ds) +++ "~"

unfoldable pub serialize : Primitives → Token → String
unfolding serialize_with
serialize c t = serialize_with c t.jwt t.disclosures

unfoldable pub mem : String → List String → Bool
mem k [] = false
mem k (j ∷ rest) = k == j || mem k rest

unfoldable pub select : List String → List Disclosure → List Disclosure
unfolding mem
select keys [] = []
select keys (d ∷ ds) = let rest = select keys ds in if mem d.key keys then d ∷ rest else rest

unfoldable pub present : Primitives → Token → List String → String
unfolding serialize_with select
present c t keys = serialize_with c t.jwt (select keys t.disclosures)

abbrev pub jwt_header : String → String → Json
jwt_header kid typ =
    object
      (member "alg" (text "EdDSA") (member "typ" (text typ) (member "kid" (text kid) no_member)))

-- A compact JWT over the claims, by the key; `none` where the claims do not encode.
unfoldable pub sign_sd_jwt : Primitives → Json → Key → String → String → Option String
sign_sd_jwt c claims key kid typ = elim (c.marshal (jwt_header kid typ)) [
  | none ↦ none
  | some header ↦ elim (c.marshal claims) [
    | none ↦ none
    | some payload ↦
        let input = header +++ "." +++ payload in some (input +++ "." +++ c.sign key input)
  ]
]

abbrev pub kb_members : Primitives → String → String → String → ℕ → Members
kb_members c nonce audience sd_hash now = member "nonce" (text nonce) (
    member "aud" (text audience)
      (member "iat" (number (c.literal (unix now))) (member "sd_hash" (text sd_hash) no_member)))

abbrev pub kb_claims : Primitives → String → String → String → ℕ → Json
kb_claims c nonce audience sd_hash now = object (kb_members c nonce audience sd_hash now)

-- strings.TrimSuffix of "~".
unfoldable pub trim_tilde : String → String
trim_tilde String.[] = ""
trim_tilde (String.◌∷◌ c String.[]) = if nat_beq (code c) b'~' then "" else String.◌∷◌ c ""
trim_tilde (String.◌∷◌ c (String.◌∷◌ d s)) = String.◌∷◌ c (trim_tilde (String.◌∷◌ d s))

unfoldable pub present_with_key_binding :
    Primitives → Token → List String → Key → String → String → String → ℕ → Option String
unfolding present sign_sd_jwt trim_tilde
present_with_key_binding c t keys holder_key kid nonce audience now =
    let base = present c t keys in
    let sd_hash = c.sha256 (trim_tilde base) in
    elim (sign_sd_jwt c (kb_claims c nonce audience sd_hash now) holder_key kid "kb+jwt") [
      | none ↦ none
      | some kb_jwt ↦ some (base +++ kb_jwt)
    ]

pub record IssueOptions : Type 0 where
  pub issuer_did : String
  pub issuer_key : Option Key
  pub verification_method_id : String
  pub subject_did : String
  pub schema_id : String
  pub selective_claims : Members
  pub always_visible_claims : Members
  pub valid_for : ℤ

-- A duration of 0 or less means a day.
abbrev pub validity : ℤ → ℕ
validity (pos n) = if nat_beq n 0 then 24 * 3600 * second else n
validity (negsuc _) = 24 * 3600 * second

-- One disclosure for each claim; `none` where no salt is drawn or a claim does not encode.
unfoldable pub disclose :
    Primitives → (String → Option String) → Members → Option (List Disclosure × List String)
unfolding digest
disclose c salt no_member = some ([], [])
disclose c salt (member k v claims) =
    let rest = disclose c salt claims in
    elim (salt k) [
      | none ↦ none
      | some s ↦ elim (digest c (record { salt = s; key = k; value = v })) [
        | none ↦ none
        | some h ↦ elim rest [
          | none ↦ none
          | some (ds, hs) ↦ some (record { salt = s; key = k; value = v } ∷ ds, h ∷ hs)
        ]
      ]
    ]

-- `vct`, of a schema that is named and known.
abbrev pub with_vct : Primitives → Option Schema → Members → Members
with_vct c none payload = payload
with_vct c (some s) payload = put "vct" (text (versioned_id c.literal s)) payload

abbrev pub base_payload : Primitives → IssueOptions → List String → ℕ → Members
base_payload c o digests now = member "iss" (text o.issuer_did) (
    member "sub" (text o.subject_did) (
      member "iat" (number (c.literal (unix now))) (
        member "exp" (number (c.literal (unix (now + validity o.valid_for)))) (
          member "_sd_alg" (text "sha-256")
            (member "_sd" (array (text_items digests)) no_member)))))

-- The always visible claims are laid over the base payload.
unfoldable pub issued_payload :
    Primitives → IssueOptions → Option Schema → List String → ℕ → Members
unfolding put put_all
issued_payload c o schema digests now =
    put_all o.always_visible_claims (with_vct c schema (base_payload c o digests now))

abbrev pub named_schema : Registry → String → Outcome (Option Schema)
named_schema registry id =
    if id == ""
    then ok none
    else elim (get_schema registry id) [ none ↦ err unknown_schema | some s ↦ ok (some s) ]

abbrev pub issuer_key_of : IssueOptions → Option Key
issuer_key_of o = if o.issuer_did == "" then none else o.issuer_key

unfoldable pub issue_sd_jwt :
    Primitives → Registry → (String → Option String) → IssueOptions → ℕ → Outcome Token
unfolding has_prefix get_schema disclose issued_payload sign_sd_jwt
issue_sd_jwt c registry salt o now = do
  guard (not (has_prefix o.issuer_did "did:key:")) ephemeral_issuer
  key ← need no_issuer (issuer_key_of o)
  guard (not (o.subject_did == "")) no_subject
  schema ← named_schema registry o.schema_id
  drawn ← need bad_disclosure (disclose c salt o.selective_claims)
  jwt ← need bad_claims (
      sign_sd_jwt c (object (issued_payload c o schema drawn.1 now)) key o.verification_method_id
        "vc+sd-jwt")
  ok (record { jwt = jwt; disclosures = drawn.0 })
