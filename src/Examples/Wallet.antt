-- ===== src/Examples/Wallet.antt =====
-- A wallet's credential with a toy library: each value has one text.
use tpt_identity.Prelude.{
  ℕ, zero, suc, pos, String, false, List, [], ◌∷◌, Option, none, some, ◌==◌, ◌*◌, if◌then◌else◌,
}
use tpt_identity.Oidc.Jwt.{◌+++◌, second}
use tpt_identity.Schema.Registry.{Registry}
use tpt_identity.Vc.Json.{
  Json, text, number, array, object, no_item, item, Members, no_member, member,
}
use tpt_identity.Vc.Keys.{Key, Primitives, Document}
use tpt_identity.Vc.Sdjwt.{Disclosure, Token, IssueOptions}

abbrev repeat : ℕ → ℕ → List ℕ
repeat zero b = []
repeat (suc n) b = b ∷ repeat n b

abbrev pub public_key : Key
public_key = repeat 32 7

abbrev pub private_key : Key
private_key = 1 ∷ []

abbrev pub document : Document
document = record {
  id = "did:web:issuer";
  verification_method =
      record {
        id = "did:web:issuer#k";
        kind = "Ed25519VerificationKey2020";
        controller = "did:web:issuer";
        public_key_multibase = some "zkey";
        revoked = false;
        not_before = none;
      }
      ∷ [];
}

abbrev pub confirmation : Members
confirmation =
    member "cnf"
      (object (
        member "jwk" (object (member "kty" (text "OKP") (member "x" (text "xx") no_member)))
          no_member))
      no_member

abbrev pub payload : Members
payload = member "iss" (text "did:web:issuer") (
    member "sub" (text "did:web:alice") (
      member "iat" (number "4600") (
        member "exp" (number "4600") (
          member "_sd_alg" (text "sha-256") (
            member "_sd" (array (item (text "#name") (item (text "#age") no_item)))
              confirmation)))))

abbrev pub name : Disclosure
name = record { salt = "s"; key = "name"; value = text "Ada" }

abbrev pub age : Disclosure
age = record { salt = "s"; key = "age"; value = text "36" }

abbrev pub disclosure_json : Disclosure → Json
disclosure_json d = array (item (text d.salt) (item (text d.key) (item d.value no_item)))

abbrev pub header : String → Json
header typ = object (
    member "alg" (text "EdDSA")
      (member "typ" (text typ) (member "kid" (text "did:web:issuer#k") no_member)))

abbrev pub kb_payload : String → Members
kb_payload sd_hash = member "nonce" (text "n1") (
    member "aud" (text "rp")
      (member "iat" (number "4600") (member "sd_hash" (text sd_hash) no_member)))

abbrev pub jwt : String
jwt = "hdr.pay.sig"

-- "kba" is the wallet's own token over the presentation of `name`, "kbb" one with the hash that
-- verification asks for.
abbrev marshal : Json → Option String
marshal (object (member k v (member j (text w) _))) =
    if k == "alg"
    then some (if w == "kb+jwt" then "hdk" else "hdr")
    else if k == "iss"
    then some "pay"
    else if k == "nonce"
    then some "kba"
    else none
marshal (array (item _ (item (text k) _))) = some k
marshal _ = none

abbrev unmarshal : String → Option Json
unmarshal s =
    if s == "hdr"
    then some (header "vc+sd-jwt")
    else if s == "hdk"
    then some (header "kb+jwt")
    else if s == "pay"
    then some (object payload)
    else if s == "kba"
    then some (object (kb_payload "#hdr.pay.sig~name"))
    else if s == "kbb"
    then some (object (kb_payload "#hdr.pay.sig~name~"))
    else if s == "name"
    then some (disclosure_json name)
    else if s == "age"
    then some (disclosure_json age)
    else none

abbrev pub library : Primitives
library = record {
  resolve = λ did. if did == "did:web:issuer" then some document else none;
  multibase_decode = λ s. if s == "zkey" then some (0xed ∷ 0x01 ∷ public_key) else none;
  base64_decode = λ s. if s == "xx" then some public_key else none;
  marshal = marshal;
  unmarshal = unmarshal;
  literal = λ _. "4600";
  int64 = λ _. pos 4600;
  sha256 = λ s. "#" +++ s;
  sign = λ _ _. "sig";
  verify = λ _ _ s. s == "sig";
}

abbrev pub options : IssueOptions
options = record {
  issuer_did = "did:web:issuer";
  issuer_key = some private_key;
  verification_method_id = "did:web:issuer#k";
  subject_did = "did:web:alice";
  schema_id = "";
  selective_claims = member "name" (text "Ada") (member "age" (text "36") no_member);
  always_visible_claims = confirmation;
  valid_for = pos (3600 * second);
}

abbrev pub no_schemas : Registry
no_schemas = record { categories = []; schemas = [] }

abbrev pub token : Token
token = record { jwt = jwt; disclosures = name ∷ age ∷ [] }
