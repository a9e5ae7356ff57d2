-- ===== src/Vc/Keys.antt =====
-- pkg/vc/verify.go and sdjwt.go: the issuer's keys in a DID document of pkg/did.
-- The resolver, multibase, base64url, JSON, SHA-256 and Ed25519 stand as the functions of
-- `Primitives`; a key is its bytes.
use Prim.Native.Nat.{bit_or}
use tpt_identity.Prelude.{
  length, ℕ, ℤ, zero, suc, ◌+◌, ◌*◌, ◌%◌, ◌^◌, String, Bool, List, [], ◌∷◌, Option, none, some, not,
  ◌==◌, ltb, nat_beq, if◌then◌else◌,
}
use tpt_identity.Prelude.Words.{has_prefix}
use tpt_identity.Vc.Json.{Json}

pub record VerificationMethod : Type 0 where
  pub id : String
  pub kind : String
  pub controller : String
  pub public_key_multibase : Option String
  pub revoked : Bool
  pub not_before : Option String

pub record Document : Type 0 where
  pub id : String
  pub verification_method : List VerificationMethod

abbrev pub Key : Type 0
Key = List ℕ

pub record Primitives : Type 0 where
  -- resolver.Resolve.
  pub resolve : String → Option Document
  -- multibase.Decode.
  pub multibase_decode : String → Option (List ℕ)
  -- base64.RawURLEncoding.
  pub base64_decode : String → Option (List ℕ)
  -- base64url of json.Marshal, and json.Unmarshal of decoded base64url; `none` is an error.
  pub marshal : Json → Option String
  pub unmarshal : String → Option Json
  -- A number's canonical literal from an int64, and the int64 of a literal.
  pub literal : ℕ → String
  pub int64 : String → ℤ
  -- base64url of SHA-256.
  pub sha256 : String → String
  -- base64url of ed25519.Sign; and ed25519.Verify of a base64url signature, false where the
  -- signature is no base64url.
  pub sign : Key → String → String
  pub verify : Key → String → String → Bool

-- The value of the varint and the number of its bytes, 0 where no byte ends it. The value wraps at
-- 64 bits.
unfoldable pub uvarint : ℕ → ℕ → ℕ → List ℕ → ℕ × ℕ
uvarint x s i [] = (0, 0)
uvarint x s i (c ∷ rest) =
    let more = uvarint (bit_or x (c % 128 * 2 ^ s % 2 ^ 64)) (s + 7) (i + 1) rest in
    if ltb c 0x80 then (bit_or x (c * 2 ^ s % 2 ^ 64), i + 1) else more

unfoldable pub decode_uvarint : List ℕ → ℕ × ℕ
unfolding uvarint
decode_uvarint b = uvarint 0 0 0 b

unfoldable pub drop {ℓ} : {A : Type ℓ} → ℕ → List A → List A
drop zero l = l
drop (suc n) [] = []
drop (suc n) (_ ∷ rest) = drop n rest

-- `mb[1:]` of a text that is not empty.
abbrev pub tail : String → String
tail String.[] = ""
tail (String.◌∷◌ _ s) = s

abbrev or_base64 : Primitives → String → Option (List ℕ) → Option (List ℕ)
or_base64 c mb (some raw) = some raw
or_base64 c mb none = if has_prefix mb "u" then c.base64_decode (tail mb) else none

-- The prefix of the codec is passed over, whichever codec it names.
unfoldable pub stripped : List ℕ → Option Key
unfolding decode_uvarint drop
stripped raw =
    let key = drop (decode_uvarint raw).1 raw in
    if ltb (length raw) 2 then none else if nat_beq (length key) 32 then some key else none

unfoldable pub decode_multibase_ed25519 : Primitives → String → Option Key
unfolding stripped has_prefix
decode_multibase_ed25519 c mb = elim (or_base64 c mb (c.multibase_decode mb)) [
  | none ↦ none
  | some raw ↦ stripped raw
]

abbrev pub key_type : String
key_type = "Ed25519VerificationKey2020"

-- The key of the method with the ID: the first one decides.
unfoldable pub extract_ed25519_key : Primitives → List VerificationMethod → String → Option Key
unfolding decode_multibase_ed25519
extract_ed25519_key c [] vm_id = none
extract_ed25519_key c (vm ∷ rest) vm_id =
    let other = extract_ed25519_key c rest vm_id in
    if not (vm.id == vm_id)
    then other
    else if vm.revoked
    then none
    else if not (vm.kind == key_type)
    then none
    else elim vm.public_key_multibase [ none ↦ none | some mb ↦ decode_multibase_ed25519 c mb ]

-- The first method that is not revoked, has a key and is of the type.
unfoldable pub active_key : Primitives → List VerificationMethod → Option Key
unfolding decode_multibase_ed25519
active_key c [] = none
active_key c (vm ∷ rest) =
    let other = active_key c rest in
    if vm.revoked then other else elim vm.public_key_multibase [
      | none ↦ other
      | some mb ↦ if not (vm.kind == key_type) then other else decode_multibase_ed25519 c mb
    ]

unfoldable pub resolve_signing_key : Primitives → String → Option Key
unfolding active_key
resolve_signing_key c issuer = elim (c.resolve issuer) [
  | none ↦ none
  | some doc ↦ active_key c doc.verification_method
]
