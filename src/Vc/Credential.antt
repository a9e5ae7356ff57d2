-- ===== src/Vc/Credential.antt =====
-- pkg/vc/credential.go, issue.go, presentation.go and verify.go: W3C credentials, their issuance and
-- presentation, and the verification of both.
-- A map of claims is the list of its entries. Times are nanoseconds.
pub mod Issued
pub mod Revoked
pub mod Shown
use tpt_identity.Prelude.{
  ℕ, ℤ, pos, negsuc, suc, ◌+◌, ◌-◌, String, Bool, true, false, List, [], ◌∷◌, ◌++◌, Option, none,
  some, not, ◌==◌, ◌&&◌, ◌||◌, ltb, nat_beq, if◌then◌else◌,
}
use tpt_identity.Prelude.Words.{has_prefix}
use tpt_identity.Oidc.Jwt.{◌+++◌}
use tpt_identity.Schema.Registry.{Registry, get_schema, versioned_id}
use tpt_identity.Vc.Keys.{Key, Primitives, extract_ed25519_key}

pub record CredentialStatus : Type 0 where
  pub id : String
  pub kind : String
  pub status_purpose : String
  pub status_list_index : ℤ
  pub status_list_credential : String

pub record Credential : Type 0 where
  pub context : List String
  pub id : String
  pub kinds : List String
  pub issuer : String
  pub valid_from : ℕ
  pub valid_until : Option ℕ
  pub subject : String
  pub claims : List (String × String)
  pub schema : Option (String × String)
  pub status : Option CredentialStatus

pub record Proof : Type 0 where
  pub kind : String
  pub cryptosuite : String
  pub created : String
  pub verification_method : String
  pub proof_purpose : String
  pub proof_value : String

pub record VerifiableCredential : Type 0 where
  pub credential : Credential
  pub proof : Option Proof

pub record Presentation : Type 0 where
  pub context : List String
  pub id : String
  pub kinds : List String
  pub holder : String
  pub credentials : List VerifiableCredential
  pub challenge : String
  pub domain : String

pub record VerifiablePresentation : Type 0 where
  pub presentation : Presentation
  pub proof : Option Proof

-- JSON, its canonical form, SHA-256, Ed25519, base64url and the schemas' JSON Schema.
pub record Suite : Type 0 where
  pub jcs_options : List (String × String) → Option (List ℕ)
  pub jcs_credential : Credential → Option (List ℕ)
  pub marshal_credential : Credential → Option (List ℕ)
  pub marshal_presentation : Presentation → Option (List ℕ)
  pub sha256 : List ℕ → List ℕ
  pub sign : Key → List ℕ → List ℕ
  pub verify : Key → List ℕ → List ℕ → Bool
  pub base64_encode : List ℕ → String
  pub rfc3339 : ℕ → String
  -- Whether schema.Validate returns nil.
  pub validate : String → List (String × String) → Bool

abbrev pub default_context : List String
default_context = "https://www.w3.org/ns/credentials/v2" ∷ "https://tpt-identity.org/ns/v1" ∷ []

abbrev pub proof_options : Proof → List (String × String)
proof_options p =
    ("type", p.kind)
    ∷ ("cryptosuite", p.cryptosuite)
    ∷ ("created", p.created)
    ∷ ("verificationMethod", p.verification_method)
    ∷ ("proofPurpose", p.proof_purpose)
    ∷ []

-- SHA-256 of the options, and of the document behind it.
unfoldable pub hash_data : Suite → Proof → Credential → Option (List ℕ)
hash_data s p cred = elim (s.jcs_options (proof_options p)) [
  | none ↦ none
  | some options ↦ elim (s.jcs_credential cred) [
    | none ↦ none
    | some document ↦ some (s.sha256 options ++ s.sha256 document)
  ]
]

pub record IssueOptions : Type 0 where
  pub issuer_did : String
  pub issuer_key : Key
  pub verification_method_id : String
  pub subject_did : String
  pub schema_id : String
  pub claims : List (String × String)
  pub valid_for : ℤ
  pub status_list_credential : String
  pub status_list_index : ℤ

-- now.Add of a duration that is not 0.
abbrev pub until : ℕ → ℤ → Option ℕ
until now (pos n) = if nat_beq n 0 then none else some (now + n)
until now (negsuc n) = some (now - suc n)

-- fmt.Sprint of the index is `sprint`.
abbrev pub status_of : (ℤ → String) → IssueOptions → Option CredentialStatus
status_of sprint o =
    if o.status_list_credential == ""
    then none
    else some (record {
      id = o.status_list_credential +++ "#" +++ sprint o.status_list_index;
      kind = "BitstringStatusListEntry";
      status_purpose = "revocation";
      status_list_index = o.status_list_index;
      status_list_credential = o.status_list_credential;
    })

abbrev pub unsigned : (ℤ → String) → IssueOptions → String → String → ℕ → Credential
unsigned sprint o uuid schema_id now = record {
  context = default_context;
  id = "urn:uuid:" +++ uuid;
  kinds = "VerifiableCredential" ∷ schema_id ∷ [];
  issuer = o.issuer_did;
  valid_from = now;
  valid_until = until now o.valid_for;
  subject = o.subject_did;
  claims = o.claims;
  schema = some (schema_id, "TptCredentialSchema");
  status = status_of sprint o;
}

abbrev pub integrity_proof : Suite → IssueOptions → ℕ → String → Proof
integrity_proof s o now value = record {
  kind = "DataIntegrityProof";
  cryptosuite = "eddsa-jcs-2022";
  created = s.rfc3339 now;
  verification_method = o.verification_method_id;
  proof_purpose = "assertionMethod";
  proof_value = value;
}

abbrev pub sealed :
    Suite → IssueOptions → ℕ → Credential → Option (List ℕ) → Option VerifiableCredential
sealed s o now cred none = none
sealed s o now cred (some m) = some (record {
  credential = cred;
  proof = some (integrity_proof s o now (s.base64_encode (s.sign o.issuer_key m)));
})

unfoldable pub issue :
    Suite
    → Registry
    → (ℕ → String)
    → (ℤ → String)
    → IssueOptions
    → String
    → ℕ
    → Option VerifiableCredential
unfolding has_prefix get_schema hash_data
issue s registry itoa sprint o uuid now =
    if has_prefix o.issuer_did "did:key:"
    then none
    else if not (s.validate o.schema_id o.claims)
    then none
    else elim (get_schema registry o.schema_id) [
      | none ↦ none
      | some schema ↦
          let cred = unsigned sprint o uuid (versioned_id itoa schema) now in
          sealed s o now cred (hash_data s (integrity_proof s o now "") cred)
    ]

-- ed25519.Verify of a message that encodes against a base64url signature.
abbrev pub signed_by : Suite → Primitives → Key → Option (List ℕ) → String → Bool
signed_by s c key none value = false
signed_by s c key (some m) value = elim (c.base64_decode value) [
  | none ↦ false
  | some sig ↦ s.verify key m sig
]

-- The switch on the proof's type and cryptosuite.
unfoldable pub verify_proof : Suite → Primitives → Key → Credential → Proof → Bool
unfolding hash_data
verify_proof s c key cred p =
    if p.kind == "DataIntegrityProof" && p.cryptosuite == "eddsa-jcs-2022"
    then signed_by s c key (hash_data s p cred) p.proof_value
    else if p.kind == "Ed25519Signature2020"
    then signed_by s c key (s.marshal_credential cred) p.proof_value
    else false

abbrev pub key_of : Primitives → String → String → Option Key
key_of c did vm_id = elim (c.resolve did) [
  | none ↦ none
  | some doc ↦ extract_ed25519_key c doc.verification_method vm_id
]

abbrev pub has_expired : ℕ → Option ℕ → Bool
has_expired now none = false
has_expired now (some t) = ltb t now

-- There may be no checker.
abbrev pub status_passes : Option (CredentialStatus → Bool) → Option CredentialStatus → Bool
status_passes (some check) (some status) = check status
status_passes _ _ = true

-- Whether Verify returns nil.
unfoldable pub verify :
    Suite → Primitives → Option (CredentialStatus → Bool) → ℕ → VerifiableCredential → Bool
unfolding verify_proof extract_ed25519_key
verify s c checker now vc = elim vc.proof [
  | none ↦ false
  | some p ↦
      if ltb now vc.credential.valid_from
      then false
      else if has_expired now vc.credential.valid_until
      then false
      else elim (key_of c vc.credential.issuer p.verification_method) [
        | none ↦ false
        | some key ↦
            if not (verify_proof s c key vc.credential p)
            then false
            else status_passes checker vc.credential.status
      ]
]

pub record PresentOptions : Type 0 where
  pub holder_did : String
  pub holder_key : Key
  pub verification_method_id : String
  pub credentials : List VerifiableCredential
  pub challenge : String
  pub domain : String

abbrev pub unsigned_presentation : PresentOptions → String → Presentation
unsigned_presentation o uuid = record {
  context = default_context;
  id = "urn:uuid:" +++ uuid;
  kinds = "VerifiablePresentation" ∷ [];
  holder = o.holder_did;
  credentials = o.credentials;
  challenge = o.challenge;
  domain = o.domain;
}

unfoldable pub present : Suite → PresentOptions → String → ℕ → Option VerifiablePresentation
present s o uuid now = elim o.credentials [
  | [] ↦ none
  | _ ∷ _ ↦
      let pres = unsigned_presentation o uuid in
      elim (s.marshal_presentation pres) [
        | none ↦ none
        | some m ↦ some (record {
          presentation = pres;
          proof = some (record {
            kind = "Ed25519Signature2020";
            cryptosuite = "";
            created = s.rfc3339 now;
            verification_method = o.verification_method_id;
            proof_purpose = "authentication";
            proof_value = s.base64_encode (s.sign o.holder_key m);
          });
        })
      ]
]

unfoldable pub verify_all :
    Suite → Primitives → Option (CredentialStatus → Bool) → ℕ → List VerifiableCredential → Bool
unfolding verify
verify_all s c checker now [] = true
verify_all s c checker now (vc ∷ vcs) = verify s c checker now vc && verify_all s c checker now vcs

-- Whether VerifyPresentation returns nil.
unfoldable pub verify_presentation :
    Suite
    → Primitives
    → Option (CredentialStatus → Bool)
    → ℕ
    → String
    → String
    → VerifiablePresentation
    → Bool
unfolding verify_all extract_ed25519_key
verify_presentation s c checker now challenge domain vp = elim vp.proof [
  | none ↦ false
  | some p ↦
      let pres = vp.presentation in
      if not (challenge == "") && not (pres.challenge == challenge)
      then false
      else if not (domain == "") && not (pres.domain == domain)
      then false
      else elim (key_of c pres.holder p.verification_method) [
        | none ↦ false
        | some key ↦
            signed_by s c key (s.marshal_presentation pres) p.proof_value
            && verify_all s c checker now pres.credentials
      ]
]
