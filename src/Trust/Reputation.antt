-- ===== src/Trust/Reputation.antt =====
-- pkg/trust/reputation.go: the reputation of a domain or DID, as a signed credential and as a DNS
-- record. JSON, its canonical form, SHA-256, Ed25519, base64url, times as texts, strconv.Atoi and
-- the DNS are the functions of a `Registrar`. Times are nanoseconds.
pub mod Issued
pub mod Levels
use tpt_identity.Prelude.{
  ℕ, zero, suc, ℤ, pos, negsuc, String, Bool, true, false, List, [], ◌∷◌, ◌++◌, Option, none, some,
  not, ltb, leb, ◌==◌, ◌&&◌, ◌||◌, nat_beq, if◌then◌else◌,
}
use tpt_identity.Prelude.Words.{fields, cut_at, contains, trim_last}
use tpt_identity.Oidc.Jwt.{◌+++◌}
use tpt_identity.Trust.Permit.{after}

pub record ReputationRecord : Type 0 where
  pub domain : String
  pub score : ℤ
  pub tier : String
  pub since : String
  pub raw : String

pub record ReputationSubject : Type 0 where
  pub id : String
  pub score : ℤ
  pub tier : String
  pub since : String

-- Without its proof.
pub record ReputationVc : Type 0 where
  pub context : List String
  pub id : String
  pub kinds : List String
  pub issuer : String
  pub valid_from : String
  pub valid_until : String
  pub credential_subject : ReputationSubject

pub record ReputationProof : Type 0 where
  pub kind : String
  pub cryptosuite : String
  pub created : String
  pub verification_method : String
  pub proof_purpose : String
  pub proof_value : String

pub record Registrar (Key : Type 0) : Type 0 where
  pub jcs_options : List (String × String) → Option (List ℕ)
  pub jcs_document : ReputationVc → Option (List ℕ)
  pub marshal : ReputationVc → ReputationProof → Option String
  pub unmarshal : String → Option (ReputationVc × Option ReputationProof)
  pub sha256 : List ℕ → List ℕ
  pub sign : Key → List ℕ → List ℕ
  pub verify : Key → List ℕ → List ℕ → Bool
  pub base64_encode : List ℕ → String
  pub base64_decode : String → Option (List ℕ)
  pub rfc3339 : ℕ → String
  pub parse_time : String → Option ℕ
  pub atoi : String → Option ℤ

abbrev pub reputation_type : String
reputation_type = "TptReputationCredential"

unfoldable pub slice_contains : List String → String → Bool
slice_contains [] v = false
slice_contains (item ∷ s) v = item == v || slice_contains s v

-- `score < 0 || score > 100`
abbrev pub out_of_range : ℤ → Bool
out_of_range (pos n) = ltb 100 n
out_of_range (negsuc _) = true

abbrev pub is_zero : ℤ → Bool
is_zero (pos zero) = true
is_zero (pos (suc _)) = false
is_zero (negsuc _) = false

abbrev pub set_score : Option ℤ → ReputationRecord → ReputationRecord
set_score none r = r
set_score (some n) r = if out_of_range n then r else record r { score = n }

module _ {Key : Type 0} (g : Registrar Key) where
  -- The hashes of the options and of the document, one behind the other.
  unfoldable pub reputation_sign_input : ReputationProof → ReputationVc → Option (List ℕ)
  reputation_sign_input p doc =
      elim (g.jcs_options (
        ("type", p.kind)
        ∷ ("cryptosuite", p.cryptosuite)
        ∷ ("created", p.created)
        ∷ ("verificationMethod", p.verification_method)
        ∷ ("proofPurpose", p.proof_purpose)
        ∷ [])) [
          | none ↦ none
          | some options ↦ elim (g.jcs_document doc) [
            | none ↦ none
            | some document ↦ some (g.sha256 options ++ g.sha256 document)
          ]
        ]

  abbrev pub assessment : String → String → ReputationRecord → ℤ → String → ℕ → ReputationVc
  assessment authority subject r valid_for uuid now = record {
    context = "https://www.w3.org/ns/credentials/v2" ∷ "https://tpt.nz/ns/trust/v1" ∷ [];
    id = "urn:uuid:" +++ uuid;
    kinds = "VerifiableCredential" ∷ reputation_type ∷ [];
    issuer = authority;
    valid_from = g.rfc3339 now;
    valid_until = if is_zero valid_for then "" else g.rfc3339 (after now valid_for);
    credential_subject = record { id = subject; score = r.score; tier = r.tier; since = r.since };
  }

  abbrev pub proof_with : String → ℕ → String → ReputationProof
  proof_with verification_method now value = record {
    kind = "DataIntegrityProof";
    cryptosuite = "eddsa-jcs-2022";
    created = g.rfc3339 now;
    verification_method = verification_method;
    proof_purpose = "assertionMethod";
    proof_value = value;
  }

  unfoldable pub issue_reputation_vc :
      String → Key → String → String → ReputationRecord → ℤ → String → ℕ → Option String
  unfolding reputation_sign_input
  issue_reputation_vc authority key verification_method subject r valid_for uuid now =
      if out_of_range r.score
      then none
      else elim (reputation_sign_input (proof_with verification_method now "")
          (assessment authority subject r valid_for uuid now)) [
            | none ↦ none
            | some combined ↦
                g.marshal (assessment authority subject r valid_for uuid now)
                  (proof_with verification_method now (g.base64_encode (g.sign key combined)))
          ]

  -- Whether `validUntil` lets the credential pass: it is absent, or a time that is not over.
  unfoldable pub still_valid : String → ℕ → Bool
  still_valid until now =
      if until == ""
      then true
      else elim (g.parse_time until) [ none ↦ false | some exp ↦ not (ltb exp now) ]

  abbrev pub record_of : ReputationSubject → ReputationRecord
  record_of s = record { domain = s.id; score = s.score; tier = s.tier; since = s.since; raw = "" }

  unfoldable pub verify_proof : ReputationVc → ReputationProof → Key → Option ReputationRecord
  unfolding reputation_sign_input
  verify_proof cred proof key = elim (reputation_sign_input proof cred) [
    | none ↦ none
    | some combined ↦ elim (g.base64_decode proof.proof_value) [
      | none ↦ none
      | some sig ↦
          if not (g.verify key combined sig) then none else some (record_of cred.credential_subject)
    ]
  ]

  unfoldable pub verify_reputation_vc : String → Key → ℕ → Option ReputationRecord
  unfolding slice_contains still_valid verify_proof
  verify_reputation_vc json key now = elim (g.unmarshal json) [
    | none ↦ none
    | some (cred, proof) ↦
        if not (slice_contains cred.kinds reputation_type) then none else elim proof [
          | none ↦ none
          | some p ↦
              if not (still_valid cred.valid_until now) then none else verify_proof cred p key
        ]
  ]

  -- One `key=value` word of a DNS record.
  abbrev pub read_pair : String → String → ReputationRecord → ReputationRecord
  read_pair k v r =
      if k == "score"
      then set_score (g.atoi v) r
      else if k == "tier"
      then record r { tier = v }
      else if k == "since"
      then record r { since = v }
      else r

  unfoldable pub read_word : String → ReputationRecord → ReputationRecord
  unfolding cut_at
  read_word word r = elim (cut_at b'=' word) [ none ↦ r | some (k, v) ↦ read_pair k v r ]

  unfoldable pub read_words : List String → ReputationRecord → ReputationRecord
  unfolding read_word
  read_words [] r = r
  read_words (word ∷ words) r = read_words words (read_word word r)

  abbrev pub parse_words : String → String → List String → Option ReputationRecord
  parse_words domain txt [] = none
  parse_words domain txt (version ∷ words) =
      if not (version == "v=tpt1")
      then none
      else some (
          read_words words
            (record { domain = domain; score = negsuc 0; tier = ""; since = ""; raw = txt }))

  unfoldable pub parse_reputation_txt : String → String → Option ReputationRecord
  unfolding fields read_words
  parse_reputation_txt domain txt = parse_words domain txt (fields txt)

  unfoldable pub first_record : String → List String → Option ReputationRecord
  unfolding parse_reputation_txt
  first_record domain [] = none
  first_record domain (txt ∷ records) = elim (parse_reputation_txt domain txt) [
    | none ↦ first_record domain records
    | some r ↦ some r
  ]

-- The result of a lookup: nil without an error, a record, or an error.
pub data Looked : Type 0 where
  found : Option ReputationRecord → Looked
  failed : Looked

unfoldable pub is_dns_no_record : String → Bool
unfolding contains
is_dns_no_record msg =
    contains msg "no such host" || contains msg "NXDOMAIN" || contains msg "no answer"

-- The DNS answers with texts or with an error's message.
pub data Answer : Type 0 where
  texts : List String → Answer
  error : String → Answer

abbrev pub looked : {Key : Type 0} → Registrar Key → String → Answer → Looked
looked g domain (texts records) = found (first_record g domain records)
looked g domain (error msg) = if is_dns_no_record msg then found none else failed

unfoldable pub lookup_reputation :
    {Key : Type 0} → Registrar Key → (String → Answer) → String → Looked
unfolding first_record is_dns_no_record trim_last
lookup_reputation g lookup_txt domain =
    looked g domain (lookup_txt ("_tpt-rep." +++ trim_last b'.' domain))

pub data TrustLevel : Type 0 where
  unknown restricted provisional verified trusted : TrustLevel

unfoldable pub string : TrustLevel → String
string restricted = "restricted"
string provisional = "provisional"
string verified = "verified"
string trusted = "trusted"
string unknown = "unknown"

unfoldable pub score_level : ℕ → TrustLevel
score_level n =
    if leb 85 n
    then trusted
    else if leb 60 n
    then verified
    else if leb 25 n
    then provisional
    else restricted

abbrev pub level_of : ℤ → TrustLevel
level_of (pos n) = score_level n
level_of (negsuc _) = unknown

unfoldable pub level : Option ReputationRecord → TrustLevel
unfolding score_level
level none = unknown
level (some r) = level_of r.score
