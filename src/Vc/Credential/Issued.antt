-- ===== src/Vc/Credential/Issued.antt =====
-- What issuance and verification of a credential promise to one another.
use tpt_identity.Prelude.{
  ℕ, ℤ, ◌≤◌, ◌≡◌, refl, String, Bool, true, false, List, Option, some, ◌==◌, arith, inl, inr,
  Option-cases, if◌then◌else◌,
}
use tpt_identity.Schema.Registry.{Registry, get_schema, versioned_id}
use tpt_identity.Vc.Keys.{Key, Primitives}
use tpt_identity.Vc.Credential.{
  CredentialStatus, Credential, Proof, VerifiableCredential, Suite, hash_data, IssueOptions, until,
  status_of, unsigned, integrity_proof, issue, signed_by, verify_proof, key_of, has_expired,
  status_passes, verify,
}

-- The library's part: a signature by the key decodes and verifies by the key of the DID document.
pub record Signs (s : Suite) (c : Primitives) (did vm_id : String) (key public : Key) : Type 0 where
  pub resolves : key_of c did vm_id ≡ some public
  pub decodes :
      (m : List ℕ) → c.base64_decode (s.base64_encode (s.sign key m)) ≡ some (s.sign key m)
  pub verifies : (m : List ℕ) → s.verify public m (s.sign key m) ≡ true

abbrev outcome : Option (CredentialStatus → Bool) → ℕ → Credential → Bool
outcome checker later cred =
    if has_expired later cred.valid_until then false else status_passes checker cred.status

-- A credential with a good proof of Data Integrity.
verify-signed :
    (s : Suite) (c : Primitives) (checker : Option (CredentialStatus → Bool)) (later : ℕ)
    (cred : Credential) (p : Proof) (public : Key)
    → (p.kind == "DataIntegrityProof") ≡ true
    → (p.cryptosuite == "eddsa-jcs-2022") ≡ true
    → key_of c cred.issuer p.verification_method ≡ some public
    → signed_by s c public (hash_data s p cred) p.proof_value ≡ true
    → cred.valid_from ≤ later
    → verify s c checker later (record { credential = cred; proof = some p })
      ≡ outcome checker later cred
unfolding verify verify_proof
verify-signed s c checker later cred p public k u key signed in_time = ground arith

sealed-Signs :
    (s : Suite) (c : Primitives) (o : IssueOptions) (now : ℕ) (cred : Credential) (public : Key)
    (m : List ℕ)
    → Signs s c o.issuer_did o.verification_method_id o.issuer_key public
    → hash_data s (integrity_proof s o now "") cred ≡ some m
    → signed_by s c public
        (hash_data s (integrity_proof s o now (s.base64_encode (s.sign o.issuer_key m))) cred)
        (s.base64_encode (s.sign o.issuer_key m))
      ≡ true
unfolding hash_data
sealed-Signs s c o now cred public m signs hashed =
    ground (arith, signs.decodes m, signs.verifies m)

-- An issued credential verifies from its issuance on until its duration has passed, and
-- never after, subject to the check of its status, which is that of the options. It is assumed that the issuer's DID
-- document holds the key and that a signature by it verifies.
pub verify-issue :
    (s : Suite) (registry : Registry) (itoa : ℕ → String) (sprint : ℤ → String) (o : IssueOptions)
    (uuid : String) (now : ℕ) (vc : VerifiableCredential) (c : Primitives) (public : Key)
    (checker : Option (CredentialStatus → Bool)) (later : ℕ)
    → issue s registry itoa sprint o uuid now ≡ some vc
    → Signs s c o.issuer_did o.verification_method_id o.issuer_key public
    → now ≤ later
    → verify s c checker later vc ≡ (
        if has_expired later (until now o.valid_for)
        then false
        else status_passes checker (status_of sprint o))
unfolding issue
verify-issue s registry itoa sprint o uuid now vc c public checker later e signs in_time =
    elim (Option-cases (get_schema registry o.schema_id)) [
      | inl bad ↦ absurd (ground arith)
      | inr (schema, known) ↦
          let cred = unsigned sprint o uuid (versioned_id itoa schema) now in
          elim (Option-cases (hash_data s (integrity_proof s o now "") cred)) [
            | inl bad ↦ absurd (ground arith)
            | inr (m, hashed) ↦
                let p = integrity_proof s o now (s.base64_encode (s.sign o.issuer_key m)) in
                let made : vc ≡ record { credential = cred; proof = some p } =
                  ground (arith, known, hashed) in
                rw made (
                  verify-signed s c checker later cred p public refl refl signs.resolves
                    (sealed-Signs s c o now cred public m signs hashed) in_time)
          ]
    ]
