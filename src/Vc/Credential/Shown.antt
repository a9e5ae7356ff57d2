-- ===== src/Vc/Credential/Shown.antt =====
-- What the presentation of credentials and its verification promise to one another.
use tpt_identity.Prelude.{
  ℕ, ◌≡◌, String, Bool, Option, some, ◌==◌, ◌&&◌, ◌||◌, arith, inl, inr, Option-cases,
}
use tpt_identity.Vc.Keys.{Key, Primitives}
use tpt_identity.Vc.Credential.{
  CredentialStatus, VerifiablePresentation, Suite, PresentOptions, unsigned_presentation, present,
  verify_all, verify_presentation,
}
use tpt_identity.Vc.Credential.Issued.{Signs}

-- A presentation that a holder signs verifies exactly when its challenge and its domain are those
-- expected, where any are, and each of its credentials verifies: whose credentials they are is not asked. It is assumed
-- that the holder's DID document holds the key and that a signature by it verifies.
pub verify_presentation-present :
    (s : Suite) (o : PresentOptions) (uuid : String) (now : ℕ) (vp : VerifiablePresentation)
    (c : Primitives) (public : Key) (checker : Option (CredentialStatus → Bool)) (later : ℕ)
    (challenge domain : String)
    → present s o uuid now ≡ some vp
    → Signs s c o.holder_did o.verification_method_id o.holder_key public
    → verify_presentation s c checker later challenge domain vp ≡ (
        (challenge == "" || o.challenge == challenge)
        && (domain == "" || o.domain == domain)
        && verify_all s c checker later o.credentials)
unfolding present verify_presentation
verify_presentation-present s o uuid now vp c public checker later challenge domain e signs =
    elim (Option-cases (s.marshal_presentation (unsigned_presentation o uuid))) [
      | inl bad ↦ absurd (ground arith)
      | inr (m, encoded) ↦
          ground (arith, encoded, signs.resolves, signs.decodes m, signs.verifies m)
    ]
