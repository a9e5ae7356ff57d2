-- ===== src/Consent/Policy/Withdrawal.antt =====
-- What a revocation takes away, and what it keeps: pkg/consent/policy.go.
use tpt_identity.Prelude.{
  ℕ, ◌≡◌, ◌≢◌, String, true, false, List, [], ◌∷◌, some, none, ◌==◌, arith, eq_iff, Option-cases,
  Bool-cases, inl, inr, subst,
}
use tpt_identity.Schema.Registry.{Schema, Registry, get_schema}
use tpt_identity.Consent.Policy.{Grant, admits, any_admits, can_access, revoke_grant}

-- The lists differ in one grant: an unrevoked one with this ID is revoked, at this time.
pub data Revoked (now : ℕ) (id : String) : List Grant → List Grant → Type 0 where
  this :
      {g : Grant} {grants : List Grant}
      → g.id ≡ id
      → g.revoked_at ≡ none
      → Revoked now id (g ∷ grants) (record g { revoked_at = some now } ∷ grants)
  later :
      {g : Grant} {grants grants' : List Grant}
      → g.id ≢ id
      → Revoked now id grants grants'
      → Revoked now id (g ∷ grants) (g ∷ grants')

-- A revocation that succeeds deletes no grant: it marks the first one with the ID, which was not
-- revoked before, and leaves all the others as they were.
pub revoke_grant-Revoked :
    (now : ℕ) (id : String) (grants grants' : List Grant)
    → revoke_grant now id grants ≡ some grants'
    → Revoked now id grants grants'
unfolding revoke_grant
revoke_grant-Revoked now id [] grants' e = absurd (ground arith)
revoke_grant-Revoked now id (g ∷ grants) grants' e = elim (Bool-cases (g.id == id)) [
  | inl hit ↦
      let next : record g { revoked_at = some now } ∷ grants ≡ grants' = ground arith in
      subst (Revoked now id (g ∷ grants)) next
        (this ((eq_iff g.id id).0 hit) (ground (arith, Option-cases g.revoked_at)))
  | inr miss ↦ elim (Option-cases (revoke_grant now id grants)) [
    | inl none_left ↦ absurd (ground arith)
    | inr (rest, done) ↦
        let next : g ∷ rest ≡ grants' = ground arith in
        subst (Revoked now id (g ∷ grants)) next
          (later (ground (arith, eq_iff g.id id)) (revoke_grant-Revoked now id grants rest done))
  ]
]

any_admits-Revoked :
    (now since : ℕ) (id subject relying schema_id : String) (s : Schema)
    {grants grants' : List Grant}
    → Revoked since id grants grants'
    → any_admits now subject relying s schema_id grants' ≡ true
    → any_admits now subject relying s schema_id grants ≡ true
unfolding any_admits admits
any_admits-Revoked now since id subject relying schema_id s (this same fresh) e = ground arith
any_admits-Revoked now since id subject relying schema_id s (later other r) e =
    ground (arith, any_admits-Revoked now since id subject relying schema_id s r)

-- A revocation gives nobody an access that was not there before.
revoke_grant-access :
    (registry : Registry) (now since : ℕ) (id subject relying schema_id : String)
    (grants grants' : List Grant)
    → revoke_grant since id grants ≡ some grants'
    → can_access registry now subject relying schema_id grants' ≡ true
    → can_access registry now subject relying schema_id grants ≡ true
unfolding can_access
revoke_grant-access registry now since id subject relying schema_id grants grants' e h =
    elim (Option-cases (get_schema registry schema_id)) [
      | inl unknown ↦ ground arith
      | inr (s, found) ↦ ground (
        arith,
        any_admits-Revoked now since id subject relying schema_id s
            (revoke_grant-Revoked since id grants grants' e),
      )
    ]

-- One grant has the ID, and no other one admits the access.
pub data Sole (now : ℕ) (id subject relying schema_id : String) (s : Schema)
    : List Grant → Type 0 where
  sole :
      {g : Grant} {grants : List Grant}
      → g.id ≡ id
      → any_admits now subject relying s schema_id grants ≡ false
      → Sole now id subject relying schema_id s (g ∷ grants)
  behind :
      {g : Grant} {grants : List Grant}
      → g.id ≢ id
      → admits now subject relying s schema_id g ≡ false
      → Sole now id subject relying schema_id s grants
      → Sole now id subject relying schema_id s (g ∷ grants)

any_admits-Sole :
    (now since : ℕ) (id subject relying schema_id : String) (s : Schema)
    {grants grants' : List Grant}
    → Revoked since id grants grants'
    → Sole now id subject relying schema_id s grants
    → any_admits now subject relying s schema_id grants' ≡ false
unfolding any_admits admits
any_admits-Sole now since id subject relying schema_id s (this {g} same fresh) (sole _ quiet) =
    ground (arith, quiet)
any_admits-Sole now since id subject relying schema_id s (this same fresh) (behind other _ _) =
    absurd (other same)
any_admits-Sole now since id subject relying schema_id s (later other r) (sole same _) =
    absurd (other same)
any_admits-Sole now since id subject relying schema_id s (later _ r) (behind _ quiet rest) =
    ground (arith, quiet, any_admits-Sole now since id subject relying schema_id s r rest)

-- The revocation of the only grant that admits an access ends that access.
pub revoke_grant-ends :
    (registry : Registry) (now since : ℕ) (id subject relying schema_id : String) (s : Schema)
    (grants grants' : List Grant)
    → get_schema registry schema_id ≡ some s
    → Sole now id subject relying schema_id s grants
    → revoke_grant since id grants ≡ some grants'
    → can_access registry now subject relying schema_id grants' ≡ false
unfolding can_access
revoke_grant-ends registry now since id subject relying schema_id s grants grants' found only e =
    ground (
      arith,
      found,
      any_admits-Sole now since id subject relying schema_id s
          (revoke_grant-Revoked since id grants grants' e) only,
    )
