-- ===== src/Consent/Policy/Access.antt =====
-- Which grants stand behind an access: pkg/consent/policy.go.
use tpt_identity.Prelude.{
  ℕ, ◌≡◌, ◌⊎◌, refl, String, true, false, List, [], ◌∷◌, ◌++◌, Option, some, none, arith, eq_iff,
  eq_refl, Option-cases, Bool-cases, inl, inr, subst,
}
use tpt_identity.Schema.Registry.{Schema, Registry, get_schema}
use tpt_identity.Consent.Policy.{
  Grant, GrantLevel, grant_schema, grant_category, other_level, is_expired, covers, admits,
  any_admits, can_access, validate_grant, valid_level, add_grant, revoke_grant,
}
use tpt_identity.Consent.Policy.Withdrawal.{Revoked, this, later, revoke_grant-Revoked}

-- Every grant of the list passed validateGrant.
pub data Valid (registry : Registry) : List Grant → Type 0 where
  none_yet : Valid registry []
  with_grant :
      {g : Grant} {grants : List Grant}
      → validate_grant registry g ≡ true
      → Valid registry grants
      → Valid registry (g ∷ grants)

Valid-append :
    (registry : Registry) (g : Grant) (grants : List Grant)
    → validate_grant registry g ≡ true
    → Valid registry grants
    → Valid registry (grants ++ g ∷ [])
Valid-append registry g [] h none_yet = with_grant h none_yet
Valid-append registry g (k ∷ grants) h (with_grant v vs) =
    with_grant v (Valid-append registry g grants h vs)

-- AddGrant keeps every grant valid.
add_grant-Valid :
    (registry : Registry) (g : Grant) (grants grants' : List Grant)
    → Valid registry grants
    → add_grant registry g grants ≡ some grants'
    → Valid registry grants'
unfolding add_grant
add_grant-Valid registry g grants grants' v e = elim (Bool-cases (validate_grant registry g)) [
  | inl good ↦ subst (Valid registry) (ground arith) (Valid-append registry g grants good v)
  | inr bad ↦ absurd (ground arith)
]

-- A grant that names one schema, in force, and confirmed by the subject.
pub record Individual (now : ℕ) (subject relying schema_id : String) (g : Grant) : Type 0 where
  pub of_subject : g.subject_did ≡ subject
  pub to_relying : g.relying_did ≡ relying
  pub individual : g.level ≡ grant_schema
  pub names : g.scope_id ≡ schema_id
  pub confirmed : g.explicitly_confirmed ≡ true
  pub in_force : g.revoked_at ≡ none
  pub in_time : is_expired now g ≡ false

abbrev pub Has : (Grant → Type 0) → List Grant → Type 0
Has P [] = ⊥
Has P (g ∷ grants) = P g ⊎ Has P grants

level-schema :
    (l : GrantLevel)
    → (l ≡ grant_schema) ⊎ ((l ≡ grant_category) ⊎ ((n : String) × (l ≡ other_level n)))
level-schema grant_schema = inl refl
level-schema grant_category = inr (inl refl)
level-schema (other_level n) = inr (inr (n, refl))

admits-Individual :
    (registry : Registry) (now : ℕ) (subject relying schema_id : String) (s : Schema) (g : Grant)
    → get_schema registry schema_id ≡ some s
    → s.extra_sensitive ≡ true
    → validate_grant registry g ≡ true
    → admits now subject relying s schema_id g ≡ true
    → Individual now subject relying schema_id g
unfolding admits covers validate_grant valid_level
admits-Individual registry now subject relying schema_id s g found extra valid e = record {
  of_subject = ground (arith, eq_iff g.subject_did subject);
  to_relying = ground (arith, eq_iff g.relying_did relying);
  individual = ground (arith, level-schema g.level);
  names = ground (arith, level-schema g.level, eq_iff g.scope_id schema_id);
  confirmed = ground (arith, level-schema g.level, eq_iff g.scope_id schema_id, found);
  in_force = ground (arith, Option-cases g.revoked_at);
  in_time = ground arith;
}

any_admits-Has :
    (registry : Registry) (now : ℕ) (subject relying schema_id : String) (s : Schema)
    (grants : List Grant)
    → get_schema registry schema_id ≡ some s
    → s.extra_sensitive ≡ true
    → Valid registry grants
    → any_admits now subject relying s schema_id grants ≡ true
    → Has (Individual now subject relying schema_id) grants
unfolding any_admits
any_admits-Has registry now subject relying schema_id s [] found extra v e = ground arith
any_admits-Has registry now subject relying schema_id s (g ∷ grants) found extra (with_grant h v)
      e =
    elim (Bool-cases (admits now subject relying s schema_id g)) [
      | inl hit ↦
          inl (admits-Individual registry now subject relying schema_id s g found extra h hit)
      | inr miss ↦ inr (
          any_admits-Has registry now subject relying schema_id s grants found extra v
            (ground arith))
    ]

-- The calls that change a policy.
pub data Change : Type 0 where
  adds : Grant → Change
  revokes : ℕ → String → Change

abbrev pub or_kept : List Grant → Option (List Grant) → List Grant
or_kept grants none = grants
or_kept grants (some next) = next

unfoldable pub change : Registry → Change → List Grant → List Grant
change registry (adds g) grants = or_kept grants (add_grant registry g grants)
change registry (revokes since id) grants = or_kept grants (revoke_grant since id grants)

unfoldable pub change_all : Registry → List Change → List Grant → List Grant
change_all registry [] grants = grants
change_all registry (c ∷ changes) grants = change_all registry changes (change registry c grants)

Revoked-Valid :
    (registry : Registry) (since : ℕ) (id : String) {grants grants' : List Grant}
    → Revoked since id grants grants'
    → Valid registry grants
    → Valid registry grants'
unfolding validate_grant valid_level
Revoked-Valid registry since id (this same fresh) (with_grant h v) = with_grant h v
Revoked-Valid registry since id (later other r) (with_grant h v) =
    with_grant h (Revoked-Valid registry since id r v)

change-Valid :
    (registry : Registry) (c : Change) (grants : List Grant)
    → Valid registry grants
    → Valid registry (change registry c grants)
unfolding change
change-Valid registry (adds g) grants v = elim (Option-cases (add_grant registry g grants)) [
  | inl refused ↦ rw (refused, change) v
  | inr (next, there) ↦ rw (there, change) (add_grant-Valid registry g grants next v there)
]
change-Valid registry (revokes since id) grants v =
    elim (Option-cases (revoke_grant since id grants)) [
      | inl refused ↦ rw (refused, change) v
      | inr (next, there) ↦
          rw (there, change)
            (Revoked-Valid registry since id (revoke_grant-Revoked since id grants next there) v)
    ]

change_all-Valid :
    (registry : Registry) (changes : List Change) (grants : List Grant)
    → Valid registry grants
    → Valid registry (change_all registry changes grants)
unfolding change_all
change_all-Valid registry [] grants v = v
change_all-Valid registry (c ∷ changes) grants v =
    change_all-Valid registry changes (change registry c grants) (change-Valid registry c grants v)

-- In a policy that began with grants which pass validateGrant, if any, and after any calls of
-- AddGrant and RevokeGrant, an extra-sensitive schema can be accessed only under a grant of the
-- subject to the relying party that names that schema, was confirmed explicitly, and is neither
-- revoked nor expired.
pub can_access-Individual :
    (registry : Registry) (now : ℕ) (subject relying schema_id : String) (s : Schema)
    (initial : List Grant) (changes : List Change)
    → get_schema registry schema_id ≡ some s
    → s.extra_sensitive ≡ true
    → Valid registry initial
    → can_access registry now subject relying schema_id (change_all registry changes initial) ≡ true
    → Has (Individual now subject relying schema_id) (change_all registry changes initial)
unfolding can_access
can_access-Individual registry now subject relying schema_id s initial changes found extra v e =
    any_admits-Has registry now subject relying schema_id s (change_all registry changes initial)
      found extra (change_all-Valid registry changes initial v) (ground (arith, found))

admits-append :
    (now : ℕ) (subject relying schema_id : String) (s : Schema) (grants : List Grant) (g : Grant)
    → admits now subject relying s schema_id g ≡ true
    → any_admits now subject relying s schema_id (grants ++ g ∷ []) ≡ true
unfolding any_admits
admits-append now subject relying schema_id s [] g h = ground (arith, h)
admits-append now subject relying schema_id s (k ∷ grants) g h =
    ground (arith, admits-append now subject relying schema_id s grants g h)

-- A grant for one schema that is added, in force and in time gives its relying party access to
-- that schema of its subject.
pub add_grant-access :
    (registry : Registry) (now : ℕ) (g : Grant) (grants grants' : List Grant)
    → add_grant registry g grants ≡ some grants'
    → g.level ≡ grant_schema
    → g.revoked_at ≡ none
    → is_expired now g ≡ false
    → can_access registry now g.subject_did g.relying_did g.scope_id grants' ≡ true
unfolding add_grant can_access validate_grant valid_level admits covers
add_grant-access registry now g grants grants' e level in_force in_time =
    elim (Option-cases (get_schema registry g.scope_id)) [
      | inl unknown ↦ absurd (ground (arith, level))
      | inr (s, found) ↦ ground (
        arith,
        level,
        found,
        eq_refl g.subject_did,
        eq_refl g.relying_did,
        eq_refl g.scope_id,
        admits-append now g.subject_did g.relying_did g.scope_id s grants g,
      )
    ]
