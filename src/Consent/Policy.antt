-- ===== src/Consent/Policy.antt =====
-- pkg/consent/policy.go: grants, and the access that they give.
-- The policy's state is its list of grants in the order of their addition.
pub mod Access
pub mod Withdrawal
use tpt_identity.Prelude.{
  ℕ, String, Bool, true, false, List, [], ◌∷◌, ◌++◌, Option, none, some, not, ◌==◌, ◌&&◌, ◌||◌, ltb,
  if◌then◌else◌,
}
use tpt_identity.Schema.Registry.{Schema, Registry, get_schema, get_category}

pub data GrantLevel : Type 0 where
  grant_schema grant_category : GrantLevel
  other_level : String → GrantLevel

pub record Grant : Type 0 where
  pub id : String
  pub subject_did : String
  pub relying_did : String
  pub level : GrantLevel
  pub scope_id : String
  pub granted_at : ℕ
  pub expires_at : Option ℕ
  pub revoked_at : Option ℕ
  pub explicitly_confirmed : Bool

abbrev pub is_revoked : Grant → Bool
is_revoked g = elim g.revoked_at [ none ↦ false | some _ ↦ true ]

abbrev pub is_expired : ℕ → Grant → Bool
is_expired now g = elim g.expires_at [ none ↦ false | some until ↦ ltb until now ]

-- The switch on the level, on which the loop of CanAccess returns or goes on.
unfoldable pub covers : Schema → String → Grant → Bool
covers s schema_id g = elim g.level [
  | grant_schema ↦ g.scope_id == schema_id
  | grant_category ↦ g.scope_id == s.category_id && not s.extra_sensitive && g.explicitly_confirmed
  | other_level _ ↦ false
]

-- One turn of that loop.
unfoldable pub admits : ℕ → String → String → Schema → String → Grant → Bool
unfolding covers
admits now subject relying s schema_id g =
    if not (g.subject_did == subject) || not (g.relying_did == relying)
    then false
    else if is_revoked g
    then false
    else if is_expired now g
    then false
    else covers s schema_id g

unfoldable pub any_admits : ℕ → String → String → Schema → String → List Grant → Bool
unfolding admits
any_admits now subject relying s schema_id [] = false
any_admits now subject relying s schema_id (g ∷ grants) =
    admits now subject relying s schema_id g || any_admits now subject relying s schema_id grants

-- Whether CanAccess returns nil.
unfoldable pub can_access : Registry → ℕ → String → String → String → List Grant → Bool
unfolding any_admits
can_access registry now subject relying schema_id grants = elim (get_schema registry schema_id) [
  | none ↦ false
  | some s ↦ any_admits now subject relying s schema_id grants
]

unfoldable pub valid_level : Registry → Grant → Bool
valid_level registry g = elim g.level [
  | grant_schema ↦ elim (get_schema registry g.scope_id) [
    | none ↦ false
    | some s ↦ not (s.extra_sensitive && not g.explicitly_confirmed)
  ]
  | grant_category ↦ elim (get_category registry g.scope_id) [
    | none ↦ false
    | some _ ↦ g.explicitly_confirmed
  ]
  | other_level _ ↦ false
]

-- Whether validateGrant returns nil.
unfoldable pub validate_grant : Registry → Grant → Bool
unfolding valid_level
validate_grant registry g =
    if g.subject_did == "" || g.relying_did == "" || g.scope_id == ""
    then false
    else valid_level registry g

unfoldable pub add_grant : Registry → Grant → List Grant → Option (List Grant)
unfolding validate_grant
add_grant registry g grants = if validate_grant registry g then some (grants ++ g ∷ []) else none

abbrev onto : Grant → Option (List Grant) → Option (List Grant)
onto g none = none
onto g (some grants) = some (g ∷ grants)

-- The first grant with the ID is marked, unless it is revoked already.
unfoldable pub revoke_grant : ℕ → String → List Grant → Option (List Grant)
revoke_grant now id [] = none
revoke_grant now id (g ∷ grants) =
    let rest = onto g (revoke_grant now id grants) in
    if g.id == id
    then (if is_revoked g then none else some (record g { revoked_at = some now } ∷ grants))
    else rest
