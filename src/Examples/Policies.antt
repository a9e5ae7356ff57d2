-- ===== src/Examples/Policies.antt =====
-- Lockout, consent and the audit log at concrete inputs.
use tpt_identity.Prelude.{ℕ, ◌≡◌, refl, false, true, List, [], ◌∷◌, none, some}
use tpt_identity.Prelude.Table.{find}
use tpt_identity.Authn.Lockout.{check_locked}
use tpt_identity.Authn.Lockout.Counting.{fail_at, count, check_locked-fail_at}
use tpt_identity.Schema.Registry.{Schema, Registry, get_schema}
use tpt_identity.Consent.Policy.{
  add_grant, Grant, grant_schema, covers, admits, any_admits, can_access, validate_grant,
  valid_level, add_grant, revoke_grant,
}
use tpt_identity.Consent.Policy.Access.{
  none_yet, Change, change, change_all, Individual, Has, can_access-Individual,
}
use tpt_identity.Audit.Log.{Digest, handle}
use tpt_identity.Audit.Log.Chain.{Chained, start, handle-Chained}

abbrev five_times : List ℕ
five_times = 4 ∷ 3 ∷ 2 ∷ 1 ∷ []

check_locked-fail_at_example :
    check_locked false 6 "alice" (fail_at "alice" (5 ∷ five_times) []) ≡ true
unfolding count find
check_locked-fail_at_example = check_locked-fail_at "alice" 5 five_times [] 6 refl

abbrev sensitive : Schema
sensitive = record {
  id = "health.mental";
  category_id = "health";
  name = "Mental";
  description = "";
  version = 1;
  extra_sensitive = true;
  claims = [];
  source = "core";
}

abbrev registry : Registry
registry = record { categories = []; schemas = sensitive ∷ [] }

abbrev grant : Grant
grant = record {
  id = "g1";
  subject_did = "did:alice";
  relying_did = "did:clinic";
  level = grant_schema;
  scope_id = "health.mental";
  granted_at = 0;
  expires_at = some 100;
  revoked_at = none;
  explicitly_confirmed = true;
}

added_run : add_grant registry grant [] ≡ some (grant ∷ [])
unfolding add_grant validate_grant valid_level get_schema find
added_run = refl

granted_access :
    can_access registry 7 "did:alice" "did:clinic" "health.mental"
      (change_all registry (Change.adds grant ∷ []) [])
    ≡ true
unfolding can_access any_admits admits covers get_schema find change_all change add_grant
    validate_grant valid_level
granted_access = refl

sensitive_found : get_schema registry "health.mental" ≡ some sensitive
unfolding get_schema find
sensitive_found = refl

can_access-Individual_example :
    Has
      (Individual 7 "did:alice" "did:clinic" "health.mental")
      (change_all registry (Change.adds grant ∷ []) [])
can_access-Individual_example =
    can_access-Individual registry 7 "did:alice" "did:clinic" "health.mental" sensitive []
      (Change.adds grant ∷ []) sensitive_found refl none_yet granted_access

abbrev withdrawn : List Grant
withdrawn = record grant { revoked_at = some 5 } ∷ []

withdrawn_run : revoke_grant 5 "g1" (grant ∷ []) ≡ some withdrawn
unfolding revoke_grant
withdrawn_run = refl

-- A digest that changes nothing.
abbrev digest : Digest
digest = record { marshal = λ t p h. t; sha256_hex = λ s. s }

handle-Chained_example : Chained digest (handle digest false false 1 "login" (some "{}") [])
handle-Chained_example = handle-Chained digest false 1 "login" (some "{}") [] start
