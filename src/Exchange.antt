-- ===== src/Exchange.antt =====
-- pkg/pe: DIF presentation exchange, the evaluation of a submission against a definition.
-- The credentials of a presentation are of any type; what is read of one is its subject as a JSON
-- object (`subject`, `none` where it does not marshal). json.Marshal of a value and fmt.Sscanf of an index are parameters too.
pub mod Paths
pub mod Met
pub mod Satisfied
use tpt_identity.Prelude.{
  ℕ, zero, suc, ℤ, pos, negsuc, ◌+◌, String, Bool, true, false, List, [], ◌∷◌, Option, none, some,
  not, length, nat_beq, ◌==◌, ◌&&◌, if◌then◌else◌,
}
use tpt_identity.Prelude.Table.{upsert}
use tpt_identity.Vc.Json.{Json, null, text, object, Members, lookup}
use tpt_identity.Exchange.Paths.{split_dots, path_digits, without_root, matches_pattern}

-- The other members of a filter (type, format, minimum, maximum) are read by nothing.
pub record Filter : Type 0 where
  pub pattern : String
  pub const : Option Json
  pub enum : List Json

pub record Field : Type 0 where
  pub path : List String
  pub filter : Option Filter
  pub optional : Bool

pub record InputDescriptor : Type 0 where
  pub id : String
  pub constraints : Option (List Field)

pub record PresentationDefinition : Type 0 where
  pub id : String
  pub input_descriptors : List InputDescriptor

pub record Descriptor : Type 0 where
  pub id : String
  pub path : String

pub record PresentationSubmission : Type 0 where
  pub definition_id : String
  pub descriptor_map : List Descriptor

pub record Reader (C : Type 0) : Type 0 where
  pub subject : C → Option Members
  pub marshal : Json → String
  -- The integer that `%d` reads, 0 where it reads none.
  pub scan : String → ℤ

-- A Go nil is `null`, also where a key is missing.
abbrev pub or_null : Option Json → Json
or_null none = null
or_null (some v) = v

abbrev pub member_of : Json → String → Json
member_of (object m) part = or_null (lookup part m)
member_of _ part = null

unfoldable pub walk : List String → Json → Json
walk [] current = current
walk (part ∷ parts) current = walk parts (if part == "" then current else member_of current part)

unfoldable pub resolve_json_path : Members → String → Json
unfolding walk split_dots without_root
resolve_json_path m path = walk (split_dots (without_root path)) (object m)

abbrev pub is_nil : Json → Bool
is_nil null = true
is_nil _ = false

-- `creds[idx]` where 0 ≤ idx < len(creds).
unfoldable pub nth {ℓ} : {A : Type ℓ} → ℕ → List A → Option A
nth n [] = none
nth zero (x ∷ xs) = some x
nth (suc n) (x ∷ xs) = nth n xs

abbrev pub at_index {ℓ} : {A : Type ℓ} → ℤ → List A → Option A
at_index (pos n) xs = nth n xs
at_index (negsuc _) xs = none

abbrev pub find_path : String → List Descriptor → Option String → Option String
find_path id [] found = found
find_path id (d ∷ ds) found = find_path id ds (if d.id == id then some d.path else found)

module _ {C : Type 0} (g : Reader C) where
  unfoldable pub json_equal : Json → Json → Bool
  json_equal a b = g.marshal a == g.marshal b

  unfoldable pub in_enum : Json → List Json → Bool
  unfolding json_equal
  in_enum v [] = false
  in_enum v (e ∷ es) = let rest = in_enum v es in if json_equal v e then true else rest

  abbrev pub const_differs : Option Json → Json → Bool
  const_differs none v = false
  const_differs (some c) v = not (json_equal v c)

  abbrev pub text_matches : String → Json → Bool
  text_matches pattern (text s) = matches_pattern pattern s
  text_matches pattern _ = false

  abbrev pub enum_or_pattern : Filter → Json → Bool
  enum_or_pattern f v = elim f.enum [
    | [] ↦ if f.pattern == "" then true else text_matches f.pattern v
    | e ∷ es ↦ in_enum v (e ∷ es)
  ]

  -- Whether applyFilter returns nil. An enumeration is the last test that is made.
  unfoldable pub apply_filter : Filter → Json → Bool
  unfolding json_equal in_enum matches_pattern
  apply_filter f v = if const_differs f.const v then false else enum_or_pattern f v

  abbrev pub passes : Option Filter → Json → Bool
  passes none v = true
  passes (some f) v = apply_filter f v

  -- The paths in their order, up to one that has a value which passes.
  unfoldable pub found_in : Members → Option Filter → List String → Bool
  unfolding resolve_json_path apply_filter
  found_in m f [] = false
  found_in m f (path ∷ paths) =
      let rest = found_in m f paths in
      if not (is_nil (resolve_json_path m path)) && passes f (resolve_json_path m path)
      then true
      else rest

  unfoldable pub check_fields : List Field → Members → Bool
  unfolding found_in
  check_fields [] m = true
  check_fields (f ∷ fs) m =
      let rest = check_fields fs m in
      if f.optional then rest else if not (found_in m f.filter f.path) then false else rest

  unfoldable pub check_constraints : List Field → C → Bool
  unfolding check_fields
  check_constraints fields cred = elim (g.subject cred) [
    | none ↦ false
    | some m ↦ check_fields fields m
  ]

  -- The first credential is taken where the path names no index.
  unfoldable pub extract_array_index : String → ℤ
  unfolding path_digits
  extract_array_index path = elim (path_digits path) [ none ↦ pos 0 | some digits ↦ g.scan digits ]

  unfoldable pub resolve_credential : List C → String → Option C
  unfolding extract_array_index
  resolve_credential creds path = at_index (extract_array_index path) creds

  abbrev pub meets : Option (List Field) → C → Bool
  meets none cred = true
  meets (some fields) cred = check_constraints fields cred

  pub record Evaluation : Type 0 where
    pub errors : ℕ
    pub matched : List (String × C)

  abbrev pub failed : Evaluation → Evaluation
  failed r = record r { errors = suc r.errors }

  abbrev pub has_key : String → String × C → Bool
  has_key id (k, _) = k == id

  abbrev pub put_match : String → C → Evaluation → Evaluation
  put_match id cred r = record r {
    matched = upsert (has_key id) (λ _. (id, cred)) (id, cred) r.matched;
  }

  abbrev pub judge : InputDescriptor → Option C → Evaluation → Evaluation
  judge d none r = failed r
  judge d (some cred) r = if meets d.constraints cred then put_match d.id cred r else failed r

  abbrev pub credential_at : List C → Option String → Option C
  credential_at creds none = none
  credential_at creds (some path) = resolve_credential creds path

  unfoldable pub evaluate_all :
      List Descriptor → List C → List InputDescriptor → Evaluation → Evaluation
  unfolding resolve_credential check_constraints
  evaluate_all entries creds [] r = r
  evaluate_all entries creds (d ∷ ds) r =
      evaluate_all entries creds ds (judge d (credential_at creds (find_path d.id entries none)) r)

  abbrev pub satisfied : PresentationDefinition → Evaluation → Bool
  satisfied def r = nat_beq r.errors 0 && nat_beq (length r.matched) (length def.input_descriptors)

  -- The evaluation and whether it is satisfied; `none` is the error that the submission is for another definition.
  unfoldable pub evaluate :
      PresentationDefinition → PresentationSubmission → List C → Option (Bool × Evaluation)
  unfolding evaluate_all
  evaluate def submission creds =
      if not (submission.definition_id == def.id)
      then none
      else (let r =
            evaluate_all submission.descriptor_map creds def.input_descriptors
              (record { errors = 0; matched = [] }) in
          some (satisfied def r, r))
