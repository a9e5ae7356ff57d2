-- ===== src/Schema/Registry.antt =====
-- pkg/schema/registry.go: categories and schemas by ID, and versioned schema IDs.
-- The package's two maps are the lists of a `Registry`; a panic is `none`. A listing is in the
-- order of its list, where Go's is in no order.
pub mod Versions
use Prim.Native.Char.{Char, code}
use Prim.Native.String
use tpt_identity.Prelude.{
  ℕ, ◌+◌, ◌-◌, ◌*◌, ◌^◌, String, Bool, false, List, [], ◌∷◌, Option, none, some, not, ◌==◌, ◌&&◌,
  leb, nat_beq, if◌then◌else◌,
}
use tpt_identity.Prelude.Table.{find, upsert}
use tpt_identity.Prelude.Words.{drop_prefix}

pub record ClaimDefinition : Type 0 where
  pub name : String
  pub type : String
  pub required : Bool
  pub description : String

pub record Category : Type 0 where
  pub id : String
  pub name : String
  pub description : String
  pub icon : String

pub record Schema : Type 0 where
  pub id : String
  pub category_id : String
  pub name : String
  pub description : String
  pub version : ℕ
  pub extra_sensitive : Bool
  pub claims : List ClaimDefinition
  pub source : String

pub record Registry : Type 0 where
  pub categories : List Category
  pub schemas : List Schema

abbrev pub digits_value : String → ℕ → Option ℕ
digits_value String.[] n = some n
digits_value (String.◌∷◌ c s) n =
    let rest = digits_value s (n * 10 + (code c - b'0')) in
    if leb b'0' (code c) && leb (code c) b'9' then rest else none

abbrev pub within : ℕ → Option ℕ → Bool
within limit none = false
within limit (some n) = leb n limit

-- Whether strconv.Atoi gives no error: digits, one at least, behind an optional sign, in 64
-- bits.
unfoldable pub is_integer : String → Bool
is_integer String.[] = false
is_integer (String.◌∷◌ c String.[]) = leb b'0' (code c) && leb (code c) b'9'
is_integer (String.◌∷◌ c (String.◌∷◌ d s)) =
    let limit = 2 ^ 63 in
    if nat_beq (code c) b'-'
    then within limit (digits_value (String.◌∷◌ d s) 0)
    else if nat_beq (code c) b'+'
    then within (limit - 1) (digits_value (String.◌∷◌ d s) 0)
    else within (limit - 1) (digits_value (String.◌∷◌ c (String.◌∷◌ d s)) 0)

abbrev pub at_version : String → Option (String × String)
unfolding drop_prefix
at_version s = elim (drop_prefix "-v" s) [ none ↦ none | some rest ↦ some ("", rest) ]

abbrev pub or_later :
    Char → Option (String × String) → Option (String × String) → Option (String × String)
or_later c (some (before, behind)) first = some (String.◌∷◌ c before, behind)
or_later c none first = first

abbrev pub version_of : Schema → ℕ
version_of s = if nat_beq s.version 0 then 1 else s.version

-- VersionedID, by strconv.Itoa.
unfoldable pub versioned_id : (ℕ → String) → Schema → String
versioned_id itoa s = String.◌++◌ s.id (String.◌++◌ "-v" (itoa (version_of s)))

-- What stands before the last "-v" and what behind it.
unfoldable pub cut_last : String → Option (String × String)
cut_last String.[] = none
cut_last (String.◌∷◌ c s) = or_later c (cut_last s) (at_version (String.◌∷◌ c s))

-- BaseID, and baseID, which is the same.
unfoldable pub base_id : String → String
unfolding cut_last is_integer
base_id id = elim (cut_last id) [
  | none ↦ id
  | some (before, version) ↦ if not (before == "") && is_integer version then before else id
]

abbrev pub has_schema_id : String → Schema → Bool
has_schema_id k s = s.id == k

abbrev pub has_category_id : String → Category → Bool
has_category_id k c = c.id == k

unfoldable pub register_category : Category → Registry → Registry
register_category c r = record r {
  categories = upsert (has_category_id c.id) (λ _. c) c r.categories;
}

unfoldable pub register_schema : Schema → Registry → Option Registry
register_schema s r = elim (find (has_schema_id s.id) r.schemas) [
  | none ↦ some (record r { schemas = s ∷ r.schemas })
  | some _ ↦ none
]

abbrev pub or_base : Registry → String → Option Schema → Option Schema
or_base r id (some s) = some s
or_base r id none = if base_id id == id then none else find (has_schema_id (base_id id)) r.schemas

unfoldable pub get_schema : Registry → String → Option Schema
get_schema r id = or_base r id (find (has_schema_id id) r.schemas)

unfoldable pub get_category : Registry → String → Option Category
get_category r id = find (has_category_id id) r.categories

abbrev pub extra : Option Schema → Bool
extra none = false
extra (some s) = s.extra_sensitive

unfoldable pub is_extra_sensitive : Registry → String → Bool
is_extra_sensitive r id = extra (find (has_schema_id id) r.schemas)

unfoldable pub schemas_for_category : String → List Schema → List Schema
schemas_for_category k [] = []
schemas_for_category k (s ∷ schemas) =
    let rest = schemas_for_category k schemas in if s.category_id == k then s ∷ rest else rest

unfoldable pub all_categories : Registry → List Category
all_categories r = r.categories

unfoldable pub all_schemas : Registry → List Schema
all_schemas r = r.schemas
