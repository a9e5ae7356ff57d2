-- ===== src/Schema/Registry/Versions.antt =====
-- A schema under its versioned ID.
use Prim.Native.Char.{Char, code}
use Prim.Native.String
use text.Mathlib.TextLemmas.{nil-append, cons-append, append-nil, append_cancel_left, cons≢nil}
use tpt_identity.Prelude.{
  ℕ, ◌-◌, ◌^◌, ◌≤◌, ◌≡◌, ◌≢◌, refl, sym, ap, ◌∙◌, subst, String, true, false, List, ◌∷◌, none, some,
  ◌==◌, arith, eq_iff, eq_refl, if◌then◌else◌, Option-cases, inl, inr,
}
use tpt_identity.Prelude.Table.{find}
use tpt_identity.Prelude.Words.{drop_prefix}
use tpt_identity.Schema.Registry.{
  Schema, Registry, digits_value, is_integer, at_version, cut_last, base_id, versioned_id,
  version_of, has_schema_id, register_schema, or_base, get_schema, extra, is_extra_sensitive,
}

abbrev pub AllDigits : String → Type 0
AllDigits String.[] = Unit {0}
AllDigits (String.◌∷◌ c s) = (b'0' ≤ code c) × (code c ≤ b'9') × AllDigits s

-- What strconv.Itoa writes for a number: its digits.
pub record Decimal (text : String) (n : ℕ) : Type 0 where
  pub some_digit : text ≢ ""
  pub all_digits : AllDigits text
  pub value : digits_value text 0 ≡ some n

at_version-digit : (c : Char) (s : String) → b'0' ≤ code c → at_version (String.◌∷◌ c s) ≡ none
unfolding drop_prefix
at_version-digit c s h = ground arith

cut_last-digits : (s : String) → AllDigits s → cut_last s ≡ none
unfolding cut_last
cut_last-digits String.[] h = refl
cut_last-digits (String.◌∷◌ c s) (low, high, h) =
    rw (cut_last-digits s h) (at_version-digit c s low)

-- The last "-v" is the one in front of the digits.
cut_last-version :
    (a d : String) → AllDigits d → cut_last (String.◌++◌ a (String.◌++◌ "-v" d)) ≡ some (a, d)
unfolding cut_last drop_prefix
cut_last-version String.[] d h =
    rw (nil-append, cons-append, cons-append, nil-append) (rw (cut_last-digits d h) refl)
cut_last-version (String.◌∷◌ c a) d h = rw cons-append (rw (cut_last-version a d h) refl)

-- strconv.Atoi reads what strconv.Itoa writes for a version.
is_integer-Decimal : (d : String) (n : ℕ) → Decimal d n → n ≤ 2 ^ 63 - 1 → is_integer d ≡ true
unfolding is_integer
is_integer-Decimal String.[] n h k = absurd (h.some_digit refl)
is_integer-Decimal (String.◌∷◌ c String.[]) n h k = ground (arith, h.all_digits.0, h.all_digits.1)
is_integer-Decimal (String.◌∷◌ c (String.◌∷◌ d s)) n h k =
    ground (arith, h.all_digits.0, h.all_digits.1, h.value)

base_id-version :
    (a d : String) (n : ℕ)
    → a ≢ ""
    → Decimal d n
    → n ≤ 2 ^ 63 - 1
    → base_id (String.◌++◌ a (String.◌++◌ "-v" d)) ≡ a
unfolding base_id
base_id-version a d n named h k =
    ground
      (arith, cut_last-version a d h.all_digits, is_integer-Decimal d n h k, eq_iff a "", named)

version-differs : (a d : String) → a ≢ String.◌++◌ a (String.◌++◌ "-v" d)
version-differs a d e =
    let empty : String.◌++◌ "-v" d ≡ "" =
      append_cancel_left a (String.◌++◌ "-v" d) "" (sym e ∙ sym (append-nil a)) in
    cons≢nil (sym (cons-append "-" "v" d) ∙ empty)

register_schema-added :
    (s : Schema) (r r' : Registry)
    → register_schema s r ≡ some r'
    → r' ≡ record r { schemas = s ∷ r.schemas }
unfolding register_schema
register_schema-added s r r' e = elim (Option-cases (find (has_schema_id s.id) r.schemas)) [
  | inl free ↦ ground (arith, free, e)
  | inr (_, taken) ↦ absurd (ground (arith, taken, e))
]

abbrev Found : Schema → String → Registry → Type 0
Found s id r =
    (get_schema r s.id ≡ some s)
    × (get_schema r id ≡ some s)
    × (is_extra_sensitive r s.id ≡ s.extra_sensitive)
    × (is_extra_sensitive r id ≡ false)

find-own : (s : Schema) (schemas : List Schema) → find (has_schema_id s.id) (s ∷ schemas) ≡ some s
unfolding find
find-own s schemas = ground (arith, eq_refl s.id)

find-versioned :
    (s : Schema) (schemas : List Schema) (id : String)
    → (s.id == id) ≡ false
    → find (has_schema_id id) schemas ≡ none
    → find (has_schema_id id) (s ∷ schemas) ≡ none
unfolding find
find-versioned s schemas id other fresh = ground (arith, other, fresh)

Found-added :
    (s : Schema) (r : Registry) (id : String)
    → base_id id ≡ s.id
    → (s.id == id) ≡ false
    → find (has_schema_id id) r.schemas ≡ none
    → Found s id (record r { schemas = s ∷ r.schemas })
unfolding get_schema is_extra_sensitive
Found-added s r id base other fresh =
    let own = find-own s r.schemas in
    let none_own = find-versioned s r.schemas id other fresh in
    let with_s : Registry = record r { schemas = s ∷ r.schemas } in
    (
      ap (or_base with_s s.id) own,
      ap (or_base with_s id) none_own
          ∙ ap (λ b. if b == id then none else find (has_schema_id b) (s ∷ r.schemas)) base
          ∙ ap (λ c. if c then none else find (has_schema_id s.id) (s ∷ r.schemas)) other
          ∙ own,
      ap extra own,
      ap extra none_own,
    )

-- After RegisterSchema of a schema whose versioned ID is no schema's own, GetSchema gives the
-- schema under its ID and under its versioned ID, while IsExtraSensitive answers for the
-- versioned ID that it is not sensitive, whatever the schema says. It is assumed that
-- strconv.Itoa writes the digits of the version, that the version is below 2^63, and that the ID
-- is not empty.
pub get_schema-versioned_id :
    (itoa : ℕ → String) (s : Schema) (r r' : Registry)
    → Decimal (itoa (version_of s)) (version_of s)
    → version_of s ≤ 2 ^ 63 - 1
    → s.id ≢ ""
    → find (has_schema_id (versioned_id itoa s)) r.schemas ≡ none
    → register_schema s r ≡ some r'
    → (get_schema r' s.id ≡ some s)
      × (get_schema r' (versioned_id itoa s) ≡ some s)
      × (is_extra_sensitive r' s.id ≡ s.extra_sensitive)
      × (is_extra_sensitive r' (versioned_id itoa s) ≡ false)
unfolding versioned_id
get_schema-versioned_id itoa s r r' h k named fresh e =
    let id = versioned_id itoa s in
    let base : base_id id ≡ s.id =
      base_id-version s.id (itoa (version_of s)) (version_of s) named h k in
    let other : (s.id == id) ≡ false =
      ground (arith, eq_iff s.id id, version-differs s.id (itoa (version_of s))) in
    subst (Found s id) (sym (register_schema-added s r r' e)) (Found-added s r id base other fresh)
