-- ===== src/Examples/Schemas.antt =====
-- A registry of one schema, in its second version.
use tpt_identity.Prelude.{ℕ, ◌≡◌, refl, String, true, false, [], ◌∷◌, some, arith}
use tpt_identity.Schema.Registry.{
  Schema, Registry, register_schema, get_schema, is_extra_sensitive, versioned_id, base_id,
  cut_last, is_integer,
}
use tpt_identity.Schema.Registry.Versions.{Decimal, get_schema-versioned_id}
use tpt_identity.Prelude.Table.{find}
use tpt_identity.Prelude.Words.{drop_prefix}
use tpt_identity.Examples.Fixtures.{differ}

abbrev records : Schema
records = record {
  id = "gp-v";
  category_id = "health";
  name = "Records";
  description = "";
  version = 2;
  extra_sensitive = true;
  claims = [];
  source = "";
}

abbrev empty : Registry
empty = record { categories = []; schemas = [] }

abbrev itoa : ℕ → String
itoa n = "2"

-- Only a number behind the last "-v" is a version.
base_run : (base_id "gp-v2-v1" ≡ "gp-v2") × (base_id "gp-vx" ≡ "gp-vx") × (base_id "-v1" ≡ "-v1")
unfolding base_id cut_last is_integer drop_prefix
base_run = (refl, refl, refl)

two : Decimal "2" 2
two = record {
  some_digit = differ "2" "" refl;
  all_digits = (omega arith, omega arith, tt);
  value = refl;
}

get_schema-versioned_id_example :
    (get_schema (record empty { schemas = records ∷ [] }) "gp-v" ≡ some records)
    × (get_schema (record empty { schemas = records ∷ [] }) "gp-v-v2" ≡ some records)
    × (is_extra_sensitive (record empty { schemas = records ∷ [] }) "gp-v" ≡ true)
    × (is_extra_sensitive (record empty { schemas = records ∷ [] }) "gp-v-v2" ≡ false)
unfolding register_schema versioned_id find
get_schema-versioned_id_example =
    get_schema-versioned_id itoa records empty (record empty { schemas = records ∷ [] }) two
      (omega arith) (differ "gp-v" "" refl) refl refl
