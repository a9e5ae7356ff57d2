-- ===== src/Marketplace.antt =====
-- pkg/marketplace/registry.go: the issuers and the schemas that they offer. The map is the list
-- of its keys with their entries, and its lock has no counterpart. A count is an int64, as the
-- 64 bits of it.
pub mod Counted
use tpt_identity.Prelude.{ℕ, ◌+◌, ◌%◌, ◌^◌, String, Bool, List, [], ◌∷◌, map, ◌==◌}
use tpt_identity.Prelude.Table.{upsert}
use Prim.Native.String

pub record Entry : Type 0 where
  pub issuer_did : String
  pub schema_id : String
  pub schema_name : String
  pub issued_count : ℕ

abbrev pub Registry : Type 0
Registry = List (String × Entry)

abbrev pub key_of : String → String → String
key_of issuer schema = String.◌++◌ issuer (String.◌++◌ ":" schema)

abbrev pub is_key : String → String × Entry → Bool
is_key k (l, e) = l == k

abbrev pub one_more : Entry → Entry
one_more e = record e { issued_count = (e.issued_count + 1) % 2 ^ 64 }

abbrev pub count_one : String × Entry → String × Entry
count_one (k, e) = (k, one_more e)

abbrev pub new_entry : String → String → String → Entry
new_entry issuer schema name = record {
  issuer_did = issuer;
  schema_id = schema;
  schema_name = name;
  issued_count = 0;
}

unfoldable pub register : String → String → String → Registry → Registry
register issuer schema name r =
    upsert (is_key (key_of issuer schema)) (λ old. old)
      (key_of issuer schema, new_entry issuer schema name) r

unfoldable pub record_issuance : String → String → Registry → Registry
record_issuance issuer schema r =
    upsert (is_key (key_of issuer schema)) count_one
      (key_of issuer schema, one_more (new_entry issuer schema "")) r

unfoldable pub list : Registry → List Entry
list r = map (λ p. p.1) r
