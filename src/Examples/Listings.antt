-- ===== src/Examples/Listings.antt =====
-- A registry of issuers after some calls.
use tpt_identity.Prelude.{◌≡◌, List, [], ◌∷◌, some, arith}
use tpt_identity.Marketplace.Counted.{
  Call, apply_all, entry_under, apply_all-counted, issuances, first_opened,
}

-- The name that a registration gives comes too late: the entry is there already.
abbrev calls : List Call
calls =
    Call.records "did:a" "s"
    ∷ Call.registers "did:a" "s" "Name"
    ∷ Call.registers "did:b" "s" "Other"
    ∷ Call.records "did:a" "s"
    ∷ []

apply_all-counted_example :
    entry_under "did:a:s" (apply_all calls [])
    ≡ some (record { issuer_did = "did:a"; schema_id = "s"; schema_name = ""; issued_count = 2 })
unfolding issuances first_opened
apply_all-counted_example = apply_all-counted calls "did:a:s" (omega arith)
