-- ===== src/Store/Links.antt =====
-- internal/store: external_provider_links, whose key is the provider with the external ID, and the
-- identities and DID documents that the bridge writes.
use tpt_identity.Prelude.{
  ℕ, String, Bool, List, [], ◌∷◌, Option, none, some, ◌==◌, ◌&&◌, leb, if◌then◌else◌,
}
use tpt_identity.Prelude.Table.{find, delete, upsert}
use tpt_identity.Vc.Keys.{Document}

pub record ExternalProviderLink : Type 0 where
  pub subject_did : String
  pub provider : String
  pub external_id : String
  pub linked_at : ℕ
  pub last_used_at : ℕ

pub record Identity : Type 0 where
  pub did : String
  pub method : String
  pub signing_key_path : String
  pub enc_key_path : String
  pub role : String
  pub tenant_id : String
  pub created_at : ℕ
  pub updated_at : ℕ

abbrev pub is_link : String → String → ExternalProviderLink → Bool
is_link provider id l = l.provider == provider && l.external_id == id

abbrev pub link_update : ExternalProviderLink → ExternalProviderLink → ExternalProviderLink
link_update new old = record old { subject_did = new.subject_did; last_used_at = new.last_used_at }

unfoldable pub save_external_link :
    Bool → ExternalProviderLink → List ExternalProviderLink → Option (List ExternalProviderLink)
save_external_link down l rows =
    if down then none else some (upsert (is_link l.provider l.external_id) (link_update l) l rows)

-- No row is `some none`.
unfoldable pub get_external_link :
    Bool → String → String → List ExternalProviderLink → Option (Option ExternalProviderLink)
get_external_link down provider id rows =
    if down then none else some (find (is_link provider id) rows)

-- ORDER BY linked_at DESC.
unfoldable pub by_linked_at :
    ExternalProviderLink → List ExternalProviderLink → List ExternalProviderLink
by_linked_at l [] = l ∷ []
by_linked_at l (m ∷ rest) =
    let later = m ∷ by_linked_at l rest in
    if leb m.linked_at l.linked_at then l ∷ m ∷ rest else later

unfoldable pub links_of : String → List ExternalProviderLink → List ExternalProviderLink
unfolding by_linked_at
links_of subject [] = []
links_of subject (l ∷ rows) =
    let rest = links_of subject rows in
    if l.subject_did == subject then by_linked_at l rest else rest

unfoldable pub list_external_links :
    Bool → String → List ExternalProviderLink → Option (List ExternalProviderLink)
unfolding links_of
list_external_links down subject rows = if down then none else some (links_of subject rows)

unfoldable pub delete_external_link :
    Bool → String → String → List ExternalProviderLink → Option (List ExternalProviderLink)
delete_external_link down provider id rows =
    if down then none else some (delete (is_link provider id) rows)

abbrev pub has_did : String → Identity → Bool
has_did k i = i.did == k

abbrev pub identity_update : Identity → Identity → Identity
identity_update new old = record old {
  signing_key_path = new.signing_key_path;
  enc_key_path = new.enc_key_path;
  role = new.role;
  tenant_id = new.tenant_id;
  updated_at = new.updated_at;
}

abbrev pub with_role : Identity → Identity
with_role i = record i { role = if i.role == "" then "user" else i.role }

unfoldable pub save_identity : Bool → Identity → List Identity → Option (List Identity)
save_identity down i rows =
    let row = with_role i in
    if down then none else some (upsert (has_did i.did) (identity_update row) row rows)

abbrev pub has_document : String → Document → Bool
has_document k d = d.id == k

unfoldable pub save_document : Bool → Document → List Document → Option (List Document)
save_document down d rows = if down then none else some (upsert (has_document d.id) (λ _. d) d rows)
