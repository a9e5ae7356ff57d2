-- ===== src/Bridge/Mapper/Kept.antt =====
-- An external identity keeps its DID.
use tpt_identity.Prelude.{
  ◌≡◌, String, Bool, false, List, [], ◌∷◌, Option, none, some, arith, inl, inr, Option-cases,
  Bool-cases, if◌then◌else◌, eq_iff, eq_refl,
}
use tpt_identity.Prelude.Table.{find, upsert, find-holds}
use tpt_identity.Store.Links.{
  ExternalProviderLink, is_link, link_update, save_external_link, get_external_link,
}
use tpt_identity.Bridge.Mapper.{
  ExternalIdentity, Mapped, ok, err, Accounts, Surroundings, new_link, create_identity, first_link,
  find_or_create, link_identity,
}

-- The DID that the links give an external identity.
unfoldable pub owner : String → String → List ExternalProviderLink → Option String
owner provider id rows = elim (find (is_link provider id) rows) [
  | none ↦ none
  | some l ↦ some l.subject_did
]

owner-upsert :
    (provider id : String) (l : ExternalProviderLink) (rows : List ExternalProviderLink)
    → owner provider id (upsert (is_link l.provider l.external_id) (link_update l) l rows)
      ≡ (if is_link provider id l then some l.subject_did else owner provider id rows)
unfolding owner find upsert
owner-upsert provider id l [] = ground arith
owner-upsert provider id l (m ∷ rows) = elim (Bool-cases (is_link l.provider l.external_id m)) [
  | inl same ↦
      rw same (ground (arith, eq_iff m.provider l.provider, eq_iff m.external_id l.external_id))
  | inr other ↦ rw other (
      ground (
        arith,
        eq_iff m.provider l.provider,
        eq_iff m.external_id l.external_id,
        eq_iff m.provider provider,
        eq_iff m.external_id id,
        eq_iff l.provider provider,
        eq_iff l.external_id id,
        owner-upsert provider id l rows,
      ))
]

pub owner-none :
    (provider id : String) (rows : List ExternalProviderLink)
    → find (is_link provider id) rows ≡ none
    → owner provider id rows ≡ none
unfolding owner
owner-none provider id rows e = ground arith

owner-some :
    (provider id : String) (rows : List ExternalProviderLink) (l : ExternalProviderLink)
    → find (is_link provider id) rows ≡ some l
    → owner provider id rows ≡ some l.subject_did
unfolding owner
owner-some provider id rows l e = ground arith

create-links : (env : Surroundings) (s : Accounts) → (create_identity env s).1.links ≡ s.links
unfolding create_identity
create-links env s = ground arith

first_link-owner :
    (env : Surroundings) (ext : ExternalIdentity) (made : Mapped String × Accounts)
    (provider id d : String)
    → owner ext.provider ext.external_id made.1.links ≡ none
    → owner provider id made.1.links ≡ some d
    → owner provider id (first_link env ext made).1.links ≡ some d
unfolding save_external_link
first_link-owner env ext (err e, s) provider id d free e1 = e1
first_link-owner env ext (ok did, s) provider id d free e1 = ground (
  arith,
  owner-upsert provider id (new_link did ext env.now) s.links,
  eq_iff ext.provider provider,
  eq_iff ext.external_id id,
)

-- Who signs in by an external identity, and who links another to a DID, changes the DID of no external identity
-- that has one, whatever becomes of the call.
pub find_or_create-owner :
    (env : Surroundings) (ext : ExternalIdentity) (s : Accounts) (provider id d : String)
    → owner provider id s.links ≡ some d
    → owner provider id (find_or_create env ext s).1.links ≡ some d
unfolding find_or_create get_external_link save_external_link
find_or_create-owner env ext s provider id d e =
    elim (Option-cases (find (is_link ext.provider ext.external_id) s.links)) [
      | inl free ↦ ground (
        arith,
        create-links env s,
        first_link-owner env ext (create_identity env s) provider id d,
        owner-none ext.provider ext.external_id s.links free,
      )
      | inr (l, found) ↦
          let used : ExternalProviderLink = record l { last_used_at = env.now } in
          ground (
            arith,
            owner-upsert provider id used s.links,
            owner-some ext.provider ext.external_id s.links l found,
            find-holds (is_link ext.provider ext.external_id) s.links l found,
            eq_iff l.provider ext.provider,
            eq_iff l.external_id ext.external_id,
            eq_iff l.provider provider,
            eq_iff l.external_id id,
          )
    ]

link_identity-owner :
    (env : Surroundings) (subject : String) (ext : ExternalIdentity) (s : Accounts)
    (provider id d : String)
    → owner provider id s.links ≡ some d
    → owner provider id (link_identity env subject ext s).1.links ≡ some d
unfolding link_identity get_external_link save_external_link
link_identity-owner env subject ext s provider id d e =
    elim (Option-cases (find (is_link ext.provider ext.external_id) s.links)) [
      | inl free ↦ ground (
        arith,
        owner-upsert provider id (new_link subject ext env.now) s.links,
        owner-none ext.provider ext.external_id s.links free,
        eq_iff ext.provider provider,
        eq_iff ext.external_id id,
      )
      | inr (l, found) ↦ ground arith
    ]

-- What users do at the bridge: sign in by an external identity, and link one to their DID.
pub data Visit : Type 0 where
  sign_in : Surroundings → ExternalIdentity → Visit
  link : Surroundings → String → ExternalIdentity → Visit

unfoldable pub visits : List Visit → Accounts → Accounts
unfolding find_or_create link_identity
visits [] s = s
visits (sign_in env ext ∷ more) s = visits more (find_or_create env ext s).1
visits (link env subject ext ∷ more) s = visits more (link_identity env subject ext s).1

visits-owner :
    (more : List Visit) (s : Accounts) (provider id d : String)
    → owner provider id s.links ≡ some d
    → owner provider id (visits more s).links ≡ some d
unfolding visits
visits-owner [] s provider id d e = e
visits-owner (sign_in env ext ∷ more) s provider id d e =
    visits-owner more _ provider id d (find_or_create-owner env ext s provider id d e)
visits-owner (link env subject ext ∷ more) s provider id d e =
    visits-owner more _ provider id d (link_identity-owner env subject ext s provider id d e)

first_link-signed :
    (env : Surroundings) (ext : ExternalIdentity) (made : Mapped String × Accounts) (d : String)
    (new : Bool)
    → owner ext.provider ext.external_id made.1.links ≡ none
    → (first_link env ext made).0 ≡ ok (d, new)
    → owner ext.provider ext.external_id (first_link env ext made).1.links ≡ some d
unfolding save_external_link
first_link-signed env ext (err x, s) d new free e = absurd (ground arith)
first_link-signed env ext (ok did, s) d new free e = ground (
  arith,
  owner-upsert ext.provider ext.external_id (new_link did ext env.now) s.links,
  eq_refl ext.provider,
  eq_refl ext.external_id,
)

signed_in :
    (env : Surroundings) (ext : ExternalIdentity) (s : Accounts) (d : String) (new : Bool)
    → (find_or_create env ext s).0 ≡ ok (d, new)
    → owner ext.provider ext.external_id (find_or_create env ext s).1.links ≡ some d
unfolding find_or_create get_external_link save_external_link
signed_in env ext s d new e =
    elim (Option-cases (find (is_link ext.provider ext.external_id) s.links)) [
      | inl free ↦ ground (
        arith,
        create-links env s,
        owner-none ext.provider ext.external_id s.links free,
        first_link-signed env ext (create_identity env s) d new,
      )
      | inr (l, found) ↦ ground (
        arith,
        find_or_create-owner env ext s ext.provider ext.external_id l.subject_did,
        owner-some ext.provider ext.external_id s.links l found,
      )
    ]

owned :
    (env : Surroundings) (ext : ExternalIdentity) (s : Accounts) (d : String)
    → owner ext.provider ext.external_id s.links ≡ some d
    → env.down 0 ≡ false
    → (find_or_create env ext s).0 ≡ ok (d, false)
unfolding find_or_create get_external_link owner
owned env ext s d e up = elim (Option-cases (find (is_link ext.provider ext.external_id) s.links)) [
  | inl free ↦ absurd (ground arith)
  | inr (l, found) ↦ ground arith
]

-- Who has signed in by an external identity gets the same DID whenever the store answers, whoever
-- signs in by whatever external identity and links whatever to whichever DID in between.
pub sign_in-same :
    (env again : Surroundings) (ext : ExternalIdentity) (s : Accounts) (d : String) (new : Bool)
    (more : List Visit)
    → (find_or_create env ext s).0 ≡ ok (d, new)
    → again.down 0 ≡ false
    → (find_or_create again ext (visits more (find_or_create env ext s).1)).0 ≡ ok (d, false)
sign_in-same env again ext s d new more e up =
    owned again ext _ d
      (visits-owner more _ ext.provider ext.external_id d (signed_in env ext s d new e)) up
