-- ===== src/Bridge/Mapper.antt =====
-- internal/bridge/mapper.go: the DID that belongs to an external identity.
-- The key pair and the did:key made of it are drawn from outside; the callback after a creation,
-- whose errors are dropped, has no counterpart.
pub mod Kept
pub mod Unlinking
use tpt_identity.Prelude.{
  length, ℕ, suc, String, Bool, true, false, List, [], ◌∷◌, Option, none, some, not, ◌==◌, leb,
  if◌then◌else◌,
}
use tpt_identity.Vc.Keys.{Document}
use tpt_identity.Store.Links.{
  ExternalProviderLink, Identity, save_external_link, get_external_link, list_external_links,
  delete_external_link, save_identity, save_document,
}

pub record ExternalIdentity : Type 0 where
  pub provider : String
  pub external_id : String
  pub claims : List (String × String)
  pub duress : Bool

pub data MapError : Type 0 where
  lookup_failed no_key save_failed list_failed : MapError
  other_did last_method : MapError

pub data Mapped {ℓ} (A : Type ℓ) : Type ℓ where
  ok : A → Mapped A
  err : MapError → Mapped A

pub record Accounts : Type 0 where
  pub links : List ExternalProviderLink
  pub identities : List Identity
  pub documents : List Document

-- The clock, the did:key of a fresh key pair with its document, and which calls of the store fail.
pub record Surroundings : Type 0 where
  pub now : ℕ
  pub created : Option (String × Document)
  pub down : ℕ → Bool

abbrev pub new_link : String → ExternalIdentity → ℕ → ExternalProviderLink
new_link subject ext now = record {
  subject_did = subject;
  provider = ext.provider;
  external_id = ext.external_id;
  linked_at = now;
  last_used_at = now;
}

abbrev pub new_identity : String → ℕ → Identity
new_identity did now = record {
  did = did;
  method = "key";
  signing_key_path = "";
  enc_key_path = "";
  role = "user";
  tenant_id = "";
  created_at = now;
  updated_at = now;
}

unfoldable pub create_identity : Surroundings → Accounts → Mapped String × Accounts
unfolding save_identity save_document
create_identity env s = elim env.created [
  | none ↦ (err no_key, s)
  | some (did, doc) ↦ elim (save_identity (env.down 1) (new_identity did env.now) s.identities) [
    | none ↦ (err save_failed, s)
    | some identities ↦ elim (save_document (env.down 2) doc s.documents) [
      | none ↦ (err save_failed, record s { identities = identities })
      | some documents ↦ (ok did, record s { identities = identities; documents = documents })
    ]
  ]
]

abbrev pub with_links : Accounts → Option (List ExternalProviderLink) → Accounts
with_links s none = s
with_links s (some links) = record s { links = links }

-- The link of a new identity.
abbrev pub first_link :
    Surroundings → ExternalIdentity → Mapped String × Accounts → Mapped (String × Bool) × Accounts
first_link env ext (err e, s) = (err e, s)
first_link env ext (ok did, s) =
    elim (save_external_link (env.down 3) (new_link did ext env.now) s.links) [
      | none ↦ (err save_failed, s)
      | some links ↦ (ok (did, true), record s { links = links })
    ]

unfoldable pub find_or_create :
    Surroundings → ExternalIdentity → Accounts → Mapped (String × Bool) × Accounts
unfolding get_external_link save_external_link create_identity
find_or_create env ext s =
    elim (get_external_link (env.down 0) ext.provider ext.external_id s.links) [
      | none ↦ (err lookup_failed, s)
      | some none ↦ first_link env ext (create_identity env s)
      | some (some link) ↦
          let used = record link { last_used_at = env.now } in
          (
            ok (link.subject_did, false),
            with_links s (save_external_link (env.down 3) used s.links),
          )
    ]

unfoldable pub link_identity :
    Surroundings → String → ExternalIdentity → Accounts → Mapped (Unit {0}) × Accounts
unfolding get_external_link save_external_link
link_identity env subject ext s =
    elim (get_external_link (env.down 0) ext.provider ext.external_id s.links) [
      | none ↦ (err lookup_failed, s)
      | some none ↦ elim (save_external_link (env.down 1) (new_link subject ext env.now) s.links) [
        | none ↦ (err save_failed, s)
        | some links ↦ (ok tt, record s { links = links })
      ]
      | some (some link) ↦
          if not (link.subject_did == subject) then (err other_did, s) else (ok tt, s)
    ]

unfoldable pub unlink_identity :
    Surroundings → String → String → String → Accounts → Mapped (Unit {0}) × Accounts
unfolding list_external_links delete_external_link
unlink_identity env subject provider external_id s =
    elim (list_external_links (env.down 0) subject s.links) [
      | none ↦ (err list_failed, s)
      | some links ↦
          if leb (length links) 1
          then (err last_method, s)
          else elim (delete_external_link (env.down 1) provider external_id s.links) [
            | none ↦ (err save_failed, s)
            | some rest ↦ (ok tt, record s { links = rest })
          ]
    ]
