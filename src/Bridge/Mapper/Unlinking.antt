-- ===== src/Bridge/Mapper/Unlinking.antt =====
-- UnlinkIdentity, and whose link goes.
use tpt_identity.Prelude.{length, ◌<◌, ◌≡◌, ◌≢◌, String, false, none, some, arith}
use tpt_identity.Prelude.Table.{delete, find-delete}
use tpt_identity.Store.Links.{is_link, links_of, list_external_links, delete_external_link}
use tpt_identity.Bridge.Mapper.{ok, Accounts, Surroundings, unlink_identity}
use tpt_identity.Bridge.Mapper.Kept.{owner, owner-none}

-- A DID with two links or more unlinks any external identity of any other DID, be it the other's last: it is the
-- caller's links that are counted, and the provider and ID that choose the link.
pub unlink_identity-foreign :
    (env : Surroundings) (caller other provider id : String) (s : Accounts)
    → caller ≢ other
    → owner provider id s.links ≡ some other
    → 1 < length (links_of caller s.links)
    → env.down 0 ≡ false
    → env.down 1 ≡ false
    → let after = unlink_identity env caller provider id s in
      (after.0 ≡ ok tt) × (owner provider id after.1.links ≡ none)
unfolding unlink_identity list_external_links delete_external_link
unlink_identity-foreign env caller other provider id s apart owned many up0 up1 = (
  ground arith,
  ground (
    arith,
    find-delete (is_link provider id) s.links,
    owner-none provider id (delete (is_link provider id) s.links),
  ),
)
