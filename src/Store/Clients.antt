-- ===== src/Store/Clients.antt =====
-- internal/store/sqlite.go: the statements on oidc_clients, whose key is `client_id`.
use tpt_identity.Prelude.{String, Bool, List, Option, none, some, ◌==◌, if◌then◌else◌}
use tpt_identity.Prelude.Table.{find, delete, upsert}
use tpt_identity.Store.Rows.{Client}

abbrev pub has_client_id : String → Client → Bool
has_client_id k c = c.client_id == k

-- Every column but tenant_id and created_at is taken from the new row.
abbrev pub client_update : Client → Client → Client
client_update new old = record old {
  client_secret_hash = new.client_secret_hash;
  client_name = new.client_name;
  redirect_uris = new.redirect_uris;
  token_endpoint_auth_method = new.token_endpoint_auth_method;
  grant_types = new.grant_types;
  response_types = new.response_types;
  scope = new.scope;
  backchannel_logout_uri = new.backchannel_logout_uri;
  post_logout_redirect_uris = new.post_logout_redirect_uris;
}

unfoldable pub save_client : Bool → Client → List Client → Option (List Client)
save_client down c rows =
    if down then none else some (upsert (has_client_id c.client_id) (client_update c) c rows)

unfoldable pub get_client : Bool → String → List Client → Option Client
get_client down k rows = if down then none else find (has_client_id k) rows

unfoldable pub list_clients : Bool → List Client → Option (List Client)
list_clients down rows = if down then none else some rows

unfoldable pub delete_client : Bool → String → List Client → Option (List Client)
delete_client down k rows = if down then none else some (delete (has_client_id k) rows)
