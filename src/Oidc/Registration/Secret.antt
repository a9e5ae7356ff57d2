-- ===== src/Oidc/Registration/Secret.antt =====
-- A registered client and the secret that it is given: oidc/registration.go.
use tpt_identity.Prelude.{
  ◌≡◌, ◌≢◌, ◌∙◌, List, ◌⊎◌, refl, String, false, Option, some, none, ◌==◌, ◌||◌, arith, eq_iff,
  eq_refl,
}
use tpt_identity.Prelude.Table.{merged, upsert, find, find-upsert}
use tpt_identity.Store.Rows.{Client}
use tpt_identity.Store.Clients.{has_client_id, client_update, get_client, save_client}
use tpt_identity.Oidc.Handler.{World, Request, Env, ok}
use tpt_identity.Oidc.ClientAuth.{
  Provider, provided_secret, validate_client_auth, accepts_secret, hash_token,
}
use tpt_identity.Oidc.Registration.{RegisterClientRequest, register_client_handler}

-- What a registration leaves: the row for the new client holds the hash of the secret.
registered :
    (p : Provider) (env : Env) (q : Option RegisterClientRequest) (w w' : World) (c : Client)
    (secret : String)
    → register_client_handler p env q w ≡ (ok (c, secret), w')
    → (w'.clients ≡ upsert (has_client_id c.client_id) (client_update c) c w.clients)
      × ((c.token_endpoint_auth_method ≡ "none") ⊎ (c.client_secret_hash ≡ hash_token p secret))
unfolding register_client_handler save_client
registered p env q w w' c secret e =
    let method = c.token_endpoint_auth_method in ground (arith, eq_iff method "none")

kept_secret :
    (c : Client) (row : Option Client)
    → ((merged (client_update c) c row).token_endpoint_auth_method ≡ c.token_endpoint_auth_method)
      × ((merged (client_update c) c row).client_secret_hash ≡ c.client_secret_hash)
kept_secret c none = (refl, refl)
kept_secret c (some old) = (refl, refl)

validate-found :
    (p : Provider) (r : Request) (id : String) (clients : List Client) (d : Client)
    → find (has_client_id id) clients ≡ some d
    → validate_client_auth p false r id clients ≡ accepts_secret p d (provided_secret r id)
unfolding validate_client_auth get_client
validate-found p r id clients d found = ground (arith, found)

-- A client that was registered authenticates with the secret of the reply, and with another text
-- only if it has the same hash; a public client authenticates with any.
pub register-authenticates :
    (p : Provider) (env : Env) (q : Option RegisterClientRequest) (w w' : World) (c : Client)
    (secret : String) (r : Request)
    → register_client_handler p env q w ≡ (ok (c, secret), w')
    → provided_secret r c.client_id ≢ ""
    → validate_client_auth p false r c.client_id w'.clients ≡ (
        c.token_endpoint_auth_method == "none"
        || hash_token p (provided_secret r c.client_id) == hash_token p secret)
unfolding accepts_secret
register-authenticates p env q w w' c secret r e given =
    let done = registered p env q w w' c secret e in
    let id = c.client_id in
    let row = find (has_client_id id) w.clients in
    let found =
      find-upsert (has_client_id id) (client_update c) c w.clients (eq_refl id) (λ d h. h) in
    let valid =
      validate-found p r id (upsert (has_client_id id) (client_update c) c w.clients)
        (merged (client_update c) c row) found in
    rw done.0 (
      valid
      ∙ ground (
        arith,
        done.1,
        kept_secret c row,
        eq_iff (provided_secret r id) "",
        eq_iff c.token_endpoint_auth_method "none",
      ))
