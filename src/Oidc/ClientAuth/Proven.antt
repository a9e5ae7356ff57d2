-- ===== src/Oidc/ClientAuth/Proven.antt =====
-- What validateClientAuth has seen of a client: oidc/provider.go.
use tpt_identity.Prelude.{
  ◌≡◌, ◌≢◌, ◌⊎◌, String, Bool, true, List, some, arith, eq_iff, Option-cases, Bool-cases, inl, inr,
  ◌==◌,
}
use tpt_identity.Store.Rows.{Client}
use tpt_identity.Store.Clients.{get_client}
use tpt_identity.Oidc.Handler.{Request}
use tpt_identity.Oidc.ClientAuth.{
  Provider, provided_secret, hash_token, accepts_secret, validate_client_auth,
}

-- The client is registered, and is either public or has the hash of the secret that is presented.
pub record Authenticated (p : Provider) (down : Bool) (r : Request) (id : String)
    (clients : List Client) : Type 0 where
  pub client : Client
  pub found : get_client down id clients ≡ some client
  pub proven :
      (client.token_endpoint_auth_method ≡ "none")
      ⊎ ((provided_secret r id ≢ "")
          × (hash_token p (provided_secret r id) ≡ client.client_secret_hash))

pub validate_client_auth-Authenticated :
    (p : Provider) (down : Bool) (r : Request) (id : String) (clients : List Client)
    → validate_client_auth p down r id clients ≡ true
    → Authenticated p down r id clients
unfolding validate_client_auth accepts_secret
validate_client_auth-Authenticated p down r id clients e =
    elim (Option-cases (get_client down id clients)) [
      | inl unknown ↦ absurd (ground arith)
      | inr (c, found) ↦ record {
        client = c;
        found = found;
        proven = elim (Bool-cases (c.token_endpoint_auth_method == "none")) [
          | inl public ↦ inl ((eq_iff c.token_endpoint_auth_method "none").0 public)
          | inr secret ↦ inr (
              ground (
                arith,
                eq_iff (provided_secret r id) "",
                eq_iff (hash_token p (provided_secret r id)) c.client_secret_hash,
              ))
        ];
      }
    ]
