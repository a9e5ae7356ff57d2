-- ===== src/Oidc/Grants/Machine.antt =====
-- The client credentials grant of oidc/provider.go.
use tpt_identity.Prelude.{
  ◌≡◌, ◌≢◌, String, some, ◌==◌, arith, eq_iff, Option-cases, inl, inr, if◌then◌else◌,
}
use tpt_identity.Store.Rows.{Client}
use tpt_identity.Store.Clients.{get_client}
use tpt_identity.Oidc.Handler.{World, Request, Env, ok}
use tpt_identity.Oidc.Jwt.{issue_access_token}
use tpt_identity.Oidc.ClientAuth.{
  Provider, TokenResponse, provided_secret, accepts_secret, validate_client_auth, hash_token,
  access_token_ttl,
}
use tpt_identity.Oidc.Grants.{basic_id, handle_client_credentials_grant}

-- The client that the request names, in its form or by Basic authentication.
abbrev pub requesting : Request → String
requesting r = if r.form "client_id" == "" then basic_id r.basic else r.form "client_id"

pub record Machine (p : Provider) (env : Env) (r : Request) (w w' : World) (t : TokenResponse)
    : Type 0 where
  pub client : Client
  pub found : get_client (env.down 1) (requesting r) w.clients ≡ some client
  pub confidential : client.token_endpoint_auth_method ≢ "none"
  pub secret : hash_token p (provided_secret r (requesting r)) ≡ client.client_secret_hash
  pub secret_given : provided_secret r (requesting r) ≢ ""
  pub access :
      issue_access_token p.codec p.issuer
        (requesting r)
        (requesting r)
        access_token_ttl
        p.key_id
        env.now
      ≡ some t.access_token
  pub no_refresh : t.refresh_token ≡ ""
  pub unchanged : w' ≡ w

-- A client gets a token for itself only if it is registered with an authentication method other
-- than none and presents a secret with the registered hash; it gets no refresh token, and no table
-- changes.
pub handle_client_credentials_grant-Machine :
    (p : Provider) (env : Env) (r : Request) (w w' : World) (t : TokenResponse)
    → handle_client_credentials_grant p env r w ≡ (ok t, w')
    → Machine p env r w w' t
unfolding handle_client_credentials_grant validate_client_auth accepts_secret get_client
handle_client_credentials_grant-Machine p env r w w' t e =
    elim (Option-cases (get_client (env.down 1) (requesting r) w.clients)) [
      | inl unknown ↦ absurd (ground arith)
      | inr (c, found) ↦ record {
        client = c;
        found = found;
        confidential = ground (arith, eq_iff c.token_endpoint_auth_method "none");
        secret = ground (
          arith,
          eq_iff c.token_endpoint_auth_method "none",
          eq_iff (hash_token p (provided_secret r (requesting r))) c.client_secret_hash,
        );
        secret_given = ground (
          arith,
          eq_iff c.token_endpoint_auth_method "none",
          eq_iff (provided_secret r (requesting r)) "",
        );
        access = ground arith;
        no_refresh = ground arith;
        unchanged = ground arith;
      }
    ]
