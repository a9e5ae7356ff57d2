-- ===== src/Oidc/Registration.antt =====
-- oidc/registration.go: dynamic client registration (RFC 7591).
pub mod Secret
use tpt_identity.Prelude.{
  String, Bool, true, false, List, [], ◌∷◌, Option, none, some, ◌==◌, if◌then◌else◌,
}
use tpt_identity.Store.Rows.{Client}
use tpt_identity.Store.Clients.{save_client}
use tpt_identity.Oidc.Handler.{
  World, Env, Handler, refused, internal_error, invalid_client_metadata, ◌>>=◌, ◌>>◌, pure,
  reject_if, need, write, with_clients,
}
use tpt_identity.Oidc.ClientAuth.{Provider, hash_token}

pub record RegisterClientRequest : Type 0 where
  pub client_name : String
  pub redirect_uris : List String
  pub token_endpoint_auth_method : String
  pub grant_types : List String
  pub response_types : List String
  pub scope : String
  pub backchannel_logout_uri : String

abbrev or_default : String → String → String
or_default s given = if given == "" then s else given

abbrev or_defaults : List String → List String → List String
or_defaults ss [] = ss
or_defaults ss (g ∷ given) = g ∷ given

abbrev is_empty : List String → Bool
is_empty [] = true
is_empty (_ ∷ _) = false

-- No secret for a public client.
abbrev secret_hash : Provider → String → String → String
secret_hash p method secret = if method == "none" then "" else hash_token p secret

abbrev new_client : Provider → Env → RegisterClientRequest → String → String → Client
new_client p env q id secret =
    let method = or_default "client_secret_basic" q.token_endpoint_auth_method in
    record {
      client_id = id;
      client_secret_hash = secret_hash p method secret;
      client_name = q.client_name;
      redirect_uris = q.redirect_uris;
      token_endpoint_auth_method = method;
      grant_types = or_defaults ("authorization_code" ∷ "refresh_token" ∷ []) q.grant_types;
      response_types = or_defaults ("code" ∷ []) q.response_types;
      scope = q.scope;
      tenant_id = "";
      backchannel_logout_uri = q.backchannel_logout_uri;
      post_logout_redirect_uris = [];
      created_at = env.now;
    }

-- The second draw is made only for a client with a secret.
abbrev draw_secret : Env → String → Option String
draw_secret env method = if method == "none" then some "" else env.draws 1

-- The body is `none` where it is no JSON object of this form; the reply is the client saved and
-- the secret ("" where the reply has none).
unfoldable pub register_client_handler :
    Provider → Env → Option RegisterClientRequest → Handler (Client × String)
register_client_handler p env body = do
  q ← need body (refused invalid_client_metadata)
  reject_if (is_empty q.redirect_uris) (refused invalid_client_metadata)
  reject_if (q.client_name == "") (refused invalid_client_metadata)
  id ← need (env.draws 0) internal_error
  secret ←
      need (draw_secret env (or_default "client_secret_basic" q.token_endpoint_auth_method))
        internal_error
  write λ w. with_clients w (save_client (env.down 0) (new_client p env q id secret) w.clients)
  pure (new_client p env q id secret, secret)
