-- ===== src/Oidc/Token.antt =====
-- TokenHandler of oidc/provider.go: the grants behind one endpoint.
use tpt_identity.Prelude.{String, ◌==◌, if◌then◌else◌}
use tpt_identity.Oidc.Handler.{
  World, Request, Env, Handler, Reply, ok, err, refused, unsupported_grant_type,
}
use tpt_identity.Oidc.ClientAuth.{Provider, TokenResponse}
use tpt_identity.Oidc.Grants.{
  handle_auth_code_exchange, handle_refresh_token_grant, handle_client_credentials_grant,
}
use tpt_identity.Oidc.Device.{handle_device_grant}
use tpt_identity.Oidc.Exchange.{Exchanged, handle_token_exchange}

pub data TokenReply : Type 0 where
  tokens : TokenResponse → TokenReply
  exchanged : Exchanged → TokenReply

abbrev pub reply_map : {A B : Type 0} → (A → B) → Reply A × World → Reply B × World
reply_map f (ok a, w) = (ok (f a), w)
reply_map f (err e, w) = (err e, w)

-- The value of grant_type, with its default.
unfoldable pub grant_type : Request → String
grant_type r =
    let given = r.form "grant_type" in if given == "" then "authorization_code" else given

unfoldable pub token_handler : Provider → Env → Request → Handler TokenReply
token_handler p env r w =
    let grant = grant_type r in
    if grant == "authorization_code"
    then reply_map tokens (handle_auth_code_exchange p env r w)
    else if grant == "refresh_token"
    then reply_map tokens (handle_refresh_token_grant p env r w)
    else if grant == "client_credentials"
    then reply_map tokens (handle_client_credentials_grant p env r w)
    else if grant == "urn:ietf:params:oauth:grant-type:device_code"
    then reply_map tokens (handle_device_grant p env r w)
    else if grant == "urn:ietf:params:oauth:grant-type:token-exchange"
    then reply_map exchanged (handle_token_exchange p env r w)
    else (err (refused unsupported_grant_type), w)
