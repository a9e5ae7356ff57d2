-- ===== src/Oidc/Grants.antt =====
-- oidc/provider.go: the authorization code, refresh token and client credentials grants.
pub mod Code
pub mod Rotation
pub mod Machine
use tpt_identity.Prelude.{
  ℕ, ◌+◌, String, Bool, true, false, Option, none, some, not, ◌==◌, ◌&&◌, ◌||◌, ltb, if◌then◌else◌,
  List, [],
}
use tpt_identity.Store.Rows.{Session, RefreshToken}
use tpt_identity.Store.Sessions.{get_session_by_code, delete_session}
use tpt_identity.Store.Clients.{get_client}
use tpt_identity.Store.Spent.{is_used}
use tpt_identity.Store.RefreshTokens.{save_refresh_token, get_refresh_token, delete_refresh_token}
use tpt_identity.Oidc.Handler.{
  World, Request, Env, Handler, ok, err, refused, internal_error, invalid_request, invalid_grant,
  invalid_client, unauthorized_client, ◌>>=◌, ◌>>◌, pure, fail, reject_if, read, need, write, try,
  with_sessions, with_refresh_tokens,
}
use tpt_identity.Oidc.Jwt.{issue_id_token, issue_access_token}
use tpt_identity.Oidc.ClientAuth.{
  Provider, TokenResponse, token_response, authenticate, verify_pkce, hash_token, id_token_ttl,
  access_token_ttl, refresh_token_ttl,
}

abbrev pub new_refresh_token : Provider → String → String → String → String → ℕ → RefreshToken
new_refresh_token p raw subject client scope now = record {
  hash = hash_token p raw;
  subject_did = subject;
  client_id = client;
  scope = scope;
  issued_at = now;
  expires_at = now + refresh_token_ttl;
  used_at = none;
}

unfoldable pub handle_auth_code_exchange : Provider → Env → Request → Handler TokenResponse
handle_auth_code_exchange p env r = do
  let code = r.form "code"
  let client_id = r.form "client_id"
  let verifier = r.form "code_verifier"
  reject_if (code == "") (refused invalid_request)
  sess ← read (λ w. get_session_by_code (env.down 0) code w.sessions) (refused invalid_grant)
  reject_if (ltb sess.expires_at env.now) (refused invalid_grant)
  reject_if (not (client_id == "") && not (client_id == sess.client_id)) (refused invalid_grant)
  reject_if (verifier == "") (refused invalid_grant)
  reject_if (sess.code_challenge == "") (refused invalid_grant)
  reject_if (not (verify_pkce p sess.code_challenge verifier)) (refused invalid_grant)
  authenticate p (env.down 1) r sess.client_id
  id_token ←
      need
        (issue_id_token p.codec p.issuer sess.subject_did sess.client_id sess.nonce id_token_ttl []
          p.key_id env.now)
        internal_error
  access_token ←
      need
        (issue_access_token p.codec p.issuer sess.subject_did sess.client_id access_token_ttl
          p.key_id env.now)
        internal_error
  raw ← need (env.draws 0) internal_error
  write λ w. with_refresh_tokens w (
      save_refresh_token (env.down 2)
        (new_refresh_token p raw sess.subject_did sess.client_id sess.scope env.now)
        w.refresh_tokens)
  try λ w. with_sessions w (delete_session (env.down 3) sess.id w.sessions)
  pure (token_response access_token id_token raw sess.scope access_token_ttl)

-- The part of handleRefreshTokenGrant for a token that is neither expired nor used.
unfoldable pub rotate : Provider → Env → Request → RefreshToken → Handler TokenResponse
rotate p env r rt = do
  authenticate p (env.down 1) r rt.client_id
  try λ w.
      with_refresh_tokens w
        (save_refresh_token (env.down 2) (record rt { used_at = some env.now }) w.refresh_tokens)
  access_token ←
      need
        (issue_access_token p.codec p.issuer rt.subject_did rt.client_id access_token_ttl p.key_id
          env.now)
        internal_error
  raw ← need (env.draws 0) internal_error
  write λ w. with_refresh_tokens w (
      save_refresh_token (env.down 3)
        (new_refresh_token p raw rt.subject_did rt.client_id rt.scope env.now) w.refresh_tokens)
  pure (token_response access_token "" raw rt.scope access_token_ttl)

-- An expired token, and one that was used before, is deleted and refused.
unfoldable pub forget : Env → String → Handler TokenResponse
forget env hash = do
  try λ w. with_refresh_tokens w (delete_refresh_token (env.down 1) hash w.refresh_tokens)
  fail (refused invalid_grant)

unfoldable pub handle_refresh_token_grant : Provider → Env → Request → Handler TokenResponse
unfolding forget rotate
handle_refresh_token_grant p env r = do
  let raw_token = r.form "refresh_token"
  let hash = hash_token p raw_token
  reject_if (raw_token == "") (refused invalid_request)
  rt ← read (λ w. get_refresh_token (env.down 0) hash w.refresh_tokens) (refused invalid_grant)
  if ltb rt.expires_at env.now || is_used rt then forget env hash else rotate p env r rt

abbrev pub basic_id : Option (String × String) → String
basic_id none = ""
basic_id (some (user, _)) = user

unfoldable pub handle_client_credentials_grant : Provider → Env → Request → Handler TokenResponse
handle_client_credentials_grant p env r = do
  let posted = r.form "client_id"
  let client_id = if posted == "" then basic_id r.basic else posted
  reject_if (client_id == "") (refused invalid_client)
  authenticate p (env.down 0) r client_id
  client ← read (λ w. get_client (env.down 1) client_id w.clients) (refused invalid_client)
  reject_if (client.token_endpoint_auth_method == "none") (refused unauthorized_client)
  let asked = r.form "scope"
  let scope = if asked == "" then client.scope else asked
  access_token ←
      need
        (issue_access_token p.codec p.issuer client_id client_id access_token_ttl p.key_id env.now)
        internal_error
  pure (token_response access_token "" "" scope access_token_ttl)
