-- ===== src/Oidc/Tokens.antt =====
-- oidc/revocation.go, oidc/introspect.go and UserinfoHandler: what becomes of an access token.
-- The package's map `revokedTokens` is the world's `revoked`, a list of hash and expiry.
pub mod Revocation
use tpt_identity.Prelude.{
  ℕ, ◌*◌, String, Bool, true, false, List, Option, none, some, not, ◌==◌, ◌||◌, ◌&&◌, ltb,
  if◌then◌else◌,
}
use tpt_identity.Prelude.Table.{find, delete, upsert}
use tpt_identity.Prelude.Words.{trim_prefix}
use tpt_identity.Store.RefreshTokens.{get_refresh_token, delete_refresh_token}
use tpt_identity.Oidc.Handler.{
  World, Request, Env, Handler, Reply, ok, status, refused, invalid_request, ◌>>=◌, ◌>>◌, pure,
  fail, reject_if, read, need, kept, with_refresh_tokens,
}
use tpt_identity.Oidc.Jwt.{Codec, Claims, second, unix, parse_unverified, verify}
use tpt_identity.Oidc.ClientAuth.{Provider, authenticate_named, hash_token}
use tpt_identity.Oidc.Grants.{basic_id}

abbrev pub has_key : String → String × ℕ → Bool
has_key k (h, _) = h == k

-- An entry behind its expiry is deleted when it is looked up.
unfoldable pub is_access_token_revoked : Provider → ℕ → String → Handler Bool
is_access_token_revoked p now token w = elim (find (has_key (hash_token p token)) w.revoked) [
  | none ↦ (ok false, w)
  | some (h, expires_at) ↦
      if ltb expires_at now
      then (ok false, record w { revoked = delete (has_key (hash_token p token)) w.revoked })
      else (ok true, w)
]

-- The client_id of the form, else the user name of Basic authentication.
unfoldable pub named_client : Request → String
named_client r = if r.form "client_id" == "" then basic_id r.basic else r.form "client_id"

-- The part for refresh tokens; the answer is the handler's variable `revoked`.
unfoldable pub revoke_refresh_token : Env → String → String → String → Handler Bool
revoke_refresh_token env client_id hint hash w =
    if hint == "" || hint == "refresh_token"
    then (elim (get_refresh_token (env.down 1) hash w.refresh_tokens) [
      | none ↦ (ok false, w)
      | some rt ↦
          if not (client_id == "") && not (rt.client_id == client_id) then (ok false, w) else (
            ok true,
            kept w
                (with_refresh_tokens w (delete_refresh_token (env.down 2) hash w.refresh_tokens)),
          )
    ])
    else (ok false, w)

unfoldable pub revoked_entry : String → ℕ → List (String × ℕ) → List (String × ℕ)
revoked_entry h expiry rows = upsert (has_key h) (λ _. (h, expiry)) (h, expiry) rows

-- The part for access tokens.
unfoldable pub revoke_access_token : Provider → ℕ → String → Handler (Unit {0})
revoke_access_token p now token w = elim (parse_unverified p.codec token) [
  | none ↦ (ok tt, w)
  | some claims ↦
      let expiry = claims.expires_at * second in
      if ltb now expiry
      then (ok tt, record w { revoked = revoked_entry (hash_token p token) expiry w.revoked })
      else (ok tt, w)
]

unfoldable pub revoke_handler : Provider → Env → Request → Handler (Unit {0})
unfolding revoke_refresh_token revoke_access_token
revoke_handler p env r = do
  let token = r.form "token"
  let hint = r.form "token_type_hint"
  let client_id = named_client r
  reject_if (token == "") (refused invalid_request)
  authenticate_named p (env.down 0) r client_id
  revoked ← revoke_refresh_token env client_id hint (hash_token p token)
  if not revoked && (hint == "" || hint == "access_token")
      then revoke_access_token p env.now token
      else pure tt

pub record IntrospectResponse : Type 0 where
  pub active : Bool
  pub sub : String
  pub client_id : String
  pub issued_at : ℕ
  pub expires_at : ℕ
  pub issuer : String

abbrev pub inactive : IntrospectResponse
inactive = record {
  active = false;
  sub = "";
  client_id = "";
  issued_at = 0;
  expires_at = 0;
  issuer = "";
}

abbrev pub active_response : Claims → IntrospectResponse
active_response c = record {
  active = true;
  sub = c.subject;
  client_id = c.audience;
  issued_at = c.issued_at;
  expires_at = c.expires_at;
  issuer = c.issuer;
}

abbrev introspect_claims : Provider → ℕ → String → Option Claims → Handler IntrospectResponse
introspect_claims p now token none = pure inactive
introspect_claims p now token (some claims) = do
  revoked ← is_access_token_revoked p now token
  pure (if revoked || ltb claims.expires_at (unix now) then inactive else active_response claims)

unfoldable pub introspect_handler : Provider → Env → Request → Handler IntrospectResponse
unfolding is_access_token_revoked
introspect_handler p env r = do
  let token = r.form "token"
  reject_if (token == "") (refused invalid_request)
  introspect_claims p env.now token (verify p.codec env.now token)

abbrev pub bearer : Request → String
unfolding trim_prefix
bearer r = trim_prefix (r.header "Authorization") "Bearer "

-- The claims that the answer is made of: its sub, did and amr.
unfoldable pub userinfo_handler : Provider → Env → Request → Handler Claims
userinfo_handler p env r = do
  reject_if (bearer r == "") (status 401)
  need (verify p.codec env.now (bearer r)) (status 401)
