-- ===== src/Oidc/Grants/Rotation.antt =====
-- The refresh token grant of oidc/provider.go.
use tpt_identity.Prelude.{
  ◌≤◌, ◌≡◌, ◌≢◌, refl, true, some, none, arith, eq_iff, Option-cases, inl, inr, if◌then◌else◌,
  String,
}
use tpt_identity.Prelude.Table.{upsert}
use tpt_identity.Store.Rows.{RefreshToken}
use tpt_identity.Store.RefreshTokens.{
  has_hash, refresh_update, get_refresh_token, save_refresh_token, delete_refresh_token,
}
use tpt_identity.Store.Spent.{spent, spent-delete, spent-issue, spent-consume}
use tpt_identity.Oidc.Handler.{World, Request, Env, ok, err, refused, invalid_grant}
use tpt_identity.Oidc.Jwt.{issue_access_token}
use tpt_identity.Oidc.ClientAuth.{Provider, TokenResponse, hash_token, access_token_ttl}
use tpt_identity.Oidc.ClientAuth.Proven.{Authenticated, validate_client_auth-Authenticated}
use tpt_identity.Oidc.Grants.{handle_refresh_token_grant, new_refresh_token}

abbrev pub presented : Provider → Request → String
presented p r = hash_token p (r.form "refresh_token")

abbrev pub marked : Env → RefreshToken → RefreshToken
marked env t = record t { used_at = some env.now }

pub record Rotated (p : Provider) (env : Env) (r : Request) (w w' : World) (t : TokenResponse)
    : Type 0 where
  pub old : RefreshToken
  pub found : get_refresh_token (env.down 0) (presented p r) w.refresh_tokens ≡ some old
  pub in_time : env.now ≤ old.expires_at
  pub unused : old.used_at ≡ none
  pub client : Authenticated p (env.down 1) r old.client_id w.clients
  pub access :
      issue_access_token p.codec p.issuer old.subject_did old.client_id access_token_ttl p.key_id
        env.now
      ≡ some t.access_token
  pub scope : t.scope ≡ old.scope
  pub drawn : env.draws 0 ≡ some t.refresh_token
  pub rows :
      let new =
        new_refresh_token p t.refresh_token old.subject_did old.client_id old.scope env.now in
      w'.refresh_tokens
      ≡ upsert (has_hash new.hash) (refresh_update new) new (
          if env.down 2
          then w.refresh_tokens
          else upsert
              (has_hash old.hash)
              (refresh_update (marked env old))
              (marked env old)
              w.refresh_tokens)

-- A refresh succeeds only with a token that is stored, in time and unused. The client that it
-- was issued to is registered, and either is public or has the SHA-256 of the secret presented.
-- The access token and the scope are those of the old token's subject; the old row is marked as
-- used (if that write does not fail) and a row for the new token is written.
pub handle_refresh_token_grant-Rotated :
    (p : Provider) (env : Env) (r : Request) (w w' : World) (t : TokenResponse)
    → handle_refresh_token_grant p env r w ≡ (ok t, w')
    → Rotated p env r w w' t
unfolding handle_refresh_token_grant save_refresh_token
handle_refresh_token_grant-Rotated p env r w w' t e =
    elim (Option-cases (get_refresh_token (env.down 0) (presented p r) w.refresh_tokens)) [
      | inl missing ↦ absurd (ground arith)
      | inr (old, found) ↦ record {
        old = old;
        found = found;
        in_time = ground arith;
        unused = ground arith;
        client =
            validate_client_auth-Authenticated p (env.down 1) r old.client_id w.clients
              (ground arith);
        access = ground arith;
        scope = ground arith;
        drawn = ground arith;
        rows = ground arith;
      }
    ]

-- The tokens that the request can add go by another hash.
abbrev pub Avoids : Provider → Env → String → Type 0
Avoids p env h = (raw : String) → env.draws 0 ≡ some raw → hash_token p raw ≢ h

-- A spent token stays spent, whatever is asked of the refresh grant.
pub handle_refresh_token_grant-spent :
    (p : Provider) (env : Env) (r : Request) (w : World) (h : String)
    → Avoids p env h
    → spent h w.refresh_tokens ≡ true
    → spent h (handle_refresh_token_grant p env r w).1.refresh_tokens ≡ true
unfolding handle_refresh_token_grant save_refresh_token delete_refresh_token
handle_refresh_token_grant-spent p env r w h avoids e =
    elim (Option-cases (get_refresh_token (env.down 0) (presented p r) w.refresh_tokens)) [
      | inl missing ↦ ground arith
      | inr (old, found) ↦ elim (Option-cases (env.draws 0)) [
        | inl dry ↦ ground (
          arith,
          spent-delete h (presented p r) w.refresh_tokens,
          spent-consume h (marked env old) w.refresh_tokens refl,
        )
        | inr (raw, drawn) ↦
            let new = new_refresh_token p raw old.subject_did old.client_id old.scope env.now in
            ground (
              arith,
              spent-delete h (presented p r) w.refresh_tokens,
              spent-consume h (marked env old) w.refresh_tokens refl,
              spent-issue h new w.refresh_tokens (avoids raw drawn),
              spent-issue h new
                  (upsert (has_hash old.hash) (refresh_update (marked env old)) (marked env old)
                    w.refresh_tokens)
                  (avoids raw drawn),
            )
      ]
    ]

-- A spent token is refused.
pub spent_refused :
    (p : Provider) (env : Env) (r : Request) (w : World)
    → r.form "refresh_token" ≢ ""
    → spent (presented p r) w.refresh_tokens ≡ true
    → (handle_refresh_token_grant p env r w).0 ≡ err (refused invalid_grant)
unfolding handle_refresh_token_grant spent get_refresh_token
spent_refused p env r w given e = ground (arith, eq_iff (r.form "refresh_token") "")
