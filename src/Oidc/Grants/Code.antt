-- ===== src/Oidc/Grants/Code.antt =====
-- The authorization code grant of oidc/provider.go.
use tpt_identity.Prelude.{
  ◌≤◌, ◌≡◌, ◌≢◌, ◌⊎◌, true, false, some, none, arith, eq_iff, Option-cases, inl, inr, if◌then◌else◌,
  String, [],
}
use tpt_identity.Prelude.Table.{delete}
use tpt_identity.Store.Rows.{Session}
use tpt_identity.Store.Sessions.{has_id, get_session_by_code, delete_session}
use tpt_identity.Store.RefreshTokens.{save_refresh_token}
use tpt_identity.Oidc.Handler.{World, Request, Env, ok, err, refused, invalid_grant, Failure}
use tpt_identity.Oidc.Jwt.{issue_access_token, issue_id_token}
use tpt_identity.Oidc.ClientAuth.{
  Provider, TokenResponse, validate_client_auth, verify_pkce, access_token_ttl, token_response,
  id_token_ttl,
}
use tpt_identity.Oidc.ClientAuth.Proven.{Authenticated, validate_client_auth-Authenticated}
use tpt_identity.Oidc.Grants.{handle_auth_code_exchange, new_refresh_token}

-- What a successful exchange has checked, on the session that the code names.
pub record Redeemed (p : Provider) (env : Env) (r : Request) (w w' : World) (t : TokenResponse)
    : Type 0 where
  pub session : Session
  pub found : get_session_by_code (env.down 0) (r.form "code") w.sessions ≡ some session
  pub code_given : r.form "code" ≢ ""
  pub in_time : env.now ≤ session.expires_at
  pub right_client : (r.form "client_id" ≡ "") ⊎ (r.form "client_id" ≡ session.client_id)
  pub challenged : session.code_challenge ≢ ""
  pub verifier : p.codec.sha256_b64 (r.form "code_verifier") ≡ session.code_challenge
  pub client : Authenticated p (env.down 1) r session.client_id w.clients
  pub access :
      issue_access_token p.codec p.issuer session.subject_did session.client_id access_token_ttl
        p.key_id env.now
      ≡ some t.access_token
  pub scope : t.scope ≡ session.scope
  pub rotates :
      save_refresh_token false
        (new_refresh_token p t.refresh_token session.subject_did session.client_id session.scope
          env.now)
        w.refresh_tokens
      ≡ some w'.refresh_tokens
  pub consumed :
      w'.sessions ≡ (if env.down 3 then w.sessions else delete (has_id session.id) w.sessions)

-- An exchange succeeds only with a code that names an unexpired session, a verifier whose SHA-256
-- is the session's challenge, and the session's client (or none) named. That client is registered,
-- and either is public or has the SHA-256 of the secret presented. The access token and the scope are those of the session, a refresh token for them is
-- stored, and the session is deleted (if that deletion does not fail).
pub handle_auth_code_exchange-Redeemed :
    (p : Provider) (env : Env) (r : Request) (w w' : World) (t : TokenResponse)
    → handle_auth_code_exchange p env r w ≡ (ok t, w')
    → Redeemed p env r w w' t
unfolding handle_auth_code_exchange verify_pkce save_refresh_token delete_session
handle_auth_code_exchange-Redeemed p env r w w' t e =
    elim (Option-cases (get_session_by_code (env.down 0) (r.form "code") w.sessions)) [
      | inl missing ↦ absurd (ground arith)
      | inr (s, found) ↦ record {
        session = s;
        found = found;
        code_given = ground (arith, eq_iff (r.form "code") "");
        in_time = ground arith;
        right_client =
            ground (arith, eq_iff (r.form "client_id") "", eq_iff (r.form "client_id") s.client_id);
        challenged = ground (arith, eq_iff s.code_challenge "");
        verifier =
            ground (arith, eq_iff (p.codec.sha256_b64 (r.form "code_verifier")) s.code_challenge);
        client =
            validate_client_auth-Authenticated p (env.down 1) r s.client_id w.clients
              (ground arith);
        access = ground arith;
        scope = ground arith;
        rotates = ground arith;
        consumed = ground arith;
      }
    ]

-- A code that no session has is refused, and nothing changes.
pub unknown_code :
    (p : Provider) (env : Env) (r : Request) (w : World)
    → r.form "code" ≢ ""
    → get_session_by_code (env.down 0) (r.form "code") w.sessions ≡ none
    → handle_auth_code_exchange p env r w ≡ (err (refused invalid_grant), w)
unfolding handle_auth_code_exchange
unknown_code p env r w given missing = ground (arith, eq_iff (r.form "code") "")

-- An exchange that fails, whatever the reason, leaves the sessions, the refresh tokens and all
-- else as they were.
failed_exchange_unchanged :
    (p : Provider) (env : Env) (r : Request) (w w' : World) (f : Failure)
    → handle_auth_code_exchange p env r w ≡ (err f, w')
    → w' ≡ w
unfolding handle_auth_code_exchange
failed_exchange_unchanged p env r w w' f e = ground arith

-- What a client has to present, and the provider to have at hand, for an exchange to succeed.
pub record Presentable (p : Provider) (env : Env) (r : Request) (w : World) (s : Session)
    : Type 0 where
  pub found : get_session_by_code (env.down 0) (r.form "code") w.sessions ≡ some s
  pub code_given : r.form "code" ≢ ""
  pub in_time : env.now ≤ s.expires_at
  pub right_client : (r.form "client_id" ≡ "") ⊎ (r.form "client_id" ≡ s.client_id)
  pub verifier_given : r.form "code_verifier" ≢ ""
  pub challenged : s.code_challenge ≢ ""
  pub verifier : p.codec.sha256_b64 (r.form "code_verifier") ≡ s.code_challenge
  pub client : validate_client_auth p (env.down 1) r s.client_id w.clients ≡ true
  pub up : env.down 2 ≡ false

module _ (p : Provider) (env : Env) (r : Request) (w : World) (s : Session) where
  -- An exchange that presents all that is asked succeeds, with the tokens that were issued for
  -- the session's subject and its scope.
  pub exchange_succeeds :
      (id access raw : String)
      → Presentable p env r w s
      → issue_id_token p.codec p.issuer s.subject_did s.client_id s.nonce id_token_ttl [] p.key_id
          env.now
        ≡ some id
      → issue_access_token p.codec p.issuer s.subject_did s.client_id access_token_ttl p.key_id
          env.now
        ≡ some access
      → env.draws 0 ≡ some raw
      → (handle_auth_code_exchange p env r w).0
        ≡ ok (token_response access id raw s.scope access_token_ttl)
  unfolding handle_auth_code_exchange verify_pkce save_refresh_token
  exchange_succeeds id access raw h signed_id signed_access drawn = ground (
    arith,
    eq_iff (r.form "code") "",
    eq_iff (r.form "client_id") "",
    eq_iff (r.form "client_id") s.client_id,
    eq_iff (r.form "code_verifier") "",
    eq_iff s.code_challenge "",
    eq_iff (p.codec.sha256_b64 (r.form "code_verifier")) s.code_challenge,
  )
