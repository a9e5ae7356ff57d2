-- ===== src/Oidc/History.antt =====
-- What a history of grants leaves possible.
pub mod Codes
use tpt_identity.Prelude.{
  ◌≡◌, ◌≢◌, refl, true, false, arith, String, Option-cases, inl, inr, eq_iff,
}
use tpt_identity.Prelude.Table.{upsert, find-holds}
use tpt_identity.Store.Spent.{spent, spent-issue, spent-mark}
use tpt_identity.Store.Sessions.{get_session_by_code}
use tpt_identity.Store.Requests.{get_device_code}
use tpt_identity.Store.RefreshTokens.{
  has_hash, refresh_update, save_refresh_token, get_refresh_token,
}
use tpt_identity.Oidc.Handler.{World, Request, Env, Reply, ok, err, refused, invalid_grant}
use tpt_identity.Oidc.ClientAuth.{Provider, TokenResponse}
use tpt_identity.Oidc.Grants.{
  handle_auth_code_exchange, handle_refresh_token_grant, handle_client_credentials_grant,
  new_refresh_token,
}
use tpt_identity.Oidc.Grants.Rotation.{
  presented, marked, Avoids, handle_refresh_token_grant-Rotated, handle_refresh_token_grant-spent,
  spent_refused,
}
use tpt_identity.Oidc.Device.{handle_device_grant}
use tpt_identity.Oidc.Exchange.{handle_token_exchange}
use tpt_identity.Oidc.Token.{tokens, exchanged, reply_map, token_handler}

handle_auth_code_exchange-spent :
    (p : Provider) (env : Env) (r : Request) (w : World) (h : String)
    → Avoids p env h
    → spent h w.refresh_tokens ≡ true
    → spent h (handle_auth_code_exchange p env r w).1.refresh_tokens ≡ true
unfolding handle_auth_code_exchange save_refresh_token
handle_auth_code_exchange-spent p env r w h avoids e =
    elim (Option-cases (get_session_by_code (env.down 0) (r.form "code") w.sessions)) [
      | inl missing ↦ ground arith
      | inr (s, found) ↦ elim (Option-cases (env.draws 0)) [
        | inl dry ↦ ground arith
        | inr (raw, drawn) ↦
            let new = new_refresh_token p raw s.subject_did s.client_id s.scope env.now in
            ground (arith, spent-issue h new w.refresh_tokens (avoids raw drawn))
      ]
    ]

handle_device_grant-spent :
    (p : Provider) (env : Env) (r : Request) (w : World) (h : String)
    → Avoids p env h
    → spent h w.refresh_tokens ≡ true
    → spent h (handle_device_grant p env r w).1.refresh_tokens ≡ true
unfolding handle_device_grant save_refresh_token
handle_device_grant-spent p env r w h avoids e =
    elim (Option-cases (get_device_code (env.down 0) (r.form "device_code") w.device_codes)) [
      | inl missing ↦ ground arith
      | inr (d, found) ↦ elim (Option-cases (env.draws 0)) [
        | inl dry ↦ ground arith
        | inr (raw, drawn) ↦
            let new = new_refresh_token p raw d.subject_did d.client_id d.scope env.now in
            ground (arith, spent-issue h new w.refresh_tokens (avoids raw drawn))
      ]
    ]

pub handle_client_credentials_grant-world :
    (p : Provider) (env : Env) (r : Request) (w : World)
    → (handle_client_credentials_grant p env r w).1 ≡ w
unfolding handle_client_credentials_grant
handle_client_credentials_grant-world p env r w = ground arith

pub handle_token_exchange-world :
    (p : Provider) (env : Env) (r : Request) (w : World) → (handle_token_exchange p env r w).1 ≡ w
unfolding handle_token_exchange
handle_token_exchange-world p env r w = ground arith

pub reply_map-world : {A B : Type 0} (f : A → B) (r : Reply A × World) → (reply_map f r).1 ≡ r.1
reply_map-world f (ok a, w) = refl
reply_map-world f (err e, w) = refl

token_handler-spent :
    (p : Provider) (env : Env) (r : Request) (w : World) (h : String)
    → Avoids p env h
    → spent h w.refresh_tokens ≡ true
    → spent h (token_handler p env r w).1.refresh_tokens ≡ true
unfolding token_handler
token_handler-spent p env r w h avoids e = ground (
  arith,
  reply_map-world tokens (handle_auth_code_exchange p env r w),
  handle_auth_code_exchange-spent p env r w h avoids e,
  reply_map-world tokens (handle_refresh_token_grant p env r w),
  handle_refresh_token_grant-spent p env r w h avoids e,
  reply_map-world tokens (handle_client_credentials_grant p env r w),
  handle_client_credentials_grant-world p env r w,
  reply_map-world tokens (handle_device_grant p env r w),
  handle_device_grant-spent p env r w h avoids e,
  reply_map-world exchanged (handle_token_exchange p env r w),
  handle_token_exchange-world p env r w,
)

-- Any number of requests of the token endpoint, one after another, with any surroundings and
-- whatever they answer, as long as no token that is drawn has the hash `h`.
pub data Calls (p : Provider) (h : String) (w : World) : World → Type 0 where
  here : Calls p h w w
  asks :
      {v : World}
      → Calls p h w v
      → (env : Env) (r : Request) → Avoids p env h
      → Calls p h w (token_handler p env r v).1

Calls-spent :
    (p : Provider) (h : String) (w : World) {v : World}
    → spent h w.refresh_tokens ≡ true
    → Calls p h w v
    → spent h v.refresh_tokens ≡ true
Calls-spent p h w e here = e
Calls-spent p h w e (asks {v} c env r a) = token_handler-spent p env r v h a (Calls-spent p h w e c)

-- A rotation in which the mark was written leaves the presented token spent.
rotated_spent :
    (p : Provider) (env : Env) (r : Request) (w w' : World) (t : TokenResponse)
    → Avoids p env (presented p r)
    → env.down 2 ≡ false
    → handle_refresh_token_grant p env r w ≡ (ok t, w')
    → spent (presented p r) w'.refresh_tokens ≡ true
unfolding get_refresh_token
rotated_spent p env r w w' t avoids up e =
    let d = handle_refresh_token_grant-Rotated p env r w w' t e in
    let new =
      new_refresh_token p t.refresh_token d.old.subject_did d.old.client_id d.old.scope env.now in
    let rows =
      upsert (has_hash d.old.hash) (refresh_update (marked env d.old)) (marked env d.old)
        w.refresh_tokens in
    let same : d.old.hash ≡ presented p r = ground (
      arith,
      d.found,
      eq_iff d.old.hash (presented p r),
      find-holds (has_hash (presented p r)) w.refresh_tokens d.old,
    ) in
    ground (
      arith,
      same,
      d.rows,
      up,
      spent-issue (presented p r) new rows (avoids t.refresh_token d.drawn),
      spent-mark (marked env d.old) w.refresh_tokens refl,
    )

-- A refresh token is redeemed once: after a rotation in which the mark on the old row was written,
-- and any history of requests of the token endpoint, every further request that presents the token is refused.
pub refresh_single_use :
    (p : Provider) (env env' : Env) (r r' : Request) (w w' v : World) (t : TokenResponse)
    → env.down 2 ≡ false
    → Avoids p env (presented p r)
    → handle_refresh_token_grant p env r w ≡ (ok t, w')
    → Calls p (presented p r) w' v
    → r'.form "refresh_token" ≢ ""
    → presented p r' ≡ presented p r
    → (handle_refresh_token_grant p env' r' v).0 ≡ err (refused invalid_grant)
refresh_single_use p env env' r r' w w' v t up avoids e calls given same =
    spent_refused p env' r' v given
      (rw same (Calls-spent p (presented p r) w' (rotated_spent p env r w w' t avoids up e) calls))
