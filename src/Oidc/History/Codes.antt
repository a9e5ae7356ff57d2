-- ===== src/Oidc/History/Codes.antt =====
-- What a history of authorizations and token requests leaves of a code: oidc/provider.go.
use tpt_identity.Prelude.{
  ◌≡◌, ◌≢◌, false, arith, String, List, none, some, Option-cases, inl, inr, eq_iff,
}
use tpt_identity.Prelude.Table.{find, upsert, find-delete-none}
use tpt_identity.Store.Rows.{Session}
use tpt_identity.Store.Sessions.{
  has_id, has_code, session_update, save_session, get_session_by_code, delete_session,
}
use tpt_identity.Store.Codes.{UniqueCodes, find-delete_code}
use tpt_identity.Oidc.Handler.{World, Request, Env, ok, err, refused, invalid_grant}
use tpt_identity.Oidc.ClientAuth.{Provider, TokenResponse}
use tpt_identity.Oidc.Grants.{
  handle_auth_code_exchange, handle_refresh_token_grant, handle_client_credentials_grant,
}
use tpt_identity.Oidc.Grants.Code.{handle_auth_code_exchange-Redeemed, unknown_code}
use tpt_identity.Oidc.Device.{handle_device_grant}
use tpt_identity.Oidc.Exchange.{handle_token_exchange}
use tpt_identity.Oidc.Authorize.{new_session, authorize_with}
use tpt_identity.Oidc.Token.{tokens, exchanged, token_handler}
use tpt_identity.Oidc.History.{
  reply_map-world, handle_client_credentials_grant-world, handle_token_exchange-world,
}

-- No session has the code.
abbrev pub Gone : String → World → Type 0
Gone k w = find (has_code k) w.sessions ≡ none

-- The code that the request draws, if any, is another one.
abbrev pub DrawsOther : Env → String → Type 0
DrawsOther env k = (code : String) → env.draws 0 ≡ some code → code ≢ k

find-save :
    (s : Session) (rows : List Session) (k : String)
    → s.code ≢ k
    → find (has_code k) rows ≡ none
    → find (has_code k) (upsert (has_id s.id) (session_update s) s rows) ≡ none
unfolding find upsert
find-save s List.[] k d e = ground (arith, eq_iff s.code k, d)
find-save s (List.◌∷◌ t rows) k d e = ground (arith, eq_iff s.code k, d, find-save s rows k d)

handle_auth_code_exchange-Gone :
    (p : Provider) (env : Env) (r : Request) (w : World) (k : String)
    → Gone k w
    → Gone k (handle_auth_code_exchange p env r w).1
unfolding handle_auth_code_exchange delete_session
handle_auth_code_exchange-Gone p env r w k e =
    elim (Option-cases (get_session_by_code (env.down 0) (r.form "code") w.sessions)) [
      | inl missing ↦ ground (arith, e)
      | inr (s, found) ↦ ground (arith, e, find-delete-none (has_id s.id) (has_code k) w.sessions e)
    ]

handle_refresh_token_grant-sessions :
    (p : Provider) (env : Env) (r : Request) (w : World)
    → (handle_refresh_token_grant p env r w).1.sessions ≡ w.sessions
unfolding handle_refresh_token_grant
handle_refresh_token_grant-sessions p env r w = ground arith

handle_device_grant-sessions :
    (p : Provider) (env : Env) (r : Request) (w : World)
    → (handle_device_grant p env r w).1.sessions ≡ w.sessions
unfolding handle_device_grant
handle_device_grant-sessions p env r w = ground arith

token_handler-Gone :
    (p : Provider) (env : Env) (r : Request) (w : World) (k : String)
    → Gone k w
    → Gone k (token_handler p env r w).1
unfolding token_handler
token_handler-Gone p env r w k e = ground (
  arith,
  e,
  reply_map-world tokens (handle_auth_code_exchange p env r w),
  handle_auth_code_exchange-Gone p env r w k e,
  reply_map-world tokens (handle_refresh_token_grant p env r w),
  handle_refresh_token_grant-sessions p env r w,
  reply_map-world tokens (handle_client_credentials_grant p env r w),
  handle_client_credentials_grant-world p env r w,
  reply_map-world tokens (handle_device_grant p env r w),
  handle_device_grant-sessions p env r w,
  reply_map-world exchanged (handle_token_exchange p env r w),
  handle_token_exchange-world p env r w,
)

authorize_with-Gone :
    (env : Env) (r : Request) (q : String → String) (w : World) (k : String)
    → DrawsOther env k
    → Gone k w
    → Gone k (authorize_with env r q w).1
unfolding authorize_with save_session new_session
authorize_with-Gone env r q w k other e = elim (Option-cases (env.draws 0)) [
  | inl dry ↦ ground (arith, e)
  | inr (code, drawn) ↦
      let s = new_session env r (r.header "X-Subject-DID") code q in
      ground (arith, e, find-save s w.sessions k (other code drawn) e)
]

-- Any number of authorizations and of requests of the token endpoint, in any order, with any
-- surroundings and whatever they answer, as long as none draws the code `k`.
pub data Visits (p : Provider) (k : String) (w : World) : World → Type 0 where
  here : Visits p k w w
  asks :
      {v : World}
      → Visits p k w v
      → (env : Env) (r : Request) → Visits p k w (token_handler p env r v).1
  authorizes :
      {v : World}
      → Visits p k w v
      → (env : Env) (r : Request) (q : String → String) → DrawsOther env k
      → Visits p k w (authorize_with env r q v).1

Visits-Gone :
    (p : Provider) (k : String) (w : World) {v : World} → Gone k w → Visits p k w v → Gone k v
Visits-Gone p k w e here = e
Visits-Gone p k w e (asks {v} c env r) = token_handler-Gone p env r v k (Visits-Gone p k w e c)
Visits-Gone p k w e (authorizes {v} c env r q d) =
    authorize_with-Gone env r q v k d (Visits-Gone p k w e c)

redeemed-Gone :
    (p : Provider) (env : Env) (r : Request) (w w' : World) (t : TokenResponse)
    → UniqueCodes w.sessions
    → env.down 3 ≡ false
    → handle_auth_code_exchange p env r w ≡ (ok t, w')
    → (r.form "code" ≢ "") × Gone (r.form "code") w'
unfolding get_session_by_code
redeemed-Gone p env r w w' t unique up e =
    let done = handle_auth_code_exchange-Redeemed p env r w w' t e in
    (
      done.code_given,
      ground (
        arith,
        done.found,
        done.consumed,
        up,
        find-delete_code (r.form "code") w.sessions done.session unique,
      ),
    )

Gone-refused :
    (p : Provider) (env : Env) (r : Request) (w : World)
    → r.form "code" ≢ ""
    → Gone (r.form "code") w
    → handle_auth_code_exchange p env r w ≡ (err (refused invalid_grant), w)
unfolding get_session_by_code
Gone-refused p env r w given gone = unknown_code p env r w given (ground (arith, gone))

-- A code buys one token reply: after a successful exchange, in which the session's deletion did
-- not fail, and any history of authorizations and of requests of the token endpoint, a request with
-- the same code is refused and changes nothing. It is assumed that no two sessions had one code
-- before the exchange, which the table's index does not exclude, and that no authorization
-- in between draws the same code again.
pub code_redeemed_once :
    (p : Provider) (env env' : Env) (r r' : Request) (w w' v : World) (t : TokenResponse)
    → UniqueCodes w.sessions
    → env.down 3 ≡ false
    → handle_auth_code_exchange p env r w ≡ (ok t, w')
    → Visits p (r.form "code") w' v
    → r'.form "code" ≡ r.form "code"
    → handle_auth_code_exchange p env' r' v ≡ (err (refused invalid_grant), v)
code_redeemed_once p env env' r r' w w' v t unique up e visits same =
    let (given, gone) = redeemed-Gone p env r w w' t unique up e in
    let still = Visits-Gone p (r.form "code") w' gone visits in
    Gone-refused p env' r' v (rw same given) (rw same still)
