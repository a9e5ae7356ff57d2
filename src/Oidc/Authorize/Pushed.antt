-- ===== src/Oidc/Authorize/Pushed.antt =====
-- A pushed authorization request is used once: oidc/par.go and oidc/provider.go.
use tpt_identity.Prelude.{◌≡◌, ◌≢◌, ◌⊎◌, refl, String, false, List, none, arith, eq_iff, inl, inr}
use tpt_identity.Prelude.Table.{find, delete, find-delete}
use tpt_identity.Store.Requests.{has_request_uri, get_par_request, delete_par_request}
use tpt_identity.Store.Sessions.{save_session}
use tpt_identity.Oidc.Handler.{
  World, Request, Env, Reply, Failure, ok, err, refused, invalid_request,
}
use tpt_identity.Oidc.ClientAuth.{Provider}
use tpt_identity.Oidc.Authorize.{
  resolve_par_request, authorize_params, authorize_with, authorize_handler, overlay,
}

authorize_with-par_requests :
    (env : Env) (r : Request) (q : String → String) (w : World)
    → (authorize_with env r q w).1.par_requests ≡ w.par_requests
unfolding authorize_with save_session
authorize_with-par_requests env r q w = ground arith

resolve-delete :
    (p : Provider) (env : Env) (uri : String) (w w' : World) (params : List (String × String))
    → env.down 1 ≡ false
    → resolve_par_request p env uri w ≡ (ok params, w')
    → w'.par_requests ≡ delete (has_request_uri uri) w.par_requests
unfolding resolve_par_request delete_par_request
resolve-delete p env uri w w' params up e = ground (arith, up)

resolve-unknown :
    (p : Provider) (env : Env) (uri : String) (w : World)
    → get_par_request (env.down 0) uri w.par_requests ≡ none
    → resolve_par_request p env uri w ≡ (err (refused invalid_request), w)
unfolding resolve_par_request
resolve-unknown p env uri w missing = ground (arith, missing)

outcome :
    {A : Type 0} (x : Reply A × World)
    → ((a : A) × (w : World) × (x ≡ (ok a, w))) ⊎ ((f : Failure) × (w : World) × (x ≡ (err f, w)))
outcome (ok a, w) = inl (a, w, refl)
outcome (err f, w) = inr (f, w, refl)

authorize-resolved :
    (p : Provider) (env : Env) (r : Request) (w v : World) (params : List (String × String))
    → r.query "request_uri" ≢ ""
    → resolve_par_request p env (r.query "request_uri") w ≡ (ok params, v)
    → authorize_handler p env r w ≡ authorize_with env r (overlay params r.query) v
unfolding authorize_handler authorize_params
authorize-resolved p env r w v params given e = ground (arith, e, eq_iff (r.query "request_uri") "")

authorize-unresolved :
    (p : Provider) (env : Env) (r : Request) (w v : World) (f : Failure)
    → r.query "request_uri" ≢ ""
    → resolve_par_request p env (r.query "request_uri") w ≡ (err f, v)
    → authorize_handler p env r w ≡ (err f, v)
unfolding authorize_handler authorize_params
authorize-unresolved p env r w v f given e = ground (arith, e, eq_iff (r.query "request_uri") "")

-- An authorization under a request_uri takes the pushed request away.
authorize-delete :
    (p : Provider) (env : Env) (r : Request) (w w' : World) (target : String)
    → env.down 1 ≡ false
    → r.query "request_uri" ≢ ""
    → authorize_handler p env r w ≡ (ok target, w')
    → w'.par_requests ≡ delete (has_request_uri (r.query "request_uri")) w.par_requests
authorize-delete p env r w w' target up given e =
    elim (outcome (resolve_par_request p env (r.query "request_uri") w)) [
      | inl (params, v, good) ↦
          let gone = resolve-delete p env (r.query "request_uri") w v params up good in
          let run = authorize-resolved p env r w v params given good in
          ground (arith, gone, run, e, authorize_with-par_requests env r (overlay params r.query) v)
      | inr (f, v, bad) ↦ absurd (ground (arith, e, authorize-unresolved p env r w v f given bad))
    ]

-- A request_uri admits one authorization: after one that succeeded, in which the deletion of the
-- pushed request did not fail, every further request with the same request_uri is refused and
-- changes nothing.
pub request_uri_single_use :
    (p : Provider) (env env' : Env) (r r' : Request) (w w' : World) (target : String)
    → env.down 1 ≡ false
    → r.query "request_uri" ≢ ""
    → r'.query "request_uri" ≡ r.query "request_uri"
    → authorize_handler p env r w ≡ (ok target, w')
    → authorize_handler p env' r' w' ≡ (err (refused invalid_request), w')
unfolding get_par_request
request_uri_single_use p env env' r r' w w' target up given same e =
    let uri = r.query "request_uri" in
    let gone = authorize-delete p env r w w' target up given e in
    let missing : find (has_request_uri uri) w'.par_requests ≡ none =
      rw gone (find-delete (has_request_uri uri) w.par_requests) in
    authorize-unresolved p env' r' w' w' (refused invalid_request) (rw same given)
      (resolve-unknown p env' (r'.query "request_uri") w' (rw same (ground (arith, missing))))
