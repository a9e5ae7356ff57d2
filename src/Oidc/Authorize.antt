-- ===== src/Oidc/Authorize.antt =====
-- oidc/provider.go AuthorizeHandler and IssueSessionForDIDCtx, and oidc/par.go.
pub mod Checks
pub mod Pushed
use tpt_identity.Prelude.{
  ℕ, ◌+◌, ◌*◌, ◌/◌, String, List, [], ◌∷◌, Option, none, some, not, ◌==◌, ◌||◌, ltb, if◌then◌else◌,
}
use tpt_identity.Store.Rows.{Session, ParRequest}
use tpt_identity.Store.Sessions.{save_session}
use tpt_identity.Store.Clients.{get_client}
use tpt_identity.Store.Requests.{save_par_request, get_par_request, delete_par_request}
use tpt_identity.Oidc.Handler.{
  World, Request, Env, Handler, refused, status, internal_error, invalid_request, invalid_client,
  unauthorized_client, ◌>>=◌, ◌>>◌, pure, fail, reject_if, read, need, write, try, with_sessions,
  with_par_requests,
}
use tpt_identity.Oidc.Jwt.{◌+++◌, second}
use tpt_identity.Oidc.ClientAuth.{Provider, authenticate, contains_uri, code_ttl}

abbrev pub par_ttl : ℕ
par_ttl = 90 * second

-- The merged query: a value that the pushed request has takes precedence.
unfoldable pub overlay : List (String × String) → (String → String) → String → String
overlay [] q key = q key
overlay ((k, v) ∷ params) q key = if k == key then v else overlay params q key

-- A request_uri is deleted when it is looked up, expired or not.
unfoldable pub resolve_par_request : Provider → Env → String → Handler (List (String × String))
resolve_par_request p env uri = do
  par ← read (λ w. get_par_request (env.down 0) uri w.par_requests) (refused invalid_request)
  try λ w. with_par_requests w (delete_par_request (env.down 1) uri w.par_requests)
  reject_if (ltb par.expires_at env.now) (refused invalid_request)
  need (p.codec.unmarshal_params par.params) (refused invalid_request)

-- The parameters of an authorization request: the query, over which a pushed request is laid.
unfoldable pub authorize_params : Provider → Env → Request → Handler (String → String)
unfolding resolve_par_request overlay
authorize_params p env r =
    let uri = r.query "request_uri" in
    if uri == ""
    then pure r.query
    else (resolve_par_request p env uri >>= λ params. pure (overlay params r.query))

abbrev or_empty : Option String → String
or_empty none = ""
or_empty (some s) = s

unfoldable pub new_session : Env → Request → String → String → (String → String) → Session
new_session env r subject code q = record {
  id = "sess_" +++ or_empty (env.draws 1);
  subject_did = subject;
  client_id = q "client_id";
  redirect_uri = q "redirect_uri";
  scope = q "scope";
  nonce = q "nonce";
  state = q "state";
  code = code;
  code_challenge = q "code_challenge";
  code_challenge_method = q "code_challenge_method";
  access_token = "";
  refresh_token_hash = "";
  user_agent = r.user_agent;
  ip_address = r.remote_ip;
  last_used_at = none;
  created_at = env.now;
  expires_at = env.now + code_ttl;
}

-- AuthorizeHandler behind the merge of the parameters: the checks, and the session.
unfoldable pub authorize_with : Env → Request → (String → String) → Handler String
unfolding new_session
authorize_with env r q = do
  let subject = r.header "X-Subject-DID"
  reject_if (q "client_id" == "" || q "redirect_uri" == "" || subject == "") (status 400)
  reject_if (q "state" == "") (refused invalid_request)
  reject_if (q "code_challenge" == "") (refused invalid_request)
  reject_if (not (q "code_challenge_method" == "S256")) (refused invalid_request)
  client ←
      read (λ w. get_client (env.down 2) (q "client_id") w.clients) (refused unauthorized_client)
  reject_if (not (contains_uri client.redirect_uris (q "redirect_uri"))) (refused invalid_request)
  code ← need (env.draws 0) internal_error
  write
      λ w. with_sessions w (save_session (env.down 3) (new_session env r subject code q) w.sessions)
  pure (q "redirect_uri" +++ "?code=" +++ code +++ "&state=" +++ q "state")

-- The redirect's target.
unfoldable pub authorize_handler : Provider → Env → Request → Handler String
unfolding authorize_params authorize_with
authorize_handler p env r = do q ← authorize_params p env r; authorize_with env r q

-- IssueSessionForDIDCtx, which the identity bridges call: no client is looked up, no state kept.
unfoldable pub issue_session_for_did : Env → Request → String → (String → String) → Handler String
unfolding new_session
issue_session_for_did env r subject q = do
  code ← need (env.draws 0) internal_error
  let session = new_session env r subject code q
  write λ w. with_sessions w (save_session (env.down 0) (record session { state = "" }) w.sessions)
  pure code

abbrev non_empty : List (String × String) → List (String × String)
non_empty [] = []
non_empty ((k, v) ∷ pairs) = let rest = non_empty pairs in if v == "" then rest else (k, v) ∷ rest

unfoldable pub is_registered : Env → String → String → Handler (Unit {0})
is_registered env client_id redirect_uri = do
  client ← read (λ w. get_client (env.down 1) client_id w.clients) (refused invalid_client)
  reject_if (not (contains_uri client.redirect_uris redirect_uri)) (refused invalid_request)

-- PARHandler; the answer is the request_uri and its lifetime in seconds.
unfoldable pub par_handler : Provider → Env → Request → Handler (String × ℕ)
unfolding is_registered
par_handler p env r = do
  let client_id = r.form "client_id"
  let redirect_uri = r.form "redirect_uri"
  reject_if (client_id == "") (refused invalid_client)
  authenticate p (env.down 0) r client_id
  if redirect_uri == "" then pure tt else is_registered env client_id redirect_uri
  request_id ← need (env.draws 0) internal_error
  let uri = "urn:ietf:params:oauth:request_uri:" +++ request_id
  write λ w. with_par_requests w (
      save_par_request (env.down 2)
        (record {
          request_uri = uri;
          client_id = client_id;
          params = p.codec.marshal_params (non_empty r.form_pairs);
          expires_at = env.now + par_ttl;
          created_at = env.now;
        })
        w.par_requests)
  pure (uri, par_ttl / second)
