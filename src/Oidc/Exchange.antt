-- ===== src/Oidc/Exchange.antt =====
-- oidc/token_exchange.go and oidc/stepup.go: new access tokens in exchange for old ones.
pub mod Scope
use tpt_identity.Prelude.{
  ℕ, String, Bool, true, false, List, [], ◌∷◌, Option, none, some, not, ◌==◌, ◌||◌, ◌&&◌, ltb, leb,
  map, if◌then◌else◌,
}
use tpt_identity.Prelude.Words.{fields, trim_prefix}
use tpt_identity.Oidc.Handler.{
  World, Request, Env, Handler, refused, internal_error, invalid_request, invalid_scope,
  invalid_token, ◌>>=◌, ◌>>◌, pure, reject_if, need,
}
use tpt_identity.Oidc.Jwt.{◌+++◌, Codec, Claims, Payload, plain, verify, issue_jwt_with_extra}
use tpt_identity.Oidc.ClientAuth.{Provider, authenticate_named, access_token_ttl}
use tpt_identity.Oidc.Grants.{basic_id}

abbrev pub member : String → List String → Bool
member s [] = false
member s (a ∷ allowed) = a == s || member s allowed

abbrev pub all_member : List String → List String → Bool
all_member [] allowed = true
all_member (s ∷ requested) allowed = member s allowed && all_member requested allowed

unfoldable pub scope_is_subset : String → String → Bool
scope_is_subset requested allowed = all_member (fields requested) (fields allowed)

abbrev pub tt_access_token : String
tt_access_token = "urn:ietf:params:oauth:token-type:access_token"

-- The name of Basic authentication, if the request has it, else that of the form.
abbrev pub caller_id : Request → String
caller_id r = elim r.basic [ none ↦ r.form "client_id" | some u ↦ u.0 ]

-- The subject of the `act` claim, where there is one.
unfoldable pub actor : Provider → Env → Request → String → Option String
actor p env r caller =
    if not (r.form "actor_token" == "")
    then (elim (verify p.codec env.now (r.form "actor_token")) [
      | none ↦ none
      | some c ↦ some c.subject
    ])
    else if not (caller == "")
    then some caller
    else none

abbrev pub exchange_extra : String → String → Option String → Claims → Payload
exchange_extra audience scope act base =
    record (plain (record base { audience = audience; scope = scope })) { act = act }

-- The reply's access_token and scope.
pub record Exchanged : Type 0 where
  pub access_token : String
  pub scope : String

unfoldable pub handle_token_exchange : Provider → Env → Request → Handler Exchanged
unfolding actor scope_is_subset
handle_token_exchange p env r = do
  let subject_token = r.form "subject_token"
  let requested_type = r.form "requested_token_type"
  let requested = r.form "scope"
  let caller = caller_id r
  reject_if (subject_token == "") (refused invalid_request)
  reject_if (not (r.form "subject_token_type" == tt_access_token)) (refused invalid_request)
  reject_if (not (requested_type == "") && not (requested_type == tt_access_token))
      (refused invalid_request)
  claims ← need (verify p.codec env.now subject_token) (refused invalid_request)
  authenticate_named p (env.down 0) r caller
  reject_if (not (requested == "") && not (scope_is_subset requested claims.scope))
      (refused invalid_scope)
  let scope = if requested == "" then claims.scope else requested
  let audience = if r.form "audience" == "" then p.issuer else r.form "audience"
  token ←
      need
        (issue_jwt_with_extra p.codec p.issuer claims.subject audience access_token_ttl p.key_id
          (exchange_extra audience scope (actor p env r caller)) env.now)
        internal_error
  pure (record { access_token = token; scope = scope })

-- The map `order` of acrSatisfies.
unfoldable pub acr_level : String → ℕ
acr_level acr =
    if acr == "mfa" then 3 else if acr == "pwd" then 2 else if acr == "social" then 1 else 0

-- The highest level of the values asked for.
unfoldable pub needed_level : List String → ℕ
unfolding acr_level
needed_level [] = 0
needed_level (v ∷ values) =
    let rest = needed_level values in if ltb rest (acr_level v) then acr_level v else rest

unfoldable pub acr_satisfies : String → String → Bool
acr_satisfies have need = leb (needed_level (fields need)) (acr_level have)

-- The two answers of the step-up handler: a new token, or a challenge with the URL to authorize at.
pub data StepUp : Type 0 where
  reissued : String → String → StepUp
  challenged : String → StepUp

abbrev pub step_up_extra : Claims → Claims → Payload
step_up_extra current base = plain (record base { acr = current.acr; scope = current.scope })

unfoldable pub step_up_handler : Provider → Env → Request → Handler StepUp
unfolding acr_satisfies
step_up_handler p env r = do
  let asked = r.query "access_token"
  let bearer = if asked == "" then trim_prefix (r.header "Authorization") "Bearer " else asked
  let required = r.query "acr_values"
  let nonce = r.query "nonce"
  reject_if (bearer == "") (refused invalid_request)
  current ← need (verify p.codec env.now bearer) (refused invalid_token)
  reject_if (required == "") (refused invalid_request)
  if acr_satisfies current.acr required
      then (need
            (issue_jwt_with_extra p.codec p.issuer current.subject current.audience access_token_ttl
              p.key_id (step_up_extra current) env.now)
            internal_error
          >>= λ token. pure (reissued token current.acr))
      else (let url = p.issuer +++ "/authorize?response_type=code&acr_values=" +++ required in
          pure (challenged (if nonce == "" then url else url +++ "&nonce=" +++ nonce)))
