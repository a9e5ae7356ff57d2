-- ===== src/Examples/Grants.antt =====
-- The grants of the token endpoint, run on the fixtures.
use tpt_identity.Prelude.{◌≡◌, refl, [], ◌∷◌, arith}
use tpt_identity.Prelude.Table.{find}
use tpt_identity.Store.Sessions.{get_session_by_code, delete_session}
use tpt_identity.Store.Codes.{UniqueCodes}
use tpt_identity.Store.Clients.{get_client}
use tpt_identity.Store.RefreshTokens.{save_refresh_token, get_refresh_token}
use tpt_identity.Oidc.Handler.{World, Request, ok, err, refused, invalid_grant}
use tpt_identity.Oidc.Jwt.{sign_jwt, issue_id_token, issue_access_token}
use tpt_identity.Oidc.ClientAuth.{
  TokenResponse, token_response, provided_secret, accepts_secret, validate_client_auth, verify_pkce,
  access_token_ttl,
}
use tpt_identity.Oidc.Grants.{
  handle_auth_code_exchange, rotate, handle_refresh_token_grant, handle_client_credentials_grant,
}
use tpt_identity.Oidc.Grants.Code.{Redeemed, handle_auth_code_exchange-Redeemed}
use tpt_identity.Oidc.History.Codes.{Visits, code_redeemed_once}
use tpt_identity.Oidc.Grants.Rotation.{
  Avoids, Rotated, presented, handle_refresh_token_grant-Rotated,
}
use tpt_identity.Oidc.Token.{token_handler}
use tpt_identity.Oidc.History.{asks, here, refresh_single_use}
use tpt_identity.Examples.Fixtures.{differ, provider, token, asking, at_time, world}

abbrev redeeming : Request
redeeming = asking (
    ("code", "code")
    ∷ ("client_id", "app")
    ∷ ("client_secret", "secret")
    ∷ ("code_verifier", "verifier")
    ∷ [])

abbrev bought : TokenResponse
bought = token_response token token "raw" "openid" access_token_ttl

abbrev redeemed : World
redeemed = (handle_auth_code_exchange provider (at_time 1) redeeming world).1

redeemed_run :
    handle_auth_code_exchange provider (at_time 1) redeeming world ≡ (ok bought, redeemed)
unfolding handle_auth_code_exchange get_session_by_code find verify_pkce validate_client_auth
    get_client provided_secret accepts_secret issue_id_token issue_access_token sign_jwt
    save_refresh_token delete_session
redeemed_run = refl

handle_auth_code_exchange-Redeemed_example :
    Redeemed provider (at_time 1) redeeming world redeemed bought
handle_auth_code_exchange-Redeemed_example =
    handle_auth_code_exchange-Redeemed provider (at_time 1) redeeming world redeemed bought
      redeemed_run

world-UniqueCodes : UniqueCodes world.sessions
world-UniqueCodes = (tt, tt)

-- The code after another attempt at it.
abbrev revisited : World
revisited = (token_handler provider (at_time 1) redeeming redeemed).1

code_redeemed_once_example :
    handle_auth_code_exchange provider (at_time 2) redeeming revisited
    ≡ (err (refused invalid_grant), revisited)
code_redeemed_once_example =
    code_redeemed_once provider (at_time 1) (at_time 2) redeeming redeeming world redeemed revisited
      bought world-UniqueCodes refl redeemed_run (Visits.asks Visits.here (at_time 1) redeeming)
      refl

-- The world after the code was presented once more.
abbrev presented_again : World
presented_again = (handle_auth_code_exchange provider (at_time 1) redeeming redeemed).1

abbrev refreshing : Request
refreshing =
    asking (("refresh_token", "old") ∷ ("client_id", "app") ∷ ("client_secret", "secret") ∷ [])

abbrev renewed : TokenResponse
renewed = token_response token "" "raw" "openid" access_token_ttl

abbrev rotated : World
rotated = (handle_refresh_token_grant provider (at_time 1) refreshing world).1

rotated_run :
    handle_refresh_token_grant provider (at_time 1) refreshing world ≡ (ok renewed, rotated)
unfolding handle_refresh_token_grant rotate get_refresh_token find validate_client_auth get_client
    provided_secret accepts_secret issue_access_token sign_jwt save_refresh_token
rotated_run = refl

handle_refresh_token_grant-Rotated_example :
    Rotated provider (at_time 1) refreshing world rotated renewed
handle_refresh_token_grant-Rotated_example =
    handle_refresh_token_grant-Rotated provider (at_time 1) refreshing world rotated renewed
      rotated_run

draws-Avoids : Avoids provider (at_time 1) (presented provider refreshing)
draws-Avoids raw drawn = ground (arith, differ "raw" "old" refl)

-- The token is presented again after another rotation was tried.
refresh_single_use_example :
    (handle_refresh_token_grant provider
      (at_time 9)
      refreshing
      (token_handler provider (at_time 1) refreshing rotated).1).0
    ≡ err (refused invalid_grant)
refresh_single_use_example =
    refresh_single_use provider (at_time 1) (at_time 9) refreshing refreshing world rotated
      (token_handler provider (at_time 1) refreshing rotated).1 renewed refl draws-Avoids
      rotated_run (asks here (at_time 1) refreshing draws-Avoids) (differ "old" "" refl) refl

abbrev machine_request : Request
machine_request = asking (("client_id", "app") ∷ ("client_secret", "secret") ∷ [])

abbrev machine_tokens : TokenResponse
machine_tokens = token_response token "" "" "openid" access_token_ttl

machine_run :
    handle_client_credentials_grant provider (at_time 1) machine_request world
    ≡ (ok machine_tokens, world)
unfolding handle_client_credentials_grant find validate_client_auth get_client provided_secret
    accepts_secret issue_access_token sign_jwt
machine_run = refl
