-- ===== src/Examples/Tokens.antt =====
-- Tokens that are signed, verified, revoked and exchanged, on the fixtures.
use tpt_identity.Prelude.{List, ◌≡◌, ◌*◌, refl, String, [], ◌∷◌, some, inl, arith, subst}
use tpt_identity.Prelude.Table.{find}
use tpt_identity.Prelude.Words.{fields}
use tpt_identity.Store.Clients.{get_client}
use tpt_identity.Oidc.Handler.{World, Request, ok}
use tpt_identity.Oidc.Jwt.{
  plain, cut_dot, split3, second, parse_unverified, verify, sign_jwt, issue_jwt_with_extra,
}
use tpt_identity.Oidc.Jwt.Laws.{NoDot, Carries, verify-sign_jwt}
use tpt_identity.Oidc.ClientAuth.{provided_secret, accepts_secret, validate_client_auth}
use tpt_identity.Oidc.Tokens.{
  revoke_refresh_token, revoke_access_token, named_client, revoke_handler, is_access_token_revoked,
  introspect_handler, inactive, active_response,
}
use tpt_identity.Oidc.Tokens.Revocation.Lasting.{Call, apply_all, revoke-inactive}
use tpt_identity.Oidc.Exchange.{
  Exchanged, handle_token_exchange, actor, scope_is_subset, acr_level, needed_level, acr_satisfies,
  reissued, step_up_handler,
}
use tpt_identity.Oidc.Exchange.Scope.{Narrowed, handle_token_exchange-Narrowed}
use tpt_identity.Examples.Fixtures.{claims, codec, provider, token, asking, at_time, world}

body_plain : (s : String) → codec.marshal (plain claims) ≡ some s → NoDot s
body_plain s e =
    let same : "body" ≡ s = ground (arith, e) in
    subst NoDot same (ground arith, (ground arith, (ground arith, (ground arith, tt))))

claims-Carries : Carries codec "k1" (plain claims)
claims-Carries = record {
  header_plain = (ground arith, (ground arith, (ground arith, (ground arith, tt))));
  payload_plain = body_plain;
  payload_reads = λ s e. refl;
  signature_verifies = λ m. refl;
}

token_signed : sign_jwt codec "k1" (plain claims) ≡ some token
unfolding sign_jwt
token_signed = refl

token_verifies : verify codec (at_time 1).now token ≡ some claims
unfolding verify parse_unverified split3 cut_dot
token_verifies = refl

verify-sign_jwt_example : verify codec (1000 * second) token ≡ some claims
verify-sign_jwt_example =
    verify-sign_jwt codec "k1" (plain claims) token (1000 * second) claims-Carries token_signed

abbrev asking_about : Request
asking_about = asking (("token", token) ∷ ("token_type_hint", "access_token") ∷ [])

abbrev revoked_world : World
revoked_world = (revoke_handler provider (at_time 1) asking_about world).1

revoked_run : revoke_handler provider (at_time 1) asking_about world ≡ (ok tt, revoked_world)
unfolding revoke_handler named_client revoke_refresh_token revoke_access_token parse_unverified
    split3 cut_dot
revoked_run = refl

token_read : parse_unverified codec token ≡ some claims
unfolding parse_unverified split3 cut_dot
token_read = refl

-- Another introspection, and a request that empties the tables.
abbrev calls_between : List (Call provider token claims)
calls_between =
    Call.introspects (at_time 2) asking_about ∷ Call.elsewhere (record world { sessions = [] }) ∷ []

revoke-inactive_example :
    (introspect_handler provider
      (at_time 2)
      asking_about
      (apply_all provider token claims calls_between revoked_world)).0
    ≡ ok inactive
revoke-inactive_example =
    revoke-inactive provider (at_time 1) (at_time 2) asking_about asking_about world revoked_world
      claims calls_between token_read (ground arith) refl revoked_run
      (omega arith, (λ d. absurd (d refl)), tt) refl (inl (ground arith))

introspected_run :
    introspect_handler provider (at_time 2) asking_about world
    ≡ (ok (active_response claims), world)
unfolding introspect_handler is_access_token_revoked find verify parse_unverified split3 cut_dot
introspected_run = refl

abbrev narrowing : Request
narrowing = asking (
    ("subject_token", token)
    ∷ ("subject_token_type", "urn:ietf:params:oauth:token-type:access_token")
    ∷ ("scope", "email")
    ∷ ("client_id", "app")
    ∷ ("client_secret", "secret")
    ∷ [])

abbrev narrower : Exchanged
narrower = record { access_token = token; scope = "email" }

narrowed_run : handle_token_exchange provider (at_time 1) narrowing world ≡ (ok narrower, world)
unfolding handle_token_exchange actor scope_is_subset fields verify parse_unverified split3 cut_dot
    validate_client_auth get_client find provided_secret accepts_secret issue_jwt_with_extra
    sign_jwt
narrowed_run = refl

handle_token_exchange-Narrowed_example : Narrowed provider (at_time 1) narrowing narrower
handle_token_exchange-Narrowed_example =
    handle_token_exchange-Narrowed provider (at_time 1) narrowing world world narrower narrowed_run

abbrev stepping : Request
stepping = asking (("access_token", token) ∷ ("acr_values", "social pwd") ∷ [])

stepped_run :
    step_up_handler provider (at_time 1) stepping world ≡ (ok (reissued token "pwd"), world)
unfolding step_up_handler acr_satisfies needed_level acr_level fields verify parse_unverified split3
    cut_dot issue_jwt_with_extra sign_jwt
stepped_run = refl
