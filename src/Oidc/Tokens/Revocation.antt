-- ===== src/Oidc/Tokens/Revocation.antt =====
-- Revocation and introspection of access tokens.
pub mod Lasting
use tpt_identity.Prelude.{
  ℕ, ◌*◌, ◌+◌, ◌≤◌, ◌<◌, ◌≡◌, ◌⊎◌, refl, String, true, false, some, none, arith, ◌==◌, eq_refl,
  Option-cases, inl, inr,
}
use tpt_identity.Prelude.Table.{find, find-replace}
use tpt_identity.Oidc.Handler.{World, Request, Env, ok}
use tpt_identity.Oidc.Jwt.{Claims, second, verify, parse_unverified}
use tpt_identity.Oidc.ClientAuth.{Provider, hash_token}
use tpt_identity.Oidc.Tokens.{
  has_key, revoked_entry, revoke_handler, introspect_handler, inactive, active_response,
  IntrospectResponse,
}

-- What stands behind an active answer about a token.
pub record Active (p : Provider) (env : Env) (token : String) (w : World) (a : IntrospectResponse)
    : Type 0 where
  pub claims : Claims
  pub verified : verify p.codec env.now token ≡ some claims
  pub repeats : a ≡ active_response claims
  pub not_revoked :
      (find (has_key (hash_token p token)) w.revoked ≡ none)
      ⊎ ((e : String × ℕ) × (find (has_key (hash_token p token)) w.revoked ≡ some e)
          × (e.1 < env.now))

-- An active answer is about a token that verifies, whose claims it repeats, and which no entry of
-- the map of revoked tokens holds, or only one that has expired.
pub introspect-active :
    (p : Provider) (env : Env) (r : Request) (w w' : World) (a : IntrospectResponse)
    → introspect_handler p env r w ≡ (ok a, w')
    → a.active ≡ true
    → Active p env (r.form "token") w a
unfolding introspect_handler
introspect-active p env r w w' a e on =
    elim (Option-cases (verify p.codec env.now (r.form "token"))) [
      | inl bad ↦ absurd (ground arith)
      | inr (claims, good) ↦
          elim (Option-cases (find (has_key (hash_token p (r.form "token"))) w.revoked)) [
            | inl clear ↦ record {
              claims = claims;
              verified = good;
              repeats = ground arith;
              not_revoked = inl clear;
            }
            | inr (x, found) ↦ record {
              claims = claims;
              verified = good;
              repeats = ground arith;
              not_revoked = inr (x, found, ground arith);
            }
          ]
    ]

-- The entry that a revocation leaves; the request named a token.
pub revoke-entry :
    (p : Provider) (env : Env) (r : Request) (w w' : World) (claims : Claims)
    → parse_unverified p.codec (r.form "token") ≡ some claims
    → env.now < claims.expires_at * second
    → r.form "token_type_hint" ≡ "access_token"
    → revoke_handler p env r w ≡ (ok tt, w')
    → let h = hash_token p (r.form "token") in
      (find (has_key h) w'.revoked ≡ some (h, claims.expires_at * second))
      × ((r.form "token" == "") ≡ false)
unfolding revoke_handler
revoke-entry p env r w w' claims parsed early hint e =
    let h = hash_token p (r.form "token") in
    let entry : String × ℕ = (h, claims.expires_at * second) in
    let no_hint : (r.form "token_type_hint" == "") ≡ false = rw hint refl in
    let other_hint : (r.form "token_type_hint" == "refresh_token") ≡ false = rw hint refl in
    let this_hint : (r.form "token_type_hint" == "access_token") ≡ true = rw hint refl in
    let left : (w'.revoked ≡ revoked_entry h (claims.expires_at * second) w.revoked)
        × ((r.form "token" == "") ≡ false) =
      ground (arith, no_hint, other_hint, this_hint) in
    (
      rw left.0 (unfold revoked_entry in find-replace (has_key h) entry w.revoked (eq_refl h)),
      left.1,
    )
