-- ===== src/Oidc/Exchange/Scope.antt =====
-- What a token exchange can give, and when a step-up is answered with a token.
use mathlib.Core.List.{Mem, mem-cons, not-mem-nil}
use mathlib.Core.Logic.Or
use tpt_identity.Prelude.{
  ◌≤◌, ◌≡◌, ◌⊎◌, sym, refl, String, true, List, [], ◌∷◌, some, ◌==◌, arith, eq_iff, Option-cases,
  Bool-cases, inl, inr, subst, if◌then◌else◌,
}
use native.Mathlib.Bridge.{le_prop}
use tpt_identity.Prelude.Words.{fields, trim_prefix}
use tpt_identity.Oidc.Handler.{World, Request, Env, ok}
use tpt_identity.Oidc.Jwt.{Claims, verify, issue_jwt_with_extra}
use tpt_identity.Oidc.ClientAuth.{Provider, access_token_ttl}
use tpt_identity.Oidc.Exchange.{
  member, all_member, scope_is_subset, Exchanged, handle_token_exchange, exchange_extra, acr_level,
  needed_level, acr_satisfies, reissued, step_up_handler, step_up_extra, actor, caller_id,
}

member-Mem : (s : String) (allowed : List String) → member s allowed ≡ true → Mem s allowed
member-Mem s [] h = cc
member-Mem s (a ∷ allowed) h = elim (Bool-cases (a == s)) [
  | inl hit ↦ mem-cons.1 (Or.inl (sym ((eq_iff a s).0 hit)))
  | inr miss ↦ mem-cons.1 (Or.inr (member-Mem s allowed (ground arith)))
]

abbrev pub Within : List String → List String → Type 0
Within [] allowed = Unit {0}
Within (s ∷ requested) allowed = Mem s allowed × Within requested allowed

all_member-Within :
    (requested allowed : List String)
    → all_member requested allowed ≡ true
    → Within requested allowed
all_member-Within [] allowed h = tt
all_member-Within (s ∷ requested) allowed h =
    (member-Mem s allowed (ground arith), all_member-Within requested allowed (ground arith))

Mem-Within :
    (whole part : List String) → ((s : String) → Mem s whole → Mem s part) → Within whole part
Mem-Within [] part h = tt
Mem-Within (s ∷ whole) part h =
    (h s (mem-cons.1 (Or.inl refl)), Mem-Within whole part (λ x m. h x (mem-cons.1 (Or.inr m))))

pub record Narrowed (p : Provider) (env : Env) (r : Request) (x : Exchanged) : Type 0 where
  pub claims : Claims
  pub verified : verify p.codec env.now (r.form "subject_token") ≡ some claims
  pub narrow : Within (fields x.scope) (fields claims.scope)
  pub audience : String
  pub addressed : audience ≡ (if r.form "audience" == "" then p.issuer else r.form "audience")
  pub issued :
      issue_jwt_with_extra p.codec p.issuer claims.subject audience access_token_ttl p.key_id
        (exchange_extra audience x.scope (actor p env r (caller_id r)))
        env.now
      ≡ some x.access_token

narrowed :
    (requested allowed scope : String)
    → ((requested ≡ "") × (scope ≡ allowed))
      ⊎ ((scope_is_subset requested allowed ≡ true) × (scope ≡ requested))
    → Within (fields scope) (fields allowed)
unfolding scope_is_subset
narrowed requested allowed scope (inl (_, e)) =
    subst (λ s. Within (fields s) (fields allowed)) (sym e)
      (Mem-Within (fields allowed) (fields allowed) (λ s m. m))
narrowed requested allowed scope (inr (h, e)) =
    subst (λ s. Within (fields s) (fields allowed)) (sym e)
      (all_member-Within (fields requested) (fields allowed) h)

-- An exchange gives a token for the subject of a subject token that verifies, and every word of
-- the new token's scope is a word of that token's scope.
pub handle_token_exchange-Narrowed :
    (p : Provider) (env : Env) (r : Request) (w w' : World) (x : Exchanged)
    → handle_token_exchange p env r w ≡ (ok x, w')
    → Narrowed p env r x
unfolding handle_token_exchange
handle_token_exchange-Narrowed p env r w w' x e =
    elim (Option-cases (verify p.codec env.now (r.form "subject_token"))) [
      | inl bad ↦ absurd (ground arith)
      | inr (claims, good) ↦ record {
        claims = claims;
        verified = good;
        narrow =
            narrowed (r.form "scope") claims.scope x.scope
              (ground (arith, eq_iff (r.form "scope") ""));
        audience = if r.form "audience" == "" then p.issuer else r.form "audience";
        addressed = refl;
        issued = ground arith;
      }
    ]

highest-level :
    (values : List String) (v : String) → Mem v values → acr_level v ≤ needed_level values
unfolding needed_level
highest-level [] v m = absurd (not-mem-nil m)
highest-level (u ∷ values) v m =
    Or.«elim» le_prop (mem-cons.0 m) (λ here. rw here (ground arith))
      (λ there. ground (arith, highest-level values v there))

-- The token that a step-up was asked with, and what its acr is enough for.
pub record Stepped (p : Provider) (env : Env) (r : Request) (token acr : String) : Type 0 where
  pub current : Claims
  pub verified :
      verify p.codec env.now (
        if r.query "access_token" == ""
        then trim_prefix (r.header "Authorization") "Bearer "
        else r.query "access_token")
      ≡ some current
  pub keeps : current.acr ≡ acr
  pub issued :
      issue_jwt_with_extra p.codec p.issuer current.subject current.audience access_token_ttl
        p.key_id
        (step_up_extra current)
        env.now
      ≡ some token
  pub enough : (v : String) → Mem v (fields (r.query "acr_values")) → acr_level v ≤ acr_level acr

-- A step-up is answered with a token only if the token presented verifies and the level of its acr
-- is at least that of every value asked for; the new token keeps that acr.
pub step_up-Stepped :
    (p : Provider) (env : Env) (r : Request) (w w' : World) (token acr : String)
    → step_up_handler p env r w ≡ (ok (reissued token acr), w')
    → Stepped p env r token acr
unfolding step_up_handler acr_satisfies
step_up-Stepped p env r w w' token acr e =
    let bearer =
      if r.query "access_token" == ""
      then trim_prefix (r.header "Authorization") "Bearer "
      else r.query "access_token" in
    elim (Option-cases (verify p.codec env.now bearer)) [
      | inl bad ↦ absurd (ground arith)
      | inr (claims, good) ↦ record {
        current = claims;
        verified = good;
        keeps = ground arith;
        issued = ground arith;
        enough = λ v m. ground (arith, highest-level (fields (r.query "acr_values")) v m);
      }
    ]
