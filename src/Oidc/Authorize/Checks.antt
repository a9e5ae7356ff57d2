-- ===== src/Oidc/Authorize/Checks.antt =====
-- What an authorization request has passed when its handler answers with a code, and what becomes
-- of the code: oidc/provider.go.
use mathlib.Core.List.{Mem, mem-cons}
use mathlib.Core.Logic.Or
use tpt_identity.Prelude.{
  ◌≡◌, ◌≢◌, sym, String, true, false, List, [], ◌∷◌, some, arith, ◌==◌, eq_iff, inl, inr,
  Option-cases, Bool-cases, subst,
}
use tpt_identity.Prelude.Table.{upsert}
use tpt_identity.Store.Rows.{Client}
use tpt_identity.Store.Sessions.{has_id, session_update, save_session}
use tpt_identity.Store.Codes.{FreshCode, UniqueCodes, UniqueCodes-save}
use tpt_identity.Store.Clients.{get_client}
use tpt_identity.Oidc.Handler.{World, Request, Env, ok}
use tpt_identity.Oidc.Jwt.{◌+++◌}
use tpt_identity.Oidc.ClientAuth.{contains_uri}
use tpt_identity.Oidc.Authorize.{authorize_with, new_session}

contains_uri-Mem : (uris : List String) (uri : String) → contains_uri uris uri ≡ true → Mem uri uris
unfolding contains_uri
contains_uri-Mem [] uri h = cc
contains_uri-Mem (u ∷ uris) uri h = elim (Bool-cases (u == uri)) [
  | inl hit ↦ mem-cons.1 (Or.inl (sym ((eq_iff u uri).0 hit)))
  | inr miss ↦ mem-cons.1 (Or.inr (contains_uri-Mem uris uri (ground arith)))
]

pub record Admitted (env : Env) (r : Request) (q : String → String) (w w' : World) (target : String)
    : Type 0 where
  pub client : Client
  pub known : get_client (env.down 2) (q "client_id") w.clients ≡ some client
  pub registered : Mem (q "redirect_uri") client.redirect_uris
  pub challenged : q "code_challenge" ≢ ""
  pub method : q "code_challenge_method" ≡ "S256"
  pub stateful : q "state" ≢ ""
  pub identified : r.header "X-Subject-DID" ≢ ""
  pub code : String
  pub drawn : env.draws 0 ≡ some code
  pub saved :
      save_session false (new_session env r (r.header "X-Subject-DID") code q) w.sessions
      ≡ some w'.sessions
  pub redirect : target ≡ q "redirect_uri" +++ "?code=" +++ code +++ "&state=" +++ q "state"

-- A redirect with a code goes to a URI that the client registered, and only after PKCE with S256,
-- a state and a subject were given; the session saved is the one of the request, and the target
-- carries its code and the request's state.
pub authorize_with-Admitted :
    (env : Env) (r : Request) (q : String → String) (w w' : World) (target : String)
    → authorize_with env r q w ≡ (ok target, w')
    → Admitted env r q w w' target
unfolding authorize_with save_session
authorize_with-Admitted env r q w w' target e =
    elim (Option-cases (get_client (env.down 2) (q "client_id") w.clients)) [
      | inl unknown ↦ absurd (ground arith)
      | inr (c, known) ↦ elim (Option-cases (env.draws 0)) [
        | inl dry ↦ absurd (ground arith)
        | inr (code, drawn) ↦ record {
          client = c;
          known = known;
          registered = contains_uri-Mem c.redirect_uris (q "redirect_uri") (ground arith);
          challenged = ground (arith, eq_iff (q "code_challenge") "");
          method = ground (arith, eq_iff (q "code_challenge_method") "S256");
          stateful = ground (arith, eq_iff (q "state") "");
          identified = ground (arith, eq_iff (r.header "X-Subject-DID") "");
          code = code;
          drawn = drawn;
          saved = ground arith;
          redirect = ground arith;
        }
      ]
    ]

-- With a code that no session has, authorization keeps the codes of the sessions apart.
pub authorize-UniqueCodes :
    (env : Env) (r : Request) (q : String → String) (w w' : World) (target code : String)
    → env.draws 0 ≡ some code
    → FreshCode code w.sessions
    → UniqueCodes w.sessions
    → authorize_with env r q w ≡ (ok target, w')
    → UniqueCodes w'.sessions
unfolding save_session new_session
authorize-UniqueCodes env r q w w' target code drawn fresh unique e =
    let a = authorize_with-Admitted env r q w w' target e in
    let s = new_session env r (r.header "X-Subject-DID") code q in
    let saved : upsert (has_id s.id) (session_update s) s w.sessions ≡ w'.sessions =
      ground (arith, a.saved, a.drawn) in
    subst UniqueCodes saved (UniqueCodes-save s w.sessions fresh unique)
