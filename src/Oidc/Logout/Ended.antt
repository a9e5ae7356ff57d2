-- ===== src/Oidc/Logout/Ended.antt =====
-- What a logout ends, and what it leaves: oidc/logout.go.
use tpt_identity.Prelude.{
  ℕ, ◌+◌, ◌≡◌, ◌≢◌, refl, ◌∙◌, String, Bool, false, List, [], ◌∷◌, none, ◌==◌, arith, eq_iff, ltb,
  ◌&&◌, Bool-cases, inl, inr,
}
use tpt_identity.Prelude.Table.{find, delete, find-delete, find-delete-none}
use tpt_identity.Store.Rows.{Session}
use tpt_identity.Store.Sessions.{
  has_id, get_session, live_of, list_sessions_by_subject, delete_session, purge_expired_sessions,
}
use tpt_identity.Store.RefreshTokens.{delete_refresh_token}
use tpt_identity.Oidc.Handler.{World, Request, Env}
use tpt_identity.Oidc.ClientAuth.{Provider}
use tpt_identity.Oidc.Logout.{
  drop_token, drop_session, end_sessions, purge, log_out_subject, logout_subject, logout_handler,
}

abbrev pub Each : (Session → Type 0) → List Session → Type 0
Each P [] = Unit {0}
Each P (s ∷ sessions) = P s × Each P sessions

abbrev pub AllUp : Env → Type 0
AllUp env = (n : ℕ) → env.down n ≡ false

drop-sessions :
    (env : Env) (n m : ℕ) (s : Session) (w : World)
    → AllUp env
    → (drop_session (env.down n) s (drop_token (env.down m) s w)).sessions
      ≡ delete (has_id s.id) w.sessions
unfolding drop_session drop_token delete_session delete_refresh_token
drop-sessions env n m s w up = ground (arith, up n, up m)

-- A session that is gone stays so.
end_sessions-gone :
    (env : Env) (n : ℕ) (sessions : List Session) (w : World) (id : String)
    → AllUp env
    → find (has_id id) w.sessions ≡ none
    → find (has_id id) (end_sessions env n sessions w).sessions ≡ none
unfolding end_sessions
end_sessions-gone env n [] w id up gone = gone
end_sessions-gone env n (s ∷ sessions) w id up gone =
    end_sessions-gone env (n + 2) sessions _ id up (
      rw (drop-sessions env (n + 1) n s w up)
        (find-delete-none (has_id s.id) (has_id id) w.sessions gone))

end_sessions-Each :
    (env : Env) (n : ℕ) (sessions : List Session) (w : World)
    → AllUp env
    → Each (λ s. find (has_id s.id) (end_sessions env n sessions w).sessions ≡ none) sessions
unfolding end_sessions
end_sessions-Each env n [] w up = tt
end_sessions-Each env n (s ∷ sessions) w up = (
  end_sessions-gone env (n + 2) sessions _ s.id up
      (rw (drop-sessions env (n + 1) n s w up) (find-delete (has_id s.id) w.sessions)),
  end_sessions-Each env (n + 2) sessions _ up,
)

Each-map :
    (P Q : Session → Type 0) (sessions : List Session)
    → ((s : Session) → P s → Q s)
    → Each P sessions
    → Each Q sessions
Each-map P Q [] f h = tt
Each-map P Q (s ∷ sessions) f h = (f s h.0, Each-map P Q sessions f h.1)

-- A logout with an ID token that verifies, while the store works, deletes every session of the
-- subject that had not expired.
pub logout-sessions :
    (p : Provider) (env : Env) (r : Request) (w : World)
    → AllUp env
    → logout_subject p env r ≢ ""
    → Each
        (λ s. get_session false s.id (logout_handler p env r w).1.sessions ≡ none)
        (live_of (logout_subject p env r) env.now w.sessions)
unfolding logout_handler log_out_subject get_session purge purge_expired_sessions
    list_sessions_by_subject
logout-sessions p env r w up known =
    let did = logout_subject p env r in
    let given : (did == "") ≡ false = ground (arith, eq_iff did "") in
    let sessions = live_of did env.now w.sessions in
    let ended = end_sessions env 3 sessions w in
    rw (given, up 0, up 1)
      (Each-map (λ s. find (has_id s.id) ended.sessions ≡ none) _ sessions
        (λ s. find-delete-none (λ t. ltb t.expires_at env.now) (has_id s.id) ended.sessions)
        (end_sessions-Each env 3 sessions w up))

Each-live_of :
    (P : Session → Type 0) (did : String) (now : ℕ) (sessions : List Session)
    → Each P sessions
    → Each P (live_of did now sessions)
unfolding live_of
Each-live_of P did now [] h = tt
Each-live_of P did now (s ∷ sessions) h =
    elim (Bool-cases (s.subject_did == did && ltb now s.expires_at)) [
      | inl live ↦ rw live (h.0, Each-live_of P did now sessions h.1)
      | inr over ↦ rw over (Each-live_of P did now sessions h.1)
    ]

end_sessions-Bare :
    (env : Env) (n : ℕ) (sessions : List Session) (w : World)
    → Each (λ s. s.refresh_token_hash ≡ "") sessions
    → (end_sessions env n sessions w).refresh_tokens ≡ w.refresh_tokens
unfolding end_sessions drop_session drop_token delete_session
end_sessions-Bare env n [] w h = refl
end_sessions-Bare env n (s ∷ sessions) w h =
    end_sessions-Bare env (n + 2) sessions _ h.1
    ∙ ground (arith, h.0, eq_iff s.refresh_token_hash "")

purge-refresh_tokens :
    (down : Bool) (now : ℕ) (w : World) → (purge down now w).refresh_tokens ≡ w.refresh_tokens
unfolding purge purge_expired_sessions
purge-refresh_tokens down now w = ground arith

-- Sessions that carry no refresh token, as those that authorization makes, give a logout nothing
-- to revoke: every refresh token of the subject stays redeemable.
logout-refresh_tokens :
    (p : Provider) (env : Env) (r : Request) (w : World)
    → Each (λ s. s.refresh_token_hash ≡ "") w.sessions
    → (logout_handler p env r w).1.refresh_tokens ≡ w.refresh_tokens
unfolding logout_handler log_out_subject list_sessions_by_subject
logout-refresh_tokens p env r w bare =
    let did = logout_subject p env r in
    let live = live_of did env.now w.sessions in
    ground (
      arith,
      purge-refresh_tokens (env.down 1) env.now (end_sessions env 3 live w),
      purge-refresh_tokens (env.down 1) env.now (end_sessions env 3 [] w),
      end_sessions-Bare env 3 [] w tt,
      end_sessions-Bare env 3 live w
          (Each-live_of (λ s. s.refresh_token_hash ≡ "") did env.now w.sessions bare),
    )
