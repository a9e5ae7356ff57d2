-- ===== src/Oidc/Logout.antt =====
-- oidc/logout.go: RP-initiated logout.
pub mod Ended
use tpt_identity.Prelude.{
  ℕ, ◌+◌, String, Bool, true, false, List, [], ◌∷◌, Option, none, some, not, ◌==◌, ◌||◌, ◌&&◌,
  if◌then◌else◌,
}
use tpt_identity.Prelude.Words.{contains}
use tpt_identity.Store.Rows.{Session, Client}
use tpt_identity.Store.Sessions.{list_sessions_by_subject, delete_session, purge_expired_sessions}
use tpt_identity.Store.Clients.{list_clients}
use tpt_identity.Store.RefreshTokens.{delete_refresh_token}
use tpt_identity.Oidc.Handler.{
  World, Request, Env, Handler, ok, ◌>>=◌, ◌>>◌, pure, try, kept, with_sessions,
  with_refresh_tokens,
}
use tpt_identity.Oidc.Jwt.{◌+++◌, Claims, verify}
use tpt_identity.Oidc.ClientAuth.{Provider, contains_uri}

unfoldable pub drop_token : Bool → Session → World → World
drop_token down s w =
    if s.refresh_token_hash == ""
    then w
    else kept w
        (with_refresh_tokens w (delete_refresh_token down s.refresh_token_hash w.refresh_tokens))

unfoldable pub drop_session : Bool → Session → World → World
drop_session down s w = kept w (with_sessions w (delete_session down s.id w.sessions))

-- The loop over the subject's sessions; its calls of the store are numbered from `n`.
unfoldable pub end_sessions : Env → ℕ → List Session → World → World
end_sessions env n [] w = w
end_sessions env n (s ∷ sessions) w =
    end_sessions env (n + 2) sessions
      (drop_session (env.down (n + 1)) s (drop_token (env.down n) s w))

abbrev or_none : Option (List Session) → List Session
or_none none = []
or_none (some sessions) = sessions

unfoldable pub purge : Bool → ℕ → World → World
purge down now w = kept w (with_sessions w (purge_expired_sessions down now w.sessions))

-- The effect of a logout on the tables.
unfoldable pub log_out_subject : Env → String → World → World
log_out_subject env did w =
    let sessions = or_none (list_sessions_by_subject (env.down 0) did env.now w.sessions) in
    purge (env.down 1) env.now (end_sessions env 3 sessions w)

abbrev subject_of : Option Claims → String
subject_of none = ""
subject_of (some c) = c.subject

-- The subject of the hint, "" where there is no hint that verifies.
unfoldable pub logout_subject : Provider → Env → Request → String
logout_subject p env r =
    if r.query "id_token_hint" == ""
    then ""
    else subject_of (verify p.codec env.now (r.query "id_token_hint"))

unfoldable pub any_client_has : String → List Client → Bool
any_client_has uri [] = false
any_client_has uri (c ∷ clients) =
    contains_uri c.post_logout_redirect_uris uri || any_client_has uri clients

abbrev pub registered_in : String → Option (List Client) → Bool
registered_in uri none = false
registered_in uri (some clients) = any_client_has uri clients

unfoldable pub is_registered_logout_uri : Bool → String → World → Bool
is_registered_logout_uri down uri w = registered_in uri (list_clients down w.clients)

-- The target before the state is added.
unfoldable pub logout_target : Provider → Env → Request → String → World → String
logout_target p env r did w =
    let uri = r.query "post_logout_redirect_uri" in
    if not (uri == "") && not (did == "") && is_registered_logout_uri (env.down 2) uri w
    then uri
    else p.issuer

unfoldable pub with_state : String → String → String
with_state state target =
    if state == ""
    then target
    else if contains target "?"
    then target +++ "&state=" +++ state
    else target +++ "?state=" +++ state

-- The target of the redirect, and the world that is left.
unfoldable pub logout_handler : Provider → Env → Request → Handler String
logout_handler p env r w =
    let did = logout_subject p env r in
    let after = if did == "" then w else log_out_subject env did w in
    (ok (with_state (r.query "state") (logout_target p env r did after)), after)
