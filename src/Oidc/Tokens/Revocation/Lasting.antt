-- ===== src/Oidc/Tokens/Revocation/Lasting.antt =====
-- A revocation lasts, whatever else is revoked and introspected.
use tpt_identity.Prelude.{
  ℕ, ◌*◌, ◌+◌, ◌≤◌, ◌<◌, ◌≡◌, ◌≢◌, ◌⊎◌, ◌∙◌, String, false, List, [], ◌∷◌, some, arith, ◌==◌,
  eq_iff, eq_refl, Option-cases, Bool-cases, inl, inr,
}
use tpt_identity.Prelude.Table.{find, find-replace, find-upsert_other, find-delete_other, delete}
use tpt_identity.Oidc.Handler.{World, Request, Env, ok}
use tpt_identity.Oidc.Jwt.{Claims, second, verify, parse_unverified}
use tpt_identity.Oidc.ClientAuth.{Provider, hash_token}
use tpt_identity.Oidc.Tokens.{
  has_key, revoked_entry, revoke_handler, revoke_access_token, revoke_refresh_token,
  is_access_token_revoked, introspect_handler, inactive,
}
use tpt_identity.Oidc.Tokens.Revocation.{revoke-entry}

module _ (p : Provider) (token : String) (claims : Claims) where
  abbrev until : ℕ
  until = claims.expires_at * second

  abbrev key : String
  key = hash_token p token

  -- The token's entry is in the map.
  abbrev Entered : World → Type 0
  Entered w = find (has_key key) w.revoked ≡ some (key, until)

  -- Another token has another hash.
  abbrev pub NoClash : String → Type 0
  NoClash other = other ≢ token → hash_token p other ≢ key

  -- What an entry under the hash of a token leaves of this one.
  revoked_entry-Entered :
      (other : String) (read : Claims) (w : World)
      → parse_unverified p.codec token ≡ some claims
      → NoClash other
      → parse_unverified p.codec other ≡ some read
      → Entered w
      → find (has_key key) (revoked_entry (hash_token p other) (read.expires_at * second) w.revoked)
        ≡ some (key, until)
  unfolding revoked_entry
  revoked_entry-Entered other read w parsed apart there e = elim (Bool-cases (other == token)) [
    | inl hit ↦
        let same : other ≡ token = (eq_iff other token).0 hit in
        let equal : read ≡ claims = ground (arith, same, parsed, there) in
        rw (same, equal) (find-replace (has_key key) (key, until) w.revoked (eq_refl key))
    | inr miss ↦
        let differ : hash_token p other ≢ key = apart (ground (arith, eq_iff other token)) in
        find-upsert_other (has_key (hash_token p other)) (has_key key)
          (λ _. (hash_token p other, read.expires_at * second))
          (hash_token p other, read.expires_at * second) w.revoked
          (ground (arith, eq_iff (hash_token p other) key))
          (λ x h. ground (
            arith,
            eq_iff x.0 (hash_token p other),
            eq_iff x.0 key,
            eq_iff (hash_token p other) key,
            h,
            differ,
          ))
        ∙ e
  ]

  revoke_handler-Entered :
      (env : Env) (r : Request) (w : World)
      → parse_unverified p.codec token ≡ some claims
      → NoClash (r.form "token")
      → Entered w
      → Entered (revoke_handler p env r w).1
  unfolding revoke_handler revoke_refresh_token revoke_access_token
  revoke_handler-Entered env r w parsed apart e =
      elim (Option-cases (parse_unverified p.codec (r.form "token"))) [
        | inl garbage ↦ ground (arith, e)
        | inr (read, there) ↦
            ground (arith, e, revoked_entry-Entered (r.form "token") read w parsed apart there e)
      ]

  introspect_handler-Entered :
      (env : Env) (r : Request) (w : World)
      → env.now ≤ until
      → NoClash (r.form "token")
      → Entered w
      → Entered (introspect_handler p env r w).1
  unfolding introspect_handler is_access_token_revoked
  introspect_handler-Entered env r w early apart e = elim (Bool-cases (r.form "token" == token)) [
    | inl hit ↦
        let same : r.form "token" ≡ token = (eq_iff (r.form "token") token).0 hit in
        let found : find (has_key (hash_token p (r.form "token"))) w.revoked ≡ some (key, until) =
          rw same e in
        ground (arith, e, found, early)
    | inr miss ↦
        let differ : hash_token p (r.form "token") ≢ key =
          apart (ground (arith, eq_iff (r.form "token") token)) in
        ground (arith, e, kept_apart (hash_token p (r.form "token")) differ)
  ]
    where
      kept_apart :
          (h : String)
          → h ≢ key
          → find (has_key key) (delete (has_key h) w.revoked) ≡ find (has_key key) w.revoked
      kept_apart h d =
          find-delete_other (has_key h) (has_key key) w.revoked
            (λ x k. ground (arith, eq_iff x.0 key, eq_iff x.0 h, d, k))

  -- Revocations and introspections of any tokens, and other requests, which do not touch the map
  -- but may change all else.
  pub data Call : Type 0 where
    revokes introspects : Env → Request → Call
    elsewhere : World → Call

  unfoldable pub apply_all : List Call → World → World
  apply_all [] w = w
  apply_all (revokes env r ∷ calls) w = apply_all calls (revoke_handler p env r w).1
  apply_all (introspects env r ∷ calls) w = apply_all calls (introspect_handler p env r w).1
  apply_all (elsewhere v ∷ calls) w = apply_all calls (record v { revoked = w.revoked })

  -- No introspection is later than `t`, and no other token has the hash.
  abbrev pub Before : ℕ → List Call → Type 0
  Before t [] = Unit {0}
  Before t (revokes env r ∷ calls) = NoClash (r.form "token") × Before t calls
  Before t (introspects env r ∷ calls) = (env.now ≤ t) × NoClash (r.form "token") × Before t calls
  Before t (elsewhere v ∷ calls) = Before t calls

  apply_all-Entered :
      (calls : List Call) (w : World) (t : ℕ)
      → parse_unverified p.codec token ≡ some claims
      → t ≤ until
      → Before t calls
      → Entered w
      → Entered (apply_all calls w)
  unfolding apply_all
  apply_all-Entered [] w t parsed early b e = e
  apply_all-Entered (revokes env r ∷ calls) w t parsed early b e =
      apply_all-Entered calls (revoke_handler p env r w).1 t parsed early b.1
        (revoke_handler-Entered env r w parsed b.0 e)
  apply_all-Entered (introspects env r ∷ calls) w t parsed early b e =
      apply_all-Entered calls (introspect_handler p env r w).1 t parsed early b.2
        (introspect_handler-Entered env r w (omega (arith, b.0, early)) b.1 e)
  apply_all-Entered (elsewhere v ∷ calls) w t parsed early b e =
      apply_all-Entered calls (record v { revoked = w.revoked }) t parsed early b e

-- Introspection of a token with an entry, or of one that no longer verifies.
entered_inactive :
    (p : Provider) (env : Env) (r : Request) (w : World) (claims : Claims)
    → (r.form "token" == "") ≡ false
    → env.now ≤ claims.expires_at * second
    → find (has_key (hash_token p (r.form "token"))) w.revoked
      ≡ some (hash_token p (r.form "token"), claims.expires_at * second)
    → (introspect_handler p env r w).0 ≡ ok inactive
unfolding introspect_handler is_access_token_revoked
entered_inactive p env r w claims given early there =
    elim (Option-cases (verify p.codec env.now (r.form "token"))) [
      | inl bad ↦ ground (arith, given, bad)
      | inr (read, good) ↦ ground (arith, given, good, there, early)
    ]

late_inactive :
    (p : Provider) (env : Env) (r : Request) (w : World) (claims : Claims)
    → (r.form "token" == "") ≡ false
    → parse_unverified p.codec (r.form "token") ≡ some claims
    → claims.expires_at * second + second ≤ env.now
    → (introspect_handler p env r w).0 ≡ ok inactive
unfolding introspect_handler verify
late_inactive p env r w claims given parsed late = ground (arith, given, parsed, late)

-- A token whose claims can be read and that is revoked as an access token, before its expiry and by a request that
-- is answered without an error, is inactive to every later introspection up to the instant of its
-- expiry, and again from a second after it, whatever is revoked, introspected and otherwise
-- requested in between. It is assumed that what is introspected in between is not later than that
-- introspection, and that no other token named in between has the same SHA-256.
pub revoke-inactive :
    (p : Provider) (env env' : Env) (r r' : Request) (w w' : World) (claims : Claims)
    (calls : List (Call p (r.form "token") claims))
    → parse_unverified p.codec (r.form "token") ≡ some claims
    → env.now < claims.expires_at * second
    → r.form "token_type_hint" ≡ "access_token"
    → revoke_handler p env r w ≡ (ok tt, w')
    → Before p (r.form "token") claims env'.now calls
    → r'.form "token" ≡ r.form "token"
    → (env'.now ≤ claims.expires_at * second) ⊎ (claims.expires_at * second + second ≤ env'.now)
    → (introspect_handler p env' r' (apply_all p (r.form "token") claims calls w')).0 ≡ ok inactive
revoke-inactive p env env' r r' w w' claims calls parsed early hint e before same (inl in_time) =
    let (there, given) = revoke-entry p env r w w' claims parsed early hint e in
    entered_inactive p env' r' (apply_all p (r.form "token") claims calls w') claims (rw same given)
      in_time
      (rw same
        (apply_all-Entered p (r.form "token") claims calls w' env'.now parsed in_time before there))
revoke-inactive p env env' r r' w w' claims calls parsed early hint e before same (inr late) =
    let (there, given) = revoke-entry p env r w w' claims parsed early hint e in
    late_inactive p env' r' (apply_all p (r.form "token") claims calls w') claims (rw same given)
      (rw same parsed) late
