-- ===== src/SignIn/Passwords/Limited.antt =====
-- How many reset tokens an identifier gets.
use tpt_identity.Prelude.{
  ℕ, zero, suc, ◌+◌, ◌≤◌, ◌<◌, ◌≡◌, ◌≢◌, refl, sym, ap, ◌∙◌, subst, String, false, List, [], ◌∷◌,
  ◌++◌, Option, none, some, length, ltb, lt→ltb, ltb→lt, le→ltb, arith, eq_refl, eq_iff,
  if◌then◌else◌, Bool-cases, inl, inr,
}
use tpt_identity.Prelude.Table.{find, upsert, merged, find-upsert}
use tpt_identity.Store.Rows.{AuthFailure}
use tpt_identity.Store.Failures.{
  has_subject, failure_update, failure_row, scanned_count, record_auth_failure, get_auth_failures,
}
use tpt_identity.Store.Secrets.{PasswordResetToken, save_password_reset_token}
use tpt_identity.Bridge.Passwords.{normalise_email}
use tpt_identity.SignIn.{Server, Site, Moment, Notice}
use tpt_identity.SignIn.Passwords.{
  reset_key, count_of, reset_ttl, announce, make_token, request_reset,
  handle_password_reset_request,
}

-- A request at a time, with the token drawn, while the store works.
pub record Ask : Type 0 where
  pub now : ℕ
  pub raw : String

abbrev pub moment_of : Ask → Moment
moment_of a = record {
  env = record { now = a.now; draws = λ _. some a.raw; picks = λ _. 0; down = λ _. false };
  created = λ _. none;
  account_down = λ _ _. false;
  down = λ _. false;
}

unfoldable pub counted : String → Site → ℕ
counted k w = count_of (get_auth_failures false (reset_key k) w.failures)

after_failure : ℕ → String → List AuthFailure → List AuthFailure
after_failure now k rows =
    let row = failure_row k now (scanned_count (find (has_subject k) rows) + 1) in
    upsert (has_subject k) (failure_update row) row rows

get-scanned :
    (k : String) (rows : List AuthFailure)
    → count_of (get_auth_failures false k rows) ≡ scanned_count (find (has_subject k) rows)
unfolding get_auth_failures
get-scanned k rows = ground arith

merged-count :
    (row : AuthFailure) (o : Option AuthFailure)
    → (merged (failure_update row) row o).count ≡ row.count
merged-count row none = refl
merged-count row (some x) = refl

get-after_failure :
    (now : ℕ) (k : String) (rows : List AuthFailure)
    → count_of (get_auth_failures false k (after_failure now k rows))
      ≡ count_of (get_auth_failures false k rows) + 1
unfolding after_failure
get-after_failure now k rows =
    let row = failure_row k now (scanned_count (find (has_subject k) rows) + 1) in
    get-scanned k (after_failure now k rows)
    ∙ ap scanned_count
        (find-upsert (has_subject k) (failure_update row) row rows (eq_refl k) (λ x e. e))
    ∙ merged-count row (find (has_subject k) rows)
    ∙ ap (λ n. n + 1) (sym (get-scanned k rows))

length-snoc {ℓ} : {A : Type ℓ} (xs : List A) (x : A) → length (xs ++ x ∷ []) ≡ length xs + 1
length-snoc [] x = refl
length-snoc (y ∷ xs) x = omega (arith, length-snoc xs x)

module _ (s : Server) (k : String) where
  abbrev next : Ask → Site → Site
  next a w = request_reset s (moment_of a) k w

  announce-failures :
      (a : Ask) (w : Site) (o : Option (List PasswordResetToken))
      → (announce s (moment_of a) k a.raw w o).failures ≡ w.failures
  announce-failures a w none = refl
  announce-failures a w (some rows) = refl

  announce-length :
      (a : Ask) (w : Site) (o : Option (List PasswordResetToken))
      → length (announce s (moment_of a) k a.raw w o).published ≤ length w.published + 1
  announce-length a w none = omega arith
  announce-length a w (some rows) =
      omega (arith, length-snoc w.published (Notice.reset_requested k a.raw (a.now + reset_ttl)))

  abbrev token_made : Ask → Site → Site
  token_made a w = make_token s (moment_of a) k (some a.raw) w

  next-open :
      (a : Ask) (w : Site)
      → counted k w < 3
      → next a w ≡ record (token_made a w) {
        failures = after_failure a.now (reset_key k) (token_made a w).failures;
      }
  unfolding counted record_auth_failure after_failure
  next-open a w h =
      ap
        (λ b.
          if b
          then record (token_made a w) {
            failures = after_failure a.now (reset_key k) (token_made a w).failures;
          }
          else w)
        (lt→ltb (counted k w) 3 h)

  next-closed : (a : Ask) (w : Site) → 3 ≤ counted k w → next a w ≡ w
  unfolding counted record_auth_failure after_failure
  next-closed a w h =
      ap
        (λ b.
          if b
          then record (token_made a w) {
            failures = after_failure a.now (reset_key k) (token_made a w).failures;
          }
          else w)
        (le→ltb (counted k w) 3 h)

  counted-next : (a : Ask) (w : Site) → counted k w < 3 → counted k (next a w) ≡ counted k w + 1
  unfolding counted
  counted-next a w h =
      ap (counted k) (next-open a w h)
      ∙ get-after_failure a.now (reset_key k) (token_made a w).failures
      ∙ ap (λ rows. count_of (get_auth_failures false (reset_key k) rows) + 1)
          (announce-failures a w (
            save_password_reset_token false
              (record {
                hash = s.hash a.raw;
                identifier = k;
                expires_at = a.now + reset_ttl;
                created_at = a.now;
              })
              w.resets))

  length-next :
      (a : Ask) (w : Site) → counted k w < 3 → length (next a w).published ≤ length w.published + 1
  length-next a w h =
      subst (λ (v : Site). length v.published ≤ length w.published + 1) (sym (next-open a w h))
        (announce-length a w (
          save_password_reset_token false
            (record {
              hash = s.hash a.raw;
              identifier = k;
              expires_at = a.now + reset_ttl;
              created_at = a.now;
            })
            w.resets))

  -- The requests in their order.
  unfoldable pub request_all : List Ask → Site → Site
  request_all [] w = w
  request_all (a ∷ asks) w = request_all asks (next a w)

  request_all-closed : (asks : List Ask) (w : Site) → 3 ≤ counted k w → request_all asks w ≡ w
  unfolding request_all
  request_all-closed [] w h = refl
  request_all-closed (a ∷ asks) w h =
      ap (request_all asks) (next-closed a w h) ∙ request_all-closed asks w h

  -- At most as many tokens go out as there are failures left to three.
  request_all-length :
      (asks : List Ask) (w : Site) (left : ℕ)
      → 3 ≤ counted k w + left
      → length (request_all asks w).published ≤ length w.published + left
  unfolding request_all
  request_all-length [] w left h = omega arith
  request_all-length (a ∷ asks) w zero h =
      subst (λ (v : Site). length v.published ≤ length w.published + zero)
        (sym (request_all-closed (a ∷ asks) w (omega (arith, h)))) (omega arith)
  request_all-length (a ∷ asks) w (suc left) h = elim (Bool-cases (ltb (counted k w) 3)) [
    | inl open' ↦
        let less = ltb→lt (counted k w) 3 open' in
        omega (
          arith,
          length-next a w less,
          request_all-length asks (next a w) left (omega (arith, counted-next a w less, h)),
        )
    | inr closed ↦
        subst (λ (v : Site). length v.published ≤ length w.published + suc left)
          (sym (request_all-closed (a ∷ asks) w (ground (arith, closed)))) (omega arith)
  ]

  request_all-counted :
      (asks : List Ask) (w : Site)
      → 3 ≤ counted k w + length asks
      → 3 ≤ counted k (request_all asks w)
  unfolding request_all
  request_all-counted [] w h = omega (arith, h)
  request_all-counted (a ∷ asks) w h = elim (Bool-cases (ltb (counted k w) 3)) [
    | inl open' ↦
        request_all-counted asks (next a w)
          (omega (arith, counted-next a w (ltb→lt (counted k w) 3 open'), h))
    | inr closed ↦
        let enough : 3 ≤ counted k w = ground (arith, closed) in
        subst (λ (v : Site). 3 ≤ counted k v) (sym (request_all-closed (a ∷ asks) w enough)) enough
  ]

module _ (s : Server) (identifier : String) where
  -- The handler on each request in turn.
  unfoldable pub handle_all : List Ask → Site → Site
  handle_all [] w = w
  handle_all (a ∷ asks) w =
      handle_all asks (handle_password_reset_request s (moment_of a) (some identifier) w).1

  handle-request :
      (a : Ask) (w : Site)
      → identifier ≢ ""
      → (handle_password_reset_request s (moment_of a) (some identifier) w).1
        ≡ request_reset s (moment_of a) (normalise_email s.lower identifier) w
  unfolding handle_password_reset_request
  handle-request a w h = ground (arith, eq_iff identifier "", h)

  handle_all-request :
      (asks : List Ask) (w : Site)
      → identifier ≢ ""
      → handle_all asks w ≡ request_all s (normalise_email s.lower identifier) asks w
  unfolding handle_all request_all
  handle_all-request [] w h = refl
  handle_all-request (a ∷ asks) w h =
      ap (handle_all asks) (handle-request a w h)
      ∙ handle_all-request asks
          (request_reset s (moment_of a) (normalise_email s.lower identifier) w) h

-- However many resets are requested for an identifier, and whenever, the store working: at most
-- three more notices go out, and after three requests a further one changes nothing at all,
-- however late it is.
pub handle_password_reset_request-limited :
    (s : Server) (identifier : String) (asks : List Ask) (late : Ask) (w : Site)
    → identifier ≢ ""
    → 3 ≤ length asks
    → (length (handle_all s identifier asks w).published ≤ length w.published + 3)
      × ((handle_password_reset_request s
            (moment_of late)
            (some identifier)
            (handle_all s identifier asks w)).1
          ≡ handle_all s identifier asks w)
handle_password_reset_request-limited s identifier asks late w named three =
    let k = normalise_email s.lower identifier in
    let same = handle_all-request s identifier asks w named in
    let enough = request_all-counted s k asks w (omega (arith, three)) in
    (
      subst (λ (v : Site). length v.published ≤ length w.published + 3) (sym same)
          (request_all-length s k asks w 3 (omega arith)),
      handle-request s identifier late (handle_all s identifier asks w) named
          ∙ next-closed s k late (handle_all s identifier asks w)
              (subst (λ (v : Site). 3 ≤ counted k v) (sym same) enough),
    )
