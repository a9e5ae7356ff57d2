-- ===== src/Store/Codes.antt =====
-- Authorization codes name at most one row of oidc_sessions, whose index on `code` is not unique.
use tpt_identity.Prelude.{
  ◌≡◌, ◌≢◌, refl, String, Bool, List, [], ◌∷◌, none, some, arith, ◌==◌, eq_iff, Bool-cases, inl,
  inr, sym, subst,
}
use tpt_identity.Prelude.Table.{find, delete, upsert}
use tpt_identity.Store.Rows.{Session}
use tpt_identity.Store.Sessions.{has_id, has_code, session_update}

-- No row has the code.
abbrev pub FreshCode : String → List Session → Type 0
FreshCode k [] = Unit {0}
FreshCode k (s ∷ rows) = (s.code ≢ k) × FreshCode k rows

abbrev pub UniqueCodes : List Session → Type 0
UniqueCodes [] = Unit {0}
UniqueCodes (s ∷ rows) = FreshCode s.code rows × UniqueCodes rows

pub find-FreshCode :
    (k : String) (rows : List Session) → FreshCode k rows → find (has_code k) rows ≡ none
unfolding find
find-FreshCode k [] h = refl
find-FreshCode k (s ∷ rows) h = ground (arith, find-FreshCode k rows h.1, eq_iff s.code k)

FreshCode-delete :
    (k : String) (p : Session → Bool) (rows : List Session)
    → FreshCode k rows
    → FreshCode k (delete p rows)
unfolding delete
FreshCode-delete k p [] h = tt
FreshCode-delete k p (s ∷ rows) h = ground (arith, FreshCode-delete k p rows h.1)

pub UniqueCodes-delete :
    (p : Session → Bool) (rows : List Session) → UniqueCodes rows → UniqueCodes (delete p rows)
unfolding delete
UniqueCodes-delete p [] h = tt
UniqueCodes-delete p (s ∷ rows) h =
    ground (arith, UniqueCodes-delete p rows h.1, FreshCode-delete s.code p rows h.0)

FreshCode-upsert :
    (k : String) (s : Session) (rows : List Session)
    → k ≢ s.code
    → FreshCode k rows
    → FreshCode k (upsert (has_id s.id) (session_update s) s rows)
unfolding upsert
FreshCode-upsert k s [] h f = ground arith
FreshCode-upsert k s (t ∷ rows) h f = ground (arith, FreshCode-upsert k s rows h f.1)

-- Saving a session under a code that no row has keeps the codes apart.
pub UniqueCodes-save :
    (s : Session) (rows : List Session)
    → FreshCode s.code rows
    → UniqueCodes rows
    → UniqueCodes (upsert (has_id s.id) (session_update s) s rows)
unfolding upsert
UniqueCodes-save s [] f u = ground arith
UniqueCodes-save s (t ∷ rows) f u =
    ground (arith, UniqueCodes-save s rows f.1 u.1, FreshCode-upsert t.code s rows)

delete_found :
    (t : Session) (rows : List Session)
    → FreshCode t.code rows
    → find (has_code t.code) (delete (has_id t.id) (t ∷ rows)) ≡ none
unfolding delete
delete_found t rows f = ground (
  arith,
  eq_iff t.id t.id,
  find-FreshCode t.code (delete (has_id t.id) rows) (FreshCode-delete t.code (has_id t.id) rows f),
)

-- With the row that a code names gone, the code names nothing.
pub find-delete_code :
    (k : String) (rows : List Session) (s : Session)
    → UniqueCodes rows
    → find (has_code k) rows ≡ some s
    → find (has_code k) (delete (has_id s.id) rows) ≡ none
unfolding find delete
find-delete_code k [] s u e = refl
find-delete_code k (t ∷ rows) s u e = elim (Bool-cases (t.code == k)) [
  | inl hit ↦
      let same : k ≡ t.code = sym ((eq_iff t.code k).0 hit) in
      let here : s ≡ t = ground arith in
      rw same (
        subst (λ (z : Session). find (has_code t.code) (delete (has_id z.id) (t ∷ rows)) ≡ none)
          (sym here) (delete_found t rows u.0))
  | inr miss ↦ ground (arith, find-delete_code k rows s u.1)
]
