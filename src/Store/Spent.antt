-- ===== src/Store/Spent.antt =====
-- Refresh tokens that can no longer be redeemed: those with no row, and those with a used one.
use tpt_identity.Prelude.{
  ◌≡◌, ◌≢◌, refl, String, Bool, true, false, List, [], ◌∷◌, Option, none, some, arith, ◌==◌, eq_iff,
  inl, inr, Bool-cases,
}
use tpt_identity.Prelude.Table.{find, delete, upsert, find-delete, find-delete_other}
use tpt_identity.Store.Rows.{RefreshToken}
use tpt_identity.Store.RefreshTokens.{has_hash, refresh_update}

abbrev pub is_used : RefreshToken → Bool
is_used t = elim t.used_at [ none ↦ false | some _ ↦ true ]

abbrev spent_row : Option RefreshToken → Bool
spent_row none = true
spent_row (some t) = is_used t

unfoldable pub spent : String → List RefreshToken → Bool
spent h rows = spent_row (find (has_hash h) rows)

pub spent-delete :
    (h k : String) (rows : List RefreshToken)
    → spent h rows ≡ true
    → spent h (delete (has_hash k) rows) ≡ true
unfolding spent
spent-delete h k rows e = elim (Bool-cases (k == h)) [
  | inl hit ↦ rw ((eq_iff k h).0 hit) (rw (find-delete (has_hash h) rows) refl)
  | inr miss ↦
      rw
        (find-delete_other (has_hash k) (has_hash h) rows
          (λ t here. ground (arith, eq_iff t.hash h, eq_iff t.hash k, eq_iff k h)))
        e
]

-- A token with another hash makes no difference.
pub spent-issue :
    (h : String) (t : RefreshToken) (rows : List RefreshToken)
    → t.hash ≢ h
    → spent h (upsert (has_hash t.hash) (refresh_update t) t rows) ≡ spent h rows
unfolding spent find upsert
spent-issue h t [] ne = ground (arith, eq_iff t.hash h)
spent-issue h t (s ∷ rows) ne =
    ground (arith, eq_iff t.hash h, eq_iff s.hash h, eq_iff s.hash t.hash, spent-issue h t rows ne)

-- Nor does a row that is written with a time of use.
pub spent-consume :
    (h : String) (t : RefreshToken) (rows : List RefreshToken)
    → is_used t ≡ true
    → spent h rows ≡ true
    → spent h (upsert (has_hash t.hash) (refresh_update t) t rows) ≡ true
unfolding spent find upsert
spent-consume h t [] used e = ground arith
spent-consume h t (s ∷ rows) used e =
    ground (arith, eq_iff s.hash h, eq_iff s.hash t.hash, spent-consume h t rows used)

-- The token that is marked is spent.
pub spent-mark :
    (t : RefreshToken) (rows : List RefreshToken)
    → is_used t ≡ true
    → spent t.hash (upsert (has_hash t.hash) (refresh_update t) t rows) ≡ true
unfolding spent find upsert
spent-mark t [] used = ground (arith, eq_iff t.hash t.hash)
spent-mark t (s ∷ rows) used = ground (arith, spent-mark t rows used)
