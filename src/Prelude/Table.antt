-- ===== src/Prelude/Table.antt =====
-- A table of the database as its rows in insertion order, and the statements that the store uses:
-- SELECT one row, DELETE, UPDATE, INSERT, and INSERT … ON CONFLICT DO UPDATE.
-- A statement's WHERE clause, or the key on which an insertion conflicts, is a test on rows.
use mathlib.Core.Path.{◌≡◌, refl}
use mathlib.Core.Bool.{Bool, true, false}
use mathlib.Core.Logic.{◌⊎◌}
use mathlib.Core.Option.{Option, none, some}
use mathlib.Core.List.{List, [], ◌∷◌, ◌++◌}
use native.Mathlib.Omega.{arith}
use tpt_identity.Prelude.Tests.{if◌then◌else◌}

module _ {ℓ} {A : Type ℓ} where
  unfoldable pub find : (A → Bool) → List A → Option A
  find p [] = none
  find p (x ∷ xs) = if p x then some x else find p xs

  unfoldable pub delete : (A → Bool) → List A → List A
  delete p [] = []
  delete p (x ∷ xs) = let rest = delete p xs in if p x then rest else x ∷ rest

  unfoldable pub update : (A → Bool) → (A → A) → List A → List A
  update p f [] = []
  update p f (x ∷ xs) = (if p x then f x else x) ∷ update p f xs

  -- `f` makes the row that stays of the row that is there.
  unfoldable pub upsert : (A → Bool) → (A → A) → A → List A → List A
  upsert p f a [] = a ∷ []
  upsert p f a (x ∷ xs) = if p x then f x ∷ xs else x ∷ upsert p f a xs

  -- A row with the key refuses the insertion.
  unfoldable pub insert : (A → Bool) → A → List A → Option (List A)
  insert p a xs = elim (find p xs) [ none ↦ some (xs ++ a ∷ []) | some _ ↦ none ]

  pub find-holds : (p : A → Bool) (xs : List A) (x : A) → find p xs ≡ some x → p x ≡ true
  unfolding find
  find-holds p [] x e = ground arith
  find-holds p (y ∷ ys) x e = ground (arith, find-holds p ys x)

  pub find-delete : (p : A → Bool) (xs : List A) → find p (delete p xs) ≡ none
  unfolding find delete
  find-delete p [] = refl
  find-delete p (x ∷ xs) = ground (arith, find-delete p xs)

  pub find-delete_other :
      (p q : A → Bool) (xs : List A)
      → ((x : A) → q x ≡ true → p x ≡ false)
      → find q (delete p xs) ≡ find q xs
  unfolding find delete
  find-delete_other p q [] h = refl
  find-delete_other p q (x ∷ xs) h = ground (arith, find-delete_other p q xs h, h x)

  -- A deletion takes rows away and adds none.
  pub find-delete-none :
      (p q : A → Bool) (xs : List A) → find q xs ≡ none → find q (delete p xs) ≡ none
  unfolding find delete
  find-delete-none p q [] e = refl
  find-delete-none p q (x ∷ xs) e = ground (arith, find-delete-none p q xs)

  abbrev pub merged : (A → A) → A → Option A → A
  merged f a none = a
  merged f a (some x) = f x

  pub find-upsert :
      (p : A → Bool) (f : A → A) (a : A) (xs : List A)
      → p a ≡ true
      → ((x : A) → p x ≡ true → p (f x) ≡ true)
      → find p (upsert p f a xs) ≡ some (merged f a (find p xs))
  unfolding find upsert
  find-upsert p f a [] h k = ground arith
  find-upsert p f a (x ∷ xs) h k = ground (arith, find-upsert p f a xs h k, k x)

  -- A row that takes the whole place of the one that is there.
  pub find-replace :
      (p : A → Bool) (a : A) (xs : List A) → p a ≡ true → find p (upsert p (λ _. a) a xs) ≡ some a
  unfolding find upsert
  find-replace p a [] h = ground arith
  find-replace p a (x ∷ xs) h = ground (arith, find-replace p a xs h)

  -- Queries that no conflicting row and no new row answers see no change.
  pub find-upsert_other :
      (p q : A → Bool) (f : A → A) (a : A) (xs : List A)
      → q a ≡ false
      → ((x : A) → p x ≡ true → (q x ≡ false) × (q (f x) ≡ false))
      → find q (upsert p f a xs) ≡ find q xs
  unfolding find upsert
  find-upsert_other p q f a [] h k = ground arith
  find-upsert_other p q f a (x ∷ xs) h k = ground (arith, find-upsert_other p q f a xs h k, k x)

  -- A query that reads only what a merge keeps finds the merged row where it found the old one.
  pub find-upsert_kept :
      (p q : A → Bool) (f : A → A) (a : A) (xs : List A) (x : A)
      → ((y : A) → q (f y) ≡ q y)
      → find q xs ≡ some x
      → (find q (upsert p f a xs) ≡ some x) ⊎ (find q (upsert p f a xs) ≡ some (f x))
  unfolding find upsert
  find-upsert_kept p q f a [] x k e = ground arith
  find-upsert_kept p q f a (y ∷ ys) x k e = ground (arith, find-upsert_kept p q f a ys x k, k y)

  pub find-append_none :
      (p : A → Bool) (xs : List A) (a : A)
      → find p xs ≡ none
      → find p (xs ++ a ∷ []) ≡ (if p a then some a else none)
  unfolding find
  find-append_none p [] a e = refl
  find-append_none p (x ∷ xs) a e = ground (arith, find-append_none p xs a)

  pub find-append_some :
      (p : A → Bool) (xs : List A) (a x : A) → find p xs ≡ some x → find p (xs ++ a ∷ []) ≡ some x
  unfolding find
  find-append_some p [] a x e = ground arith
  find-append_some p (y ∷ ys) a x e = ground (arith, find-append_some p ys a x)

  pub find-insert :
      (p : A → Bool) (a : A) (xs ys : List A)
      → insert p a xs ≡ some ys
      → p a ≡ true
      → find p ys ≡ some a
  unfolding insert
  find-insert p a xs ys e h = ground (arith, find-append_none p xs a)

  pub find-update :
      (p : A → Bool) (f : A → A) (xs : List A)
      → ((x : A) → p x ≡ true → p (f x) ≡ true)
      → find p (update p f xs) ≡ (elim (find p xs) [ none ↦ none | some x ↦ some (f x) ])
  unfolding find update
  find-update p f [] k = refl
  find-update p f (x ∷ xs) k = ground (arith, find-update p f xs k, k x)

  pub find-update_other :
      (p q : A → Bool) (f : A → A) (xs : List A)
      → ((x : A) → p x ≡ true → (q x ≡ false) × (q (f x) ≡ false))
      → find q (update p f xs) ≡ find q xs
  unfolding find update
  find-update_other p q f [] k = refl
  find-update_other p q f (x ∷ xs) k = ground (arith, find-update_other p q f xs k, k x)
