-- ===== src/Recovery/Interpolation.antt =====
-- Interpolation over a field of characteristic 2, as gfPolyEval and gfLagrange of
-- pkg/recovery/recovery.go make it: the value at 0 of a polynomial from its values at distinct points.
pub mod Fractions
use tpt_identity.Prelude.{
  ℕ, suc, ◌≤◌, ◌≡◌, ◌≢◌, refl, sym, ap, ◌∙◌, ◌↔◌, Bool, true, false, List, [], ◌∷◌, if◌then◌else◌,
  length, arith, Bool-cases, inl, inr,
}
use mathlib.Core.Path.{fun_ext}

pub record Field (F : Type 0) : Type 0 where
  infixl 65 ◌⊞◌
  infixl 70 ◌⊠◌
  pub zero : F
  pub one : F
  pub ◌⊞◌ : F → F → F
  pub ◌⊠◌ : F → F → F
  pub inv : F → F
  pub same : F → F → Bool
  pub same_iff : (a b : F) → (same a b ≡ true) ↔ (a ≡ b)
  pub add_assoc : (a b c : F) → (a ⊞ b) ⊞ c ≡ a ⊞ (b ⊞ c)
  pub add_comm : (a b : F) → a ⊞ b ≡ b ⊞ a
  pub add_zero : (a : F) → a ⊞ zero ≡ a
  pub add_self : (a : F) → a ⊞ a ≡ zero
  pub mul_assoc : (a b c : F) → (a ⊠ b) ⊠ c ≡ a ⊠ (b ⊠ c)
  pub mul_comm : (a b : F) → a ⊠ b ≡ b ⊠ a
  pub mul_one : (a : F) → a ⊠ one ≡ a
  pub mul_add : (a b c : F) → a ⊠ (b ⊞ c) ≡ a ⊠ b ⊞ a ⊠ c
  pub mul_inv : (a : F) → a ≢ zero → a ⊠ inv a ≡ one
  pub one-ne-zero : one ≢ zero

module _ {F : Type 0} (k : Field F) where
  open k use {
    zero, one, ◌⊞◌, ◌⊠◌, inv, same, same_iff, add_assoc, add_comm, add_zero, add_self, mul_assoc,
    mul_comm, mul_one, mul_add, mul_inv, one-ne-zero,
  }

  infixl 65 ◌⊞◌
  infixl 70 ◌⊠◌
  add_left_comm : (a b c : F) → a ⊞ (b ⊞ c) ≡ b ⊞ (a ⊞ c)
  add_left_comm a b c = sym (add_assoc a b c) ∙ ap (λ t. t ⊞ c) (add_comm a b) ∙ add_assoc b a c

  mul_left_comm : (a b c : F) → a ⊠ (b ⊠ c) ≡ b ⊠ (a ⊠ c)
  mul_left_comm a b c = sym (mul_assoc a b c) ∙ ap (λ t. t ⊠ c) (mul_comm a b) ∙ mul_assoc b a c

  zero_add : (a : F) → zero ⊞ a ≡ a
  zero_add a = add_comm zero a ∙ add_zero a

  add_twice : (a b : F) → a ⊞ (a ⊞ b) ≡ b
  add_twice a b = sym (add_assoc a a b) ∙ ap (λ t. t ⊞ b) (add_self a) ∙ zero_add b

  one_mul : (a : F) → one ⊠ a ≡ a
  one_mul a = mul_comm one a ∙ mul_one a

  mul_zero : (a : F) → a ⊠ zero ≡ zero
  mul_zero a = ap (λ t. a ⊠ t) (sym (add_self zero)) ∙ mul_add a zero zero ∙ add_self (a ⊠ zero)

  add_mul : (a b c : F) → (a ⊞ b) ⊠ c ≡ a ⊠ c ⊞ b ⊠ c
  add_mul a b c = simp (mul_comm, mul_add)

  ruleset derived = (add_left_comm, mul_left_comm, add_mul, add_twice, zero_add, mul_zero, one_mul)

  -- A polynomial by its coefficients, from the lowest up.
  unfoldable pub eval : List F → F → F
  eval [] x = zero
  eval (c ∷ cs) x = eval cs x ⊠ x ⊞ c

  -- The coefficients of the quotient by x + a of the polynomial with these above the lowest.
  quotient : F → List F → List F
  quotient a [] = []
  quotient a (c ∷ cs) = eval (c ∷ cs) a ∷ quotient a cs

  length-quotient : (a : F) (cs : List F) → length (quotient a cs) ≡ length cs
  unfolding quotient
  length-quotient a [] = refl
  length-quotient a (c ∷ cs) = ap suc (length-quotient a cs)

  divide_zero : (c x a : F) → zero ⊠ x ⊞ c ≡ (x ⊞ a) ⊠ zero ⊞ (zero ⊠ a ⊞ c)
  divide_zero c x a = simp (derived, mul_comm)

  divide_step :
      (c x a q h e : F) → e ≡ (x ⊞ a) ⊠ q ⊞ h → e ⊠ x ⊞ c ≡ (x ⊞ a) ⊠ (q ⊠ x ⊞ h) ⊞ (h ⊠ a ⊞ c)
  divide_step c x a q h e eq =
      rw eq (simp (derived, add_assoc, add_comm, mul_assoc, mul_comm, mul_add))

  eval-quotient :
      (a c x : F) (cs : List F)
      → eval (c ∷ cs) x ≡ (x ⊞ a) ⊠ eval (quotient a cs) x ⊞ eval (c ∷ cs) a
  unfolding eval quotient
  eval-quotient a c x [] = divide_zero c x a
  eval-quotient a c x (d ∷ cs) =
      divide_step c x a (eval (quotient a cs) x) (eval (d ∷ cs) a) (eval (d ∷ cs) x)
        (eval-quotient a d x cs)

  -- The value at 0 of the polynomial that is 1 at x and 0 at the other points.
  unfoldable pub ratio : F → List F → F
  ratio x [] = one
  ratio x (z ∷ zs) = (if same x z then one else z ⊠ inv (x ⊞ z)) ⊠ ratio x zs

  -- What the points `ys` of `xs` contribute for the values of `f`.
  unfoldable pub sum : List F → List F → (F → F) → F
  sum xs [] f = zero
  sum xs (y ∷ ys) f = f y ⊠ ratio y xs ⊞ sum xs ys f

  abbrev pub Apart : F → List F → Type 0
  Apart a [] = Unit {0}
  Apart a (y ∷ ys) = (same y a ≡ false) × Apart a ys

  abbrev pub Distinct : List F → Type 0
  Distinct [] = Unit {0}
  Distinct (x ∷ xs) = Apart x xs × Distinct xs

  add_parts : (u v r s t : F) → (u ⊞ v) ⊠ r ⊞ (s ⊞ t) ≡ (u ⊠ r ⊞ s) ⊞ (v ⊠ r ⊞ t)
  add_parts u v r s t = simp (derived, add_assoc, add_comm)

  scale_parts : (c u r s : F) → (c ⊠ u) ⊠ r ⊞ c ⊠ s ≡ c ⊠ (u ⊠ r ⊞ s)
  scale_parts c u r s = simp (mul_add, mul_assoc)

  sum-add : (xs ys : List F) (f g : F → F) → sum xs ys (λ x. f x ⊞ g x) ≡ sum xs ys f ⊞ sum xs ys g
  unfolding sum
  sum-add xs [] f g = sym (add_self zero)
  sum-add xs (y ∷ ys) f g =
      ap (λ t. (f y ⊞ g y) ⊠ ratio y xs ⊞ t) (sum-add xs ys f g)
      ∙ add_parts (f y) (g y) (ratio y xs) (sum xs ys f) (sum xs ys g)

  sum-scale : (xs ys : List F) (c : F) (f : F → F) → sum xs ys (λ x. c ⊠ f x) ≡ c ⊠ sum xs ys f
  unfolding sum
  sum-scale xs [] c f = sym (mul_zero c)
  sum-scale xs (y ∷ ys) c f =
      ap (λ t. (c ⊠ f y) ⊠ ratio y xs ⊞ t) (sum-scale xs ys c f)
      ∙ scale_parts c (f y) (ratio y xs) (sum xs ys f)

  add-ne-zero : (x a : F) → same x a ≡ false → x ⊞ a ≢ zero
  add-ne-zero x a h e =
      cc (h, (same_iff x a).1 (sym (add_zero x) ∙ ap (λ t. x ⊞ t) (sym e) ∙ add_twice x a))

  regroup : (a d i g r : F) → (d ⊠ g) ⊠ ((a ⊠ i) ⊠ r) ≡ (d ⊠ i) ⊠ (a ⊠ (g ⊠ r))
  regroup a d i g r = simp (derived, mul_assoc, mul_comm)

  cancel : (a d g r : F) → d ≢ zero → (d ⊠ g) ⊠ ((a ⊠ inv d) ⊠ r) ≡ a ⊠ (g ⊠ r)
  cancel a d g r h =
      regroup a d (inv d) g r ∙ ap (λ t. t ⊠ (a ⊠ (g ⊠ r))) (mul_inv d h) ∙ one_mul (a ⊠ (g ⊠ r))

  -- A factor that vanishes at one point leaves the sum over the others, without that point.
  sum-drop :
      (a : F) (xs ys : List F) (g : F → F)
      → Apart a ys
      → sum (a ∷ xs) ys (λ x. (x ⊞ a) ⊠ g x) ≡ a ⊠ sum xs ys g
  unfolding sum ratio
  sum-drop a xs [] g h = sym (mul_zero a)
  sum-drop a xs (y ∷ ys) g h =
      ap
        (λ b.
          ((y ⊞ a) ⊠ g y) ⊠ ((if b then one else a ⊠ inv (y ⊞ a)) ⊠ ratio y xs)
          ⊞ sum (a ∷ xs) ys (λ x. (x ⊞ a) ⊠ g x))
        h.0
      ∙ (λ i.
          cancel a (y ⊞ a) (g y) (ratio y xs) (add-ne-zero y a h.0) i ⊞ sum-drop a xs ys g h.1 i)
      ∙ sym (mul_add a (g y ⊠ ratio y xs) (sum xs ys g))

  abbrev total : List F → (F → F) → F
  total xs f = sum xs xs f

  zero_mul : (a : F) → zero ⊠ a ≡ zero
  zero_mul a = mul_comm zero a ∙ mul_zero a

  total-drop :
      (a : F) (xs : List F) (g : F → F)
      → Apart a xs
      → total (a ∷ xs) (λ x. (x ⊞ a) ⊠ g x) ≡ a ⊠ total xs g
  unfolding sum
  total-drop a xs g h =
      ap (λ t. (t ⊠ g a) ⊠ ratio a (a ∷ xs) ⊞ sum (a ∷ xs) xs (λ x. (x ⊞ a) ⊠ g x)) (add_self a)
      ∙ ap (λ t. t ⊠ ratio a (a ∷ xs) ⊞ sum (a ∷ xs) xs (λ x. (x ⊞ a) ⊠ g x)) (zero_mul (g a))
      ∙ ap (λ t. t ⊞ sum (a ∷ xs) xs (λ x. (x ⊞ a) ⊠ g x)) (zero_mul (ratio a (a ∷ xs)))
      ∙ zero_add (sum (a ∷ xs) xs (λ x. (x ⊞ a) ⊠ g x))
      ∙ sum-drop a xs xs g h

  -- The order of two points does not matter.
  ratio-swap : (x a b : F) (xs : List F) → ratio x (a ∷ b ∷ xs) ≡ ratio x (b ∷ a ∷ xs)
  unfolding ratio
  ratio-swap x a b xs = mul_left_comm _ _ (ratio x xs)

  sum-swap : (a b : F) (xs ys : List F) (f : F → F) → sum (a ∷ b ∷ xs) ys f ≡ sum (b ∷ a ∷ xs) ys f
  unfolding sum
  sum-swap a b xs [] f = refl
  sum-swap a b xs (y ∷ ys) f = λ i. f y ⊠ ratio-swap y a b xs i ⊞ sum-swap a b xs ys f i

  total-swap : (a b : F) (xs : List F) (f : F → F) → total (a ∷ b ∷ xs) f ≡ total (b ∷ a ∷ xs) f
  unfolding sum
  total-swap a b xs f = sum-swap a b xs (a ∷ b ∷ xs) f ∙ add_left_comm _ _ _

  same_sym : (a b : F) → same b a ≡ false → same a b ≡ false
  same_sym a b h = elim (Bool-cases (same a b)) [
    | inl e ↦ cc (h, (same_iff b a).1 (sym ((same_iff a b).0 e)))
    | inr e ↦ e
  ]

  divide : (d t : F) → d ≢ zero → d ⊠ t ≡ d → t ≡ one
  divide d t h e =
      sym (one_mul t)
      ∙ ap (λ s. s ⊠ t) (sym (mul_inv d h))
      ∙ ap (λ s. s ⊠ t) (mul_comm d (inv d))
      ∙ mul_assoc (inv d) d t
      ∙ ap (λ s. inv d ⊠ s) e
      ∙ mul_comm (inv d) d
      ∙ mul_inv d h

  between : (a b x : F) → (b ⊞ a) ⊠ one ≡ (x ⊞ a) ⊠ one ⊞ (x ⊞ b) ⊠ one
  between a b x = simp (derived, add_assoc, add_comm, add_self, add_zero, mul_one)

  total-one : (a : F) (xs : List F) → Distinct (a ∷ xs) → total (a ∷ xs) (λ _. one) ≡ one
  unfolding sum ratio
  total-one a [] h =
      ap (λ b. one ⊠ ((if b then one else a ⊠ inv (a ⊞ a)) ⊠ one) ⊞ zero) ((same_iff a a).1 refl)
      ∙ simp (derived, add_zero, mul_one)
  total-one a (b ∷ xs) h = divide (b ⊞ a) (total (a ∷ b ∷ xs) (λ _. one)) (add-ne-zero b a h.0.0) (
      sym (sum-scale (a ∷ b ∷ xs) (a ∷ b ∷ xs) (b ⊞ a) (λ _. one))
      ∙ ap (total (a ∷ b ∷ xs)) (fun_ext (between a b))
      ∙ sum-add (a ∷ b ∷ xs) (a ∷ b ∷ xs) (λ x. (x ⊞ a) ⊠ one) (λ x. (x ⊞ b) ⊠ one)
      ∙ (λ i. first (total-one b xs h.1) i ⊞ second (total-one a xs (h.0.1, h.1.1)) i)
      ∙ add_comm a b)
    where
      first : total (b ∷ xs) (λ _. one) ≡ one → total (a ∷ b ∷ xs) (λ x. (x ⊞ a) ⊠ one) ≡ a
      first ih = total-drop a (b ∷ xs) (λ _. one) h.0 ∙ ap (λ t. a ⊠ t) ih ∙ mul_one a

      second : total (a ∷ xs) (λ _. one) ≡ one → total (a ∷ b ∷ xs) (λ x. (x ⊞ b) ⊠ one) ≡ b
      second ih =
          total-swap a b xs (λ x. (x ⊞ b) ⊠ one)
          ∙ total-drop b (a ∷ xs) (λ _. one) (same_sym a b h.0.0, h.1.0)
          ∙ ap (λ t. b ⊠ t) ih
          ∙ mul_one b

  at_zero : (q a c : F) → (zero ⊞ a) ⊠ q ⊞ c ≡ a ⊠ q ⊞ c ⊠ one
  at_zero q a c = simp (derived, mul_one)

  -- At as many distinct points as the polynomial has coefficients, or at more, the sum is the value
  -- at 0.
  pub interpolates :
      (xs p : List F) → length p ≤ length xs → Distinct xs → sum xs xs (eval p) ≡ eval p zero
  unfolding eval sum
  interpolates [] [] n h = refl
  interpolates [] (c ∷ cs) n h = absurd (omega arith)
  interpolates (a ∷ xs) [] n h =
      ap (total (a ∷ xs)) (fun_ext (λ x. sym (zero_mul one)))
      ∙ sum-scale (a ∷ xs) (a ∷ xs) zero (λ _. one)
      ∙ zero_mul (total (a ∷ xs) (λ _. one))
  interpolates (a ∷ xs) (c ∷ cs) n h =
      ap (total (a ∷ xs))
        (fun_ext (λ x. eval-quotient a c x cs ∙ ap (λ t. (x ⊞ a) ⊠ q x ⊞ t) (sym (mul_one r))))
      ∙ sum-add (a ∷ xs) (a ∷ xs) (λ x. (x ⊞ a) ⊠ q x) (λ _. r ⊠ one)
      ∙ (λ i.
          multiple (interpolates xs (quotient a cs) (omega (arith, length-quotient a cs)) h.1) i
          ⊞ rest i)
      ∙ sym (at_zero (q zero) a r)
      ∙ sym (eval-quotient a c zero cs)
    where
      q : F → F
      q = eval (quotient a cs)

      r : F
      r = eval (c ∷ cs) a

      multiple : total xs q ≡ q zero → total (a ∷ xs) (λ x. (x ⊞ a) ⊠ q x) ≡ a ⊠ q zero
      multiple ih = total-drop a xs q h.0 ∙ ap (λ t. a ⊠ t) ih

      rest : total (a ∷ xs) (λ _. r ⊠ one) ≡ r ⊠ one
      rest = sum-scale (a ∷ xs) (a ∷ xs) r (λ _. one) ∙ ap (λ t. r ⊠ t) (total-one a xs h)

  pub eval-zero : (c : F) (cs : List F) → eval (c ∷ cs) zero ≡ c
  unfolding eval
  eval-zero c cs = ap (λ t. t ⊞ c) (mul_zero (eval cs zero)) ∙ zero_add c
