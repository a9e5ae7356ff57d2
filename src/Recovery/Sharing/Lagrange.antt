-- ===== src/Recovery/Sharing/Lagrange.antt =====
-- gfLagrange, whose loops tell the points apart by their positions, computes the interpolation at 0.
use tpt_identity.Prelude.{
  ℕ, zero, suc, ◌+◌, ◌≡◌, refl, sym, ap, ◌∙◌, subst, Bool, true, false, List, [], ◌∷◌, map, nat_beq,
  if◌then◌else◌, length, arith, ◌≤◌, ◌<◌,
}
use tpt_identity.Recovery.Field.{◌⊕◌, gf_mul, gf_inv}
use tpt_identity.Recovery.Interpolation.{eval, ratio, sum, Distinct, Apart, interpolates}
use tpt_identity.Recovery.Interpolation.Fractions.{num, den, num-den}
use tpt_identity.Recovery.Sharing.{lagrange_terms, lagrange_sum, gf_lagrange}
use tpt_identity.Recovery.Sharing.Bytes.{Byte, byte_field, values}

abbrev pub drop {ℓ} : {A : Type ℓ} → ℕ → List A → List A
drop zero xs = xs
drop (suc n) [] = []
drop (suc n) (x ∷ xs) = drop n xs

-- The positions from `j` on agree with the values on which point is the i-th, x.
abbrev Agrees : ℕ → Byte → ℕ → List Byte → Type 0
Agrees i x j [] = Unit {0}
Agrees i x j (z ∷ zs) = (nat_beq i j ≡ nat_beq x.0 z.0) × Agrees i x (suc j) zs

abbrev plus : Byte → Byte → Byte
plus a b = byte_field.◌⊞◌ a b

abbrev times : Byte → Byte → Byte
times a b = byte_field.◌⊠◌ a b

abbrev pair : Byte → Byte → ℕ × ℕ
pair n d = (n.0, d.0)

-- One round, on a point that is x or not.
module _ (i j : ℕ) (x z : Byte) (zs : List Byte) (numerator denominator : Byte) where
  round_lem :
      (b : Bool) (n d : Byte)
      → ((n d : Byte)
          → lagrange_terms i x.0 j (values zs) (n.0, d.0)
            ≡ pair (times n numerator) (times d denominator))
      → lagrange_terms i x.0 j
          (values zs)
          (if b then (n.0, d.0) else (gf_mul n.0 z.0, gf_mul d.0 (x.0 ⊕ z.0)))
        ≡ pair
            (times n (times (if b then byte_field.one else z) numerator))
            (times d (times (if b then byte_field.one else plus x z) denominator))
  round_lem true n d ih = ih n d ∙ (λ k. pair (widened n numerator k) (widened d denominator k))
    where
      widened : (n m : Byte) → times n m ≡ times n (times byte_field.one m)
      widened n m = ap (times n) (sym (byte_field.mul_one m) ∙ byte_field.mul_comm m byte_field.one)
  round_lem false n d ih = ih (times n z) (times d (plus x z)) ∙ (λ k.
      pair (byte_field.mul_assoc n z numerator k) (byte_field.mul_assoc d (plus x z) denominator k))

lagrange_terms-num-den :
    (i j : ℕ) (x : Byte) (zs : List Byte) (n d : Byte)
    → Agrees i x j zs
    → lagrange_terms i x.0 j (values zs) (n.0, d.0)
      ≡ pair (times n (num byte_field x zs)) (times d (den byte_field x zs))
unfolding lagrange_terms num den
lagrange_terms-num-den i j x [] n d h =
    λ k. pair (sym (byte_field.mul_one n) k) (sym (byte_field.mul_one d) k)
lagrange_terms-num-den i j x (z ∷ zs) n d h =
    ap
      (λ b.
        lagrange_terms i x.0 (suc j) (values zs)
          (if b then (n.0, d.0) else (gf_mul n.0 z.0, gf_mul d.0 (x.0 ⊕ z.0))))
      h.0
    ∙ round_lem i (suc j) x z zs (num byte_field x zs) (den byte_field x zs) (nat_beq x.0 z.0) n d
        (λ n' d'. lagrange_terms-num-den i (suc j) x zs n' d' h.1)

-- The points from the i-th of `all` on, each at its position.
abbrev AllAgree : List Byte → ℕ → List Byte → Type 0
AllAgree all i [] = Unit {0}
AllAgree all i (x ∷ xs) = Agrees i x 0 all × AllAgree all (suc i) xs

term_lem :
    (all : List Byte) (i : ℕ) (x y : Byte)
    → Agrees i x 0 all
    → gf_mul y.0 (
        gf_mul
          (lagrange_terms i x.0 0 (values all) (1, 1)).0
          (gf_inv (lagrange_terms i x.0 0 (values all) (1, 1)).1))
      ≡ (times y (ratio byte_field x all)).0
term_lem all i x y h =
    ap (λ (t : ℕ × ℕ). gf_mul y.0 (gf_mul t.0 (gf_inv t.1)))
      (lagrange_terms-num-den i 0 x all byte_field.one byte_field.one h)
    ∙ ap (λ (t : Byte). (times y t).0)
        ((λ k.
            times (unit (num byte_field x all) k) (byte_field.inv (unit (den byte_field x all) k)))
          ∙ num-den byte_field x all)
  where
    unit : (a : Byte) → times byte_field.one a ≡ a
    unit a = byte_field.mul_comm byte_field.one a ∙ byte_field.mul_one a

lagrange_sum-sum :
    (all : List Byte) (i : ℕ) (xs : List Byte) (f : Byte → Byte) (r : Byte)
    → AllAgree all i xs
    → lagrange_sum (values all) i (values xs) (values (map f xs)) r.0
      ≡ (plus r (sum byte_field all xs f)).0
unfolding lagrange_sum sum
lagrange_sum-sum all i [] f r h = ap (λ (t : Byte). t.0) (sym (byte_field.add_zero r))
lagrange_sum-sum all i (x ∷ xs) f r h =
    ap (λ t. lagrange_sum (values all) (suc i) (values xs) (values (map f xs)) (r.0 ⊕ t))
      (term_lem all i x (f x) h.0)
    ∙ lagrange_sum-sum all (suc i) xs f (plus r (times (f x) (ratio byte_field x all))) h.1
    ∙ ap (λ (t : Byte). t.0)
        (byte_field.add_assoc r (times (f x) (ratio byte_field x all)) (sum byte_field all xs f))

-- Distinct points agree with their positions.
beq_sym : (a b : ℕ) → nat_beq a b ≡ false → nat_beq b a ≡ false
beq_sym a b h = ground arith

agree-Apart :
    (i j : ℕ) (x : Byte) (zs : List Byte) → i < j → Apart byte_field x zs → Agrees i x j zs
agree-Apart i j x [] h k = tt
agree-Apart i j x (z ∷ zs) h k =
    (sym_false (ground arith) (beq_sym z.0 x.0 k.0), agree-Apart i (suc j) x zs (omega arith) k.1)
  where
    sym_false : {b c : Bool} → b ≡ false → c ≡ false → b ≡ c
    sym_false p q = p ∙ sym q

beq_self : (a b : ℕ) → a ≡ b → nat_beq a b ≡ true
beq_self a b e = ground arith

beq_greater : (i j : ℕ) → nat_beq (j + suc i) j ≡ false
beq_greater i j = ground arith

cons-head : (y x : Byte) (zs rest : List Byte) → y ∷ zs ≡ x ∷ rest → y ≡ x
cons-head y x zs rest e = cc

Apart-drop :
    (z x : Byte) (i : ℕ) (zs rest : List Byte)
    → Apart byte_field z zs
    → drop i zs ≡ x ∷ rest
    → nat_beq x.0 z.0 ≡ false
Apart-drop z x zero [] rest h e = absurd (cc e)
Apart-drop z x (suc i) [] rest h e = absurd (cc e)
Apart-drop z x zero (y ∷ zs) rest h e =
    subst (λ (w : Byte). nat_beq w.0 z.0 ≡ false) (cons-head y x zs rest e) h.0
Apart-drop z x (suc i) (y ∷ zs) rest h e = Apart-drop z x i zs rest h.1 e

agree_at :
    (i j : ℕ) (x : Byte) (zs rest : List Byte)
    → drop i zs ≡ x ∷ rest
    → Distinct byte_field zs
    → Agrees (j + i) x j zs
agree_at zero j x [] rest e h = tt
agree_at (suc i) j x [] rest e h = tt
agree_at zero j x (z ∷ zs) rest e h = (
  beq_self (j + 0) j (omega arith) ∙ sym (beq_self x.0 z.0 (ap (λ (t : Byte). t.0) (sym same))),
  agree-Apart (j + 0) (suc j) x zs (omega arith) (subst (λ w. Apart byte_field w zs) same h.0),
)
  where
    same : z ≡ x
    same = cons-head z x zs rest e
agree_at (suc i) j x (z ∷ zs) rest e h = (
  beq_greater i j ∙ sym (Apart-drop z x i zs rest h.0 e),
  subst (λ n. Agrees n x (suc j) zs) (omega arith) (agree_at i (suc j) x zs rest e h.1),
)

pub drop-suc {ℓ} :
    {A : Type ℓ} (i : ℕ) (all : List A) (x : A) (rest : List A)
    → drop i all ≡ x ∷ rest
    → drop (suc i) all ≡ rest
drop-suc zero [] x rest e = absurd (cc e)
drop-suc (suc i) [] x rest e = absurd (cc e)
drop-suc zero (y ∷ all) x rest e = cc
drop-suc (suc i) (y ∷ all) x rest e = drop-suc i all x rest e

all_agree :
    (all : List Byte) (i : ℕ) (xs : List Byte)
    → drop i all ≡ xs
    → Distinct byte_field all
    → AllAgree all i xs
all_agree all i [] e h = tt
all_agree all i (x ∷ xs) e h = (
  subst (λ n. Agrees n x 0 all) (omega arith) (agree_at i 0 x all xs e h),
  all_agree all (suc i) xs (drop-suc i all x xs e) h,
)

-- From the values of a polynomial at as many distinct points as it has coefficients, or at more,
-- gfLagrange finds its value at 0.
pub gf_lagrange-eval :
    (xs p : List Byte)
    → length p ≤ length xs
    → Distinct byte_field xs
    → gf_lagrange (values xs) (values (map (eval byte_field p) xs))
      ≡ (eval byte_field p byte_field.zero).0
unfolding gf_lagrange
gf_lagrange-eval xs p n h =
    lagrange_sum-sum xs 0 xs (eval byte_field p) byte_field.zero (all_agree xs 0 xs refl h)
    ∙ ap (λ (t : Byte). t.0)
        (byte_field.add_comm byte_field.zero (sum byte_field xs xs (eval byte_field p))
          ∙ byte_field.add_zero (sum byte_field xs xs (eval byte_field p))
          ∙ interpolates byte_field xs p n h)
