-- ===== src/Recovery/Interpolation/Fractions.antt =====
-- The products that gfLagrange divides, numerator and denominator apart.
use tpt_identity.Prelude.{
  ◌≡◌, ◌≢◌, sym, ap, ◌∙◌, List, [], ◌∷◌, if◌then◌else◌, Bool-cases, inl, inr,
}
use tpt_identity.Recovery.Interpolation.{
  Field, ratio, mul_left_comm, mul_zero, one_mul, add-ne-zero,
}

module _ {F : Type 0} (k : Field F) where
  open k use {zero, one, ◌⊞◌, ◌⊠◌, inv, same, mul_assoc, mul_comm, mul_one, mul_inv, one-ne-zero}

  infixl 65 ◌⊞◌
  infixl 70 ◌⊠◌
  -- The points other than x, and their distances from x.
  unfoldable pub num : F → List F → F
  num x [] = one
  num x (z ∷ zs) = (if same x z then one else z) ⊠ num x zs

  unfoldable pub den : F → List F → F
  den x [] = one
  den x (z ∷ zs) = (if same x z then one else x ⊞ z) ⊠ den x zs

  mul-ne-zero : (c d : F) → c ≢ zero → d ≢ zero → c ⊠ d ≢ zero
  mul-ne-zero c d h l e = l (
      sym (one_mul k d)
      ∙ ap (λ t. t ⊠ d) (sym (mul_inv c h) ∙ mul_comm c (inv c))
      ∙ mul_assoc (inv c) c d
      ∙ ap (λ t. inv c ⊠ t) e
      ∙ mul_zero k (inv c))

  four_parts : (c d i j : F) → (c ⊠ d) ⊠ (i ⊠ j) ≡ (c ⊠ i) ⊠ (d ⊠ j)
  four_parts c d i j =
      mul_assoc c d (i ⊠ j) ∙ ap (λ t. c ⊠ t) (mul_left_comm k d i j) ∙ sym (mul_assoc c i (d ⊠ j))

  -- What makes one of a factor is its inverse.
  inverse_unique : (c i : F) → c ≢ zero → c ⊠ i ≡ one → inv c ≡ i
  inverse_unique c i h e =
      sym (mul_one (inv c))
      ∙ ap (λ t. inv c ⊠ t) (sym e)
      ∙ sym (mul_assoc (inv c) c i)
      ∙ ap (λ t. t ⊠ i) (mul_comm (inv c) c ∙ mul_inv c h)
      ∙ one_mul k i

  inv-mul : (c d : F) → c ≢ zero → d ≢ zero → inv (c ⊠ d) ≡ inv c ⊠ inv d
  inv-mul c d h l =
      inverse_unique (c ⊠ d) (inv c ⊠ inv d) (mul-ne-zero c d h l)
        (four_parts c d (inv c) (inv d) ∙ (λ i. mul_inv c h i ⊠ mul_inv d l i) ∙ mul_one one)

  inv-one : inv one ≡ one
  inv-one = inverse_unique one one one-ne-zero (mul_one one)

  den-ne-zero : (x : F) (zs : List F) → den x zs ≢ zero
  unfolding den
  den-ne-zero x [] = one-ne-zero
  den-ne-zero x (z ∷ zs) = elim (Bool-cases (same x z)) [
    | inl e ↦ rw (e, den) (mul-ne-zero one (den x zs) one-ne-zero (den-ne-zero x zs))
    | inr e ↦ rw (e, den) (mul-ne-zero (x ⊞ z) (den x zs) (add-ne-zero k x z e) (den-ne-zero x zs))
  ]

  divided : (a b n d : F) → b ≢ zero → d ≢ zero → (a ⊠ n) ⊠ inv (b ⊠ d) ≡ (a ⊠ inv b) ⊠ (n ⊠ inv d)
  divided a b n d h l = ap (λ t. (a ⊠ n) ⊠ t) (inv-mul b d h l) ∙ four_parts a n (inv b) (inv d)

  pub num-den : (x : F) (zs : List F) → num x zs ⊠ inv (den x zs) ≡ ratio k x zs
  unfolding num den ratio
  num-den x [] = ap (λ t. one ⊠ t) inv-one ∙ mul_one one
  num-den x (z ∷ zs) = elim (Bool-cases (same x z)) [
    | inl e ↦
        rw (e, num, den, ratio)
          (divided one one (num x zs) (den x zs) one-ne-zero (den-ne-zero x zs)
            ∙ (λ i. (one ⊠ inv-one i) ⊠ num-den x zs i)
            ∙ ap (λ t. t ⊠ ratio k x zs) (mul_one one))
    | inr e ↦
        rw (e, num, den, ratio)
          (divided z (x ⊞ z) (num x zs) (den x zs) (add-ne-zero k x z e) (den-ne-zero x zs)
            ∙ (λ i. (z ⊠ inv (x ⊞ z)) ⊠ num-den x zs i))
  ]
