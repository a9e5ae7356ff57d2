-- ===== src/Recovery/Field/Laws.antt =====
-- gfMul and gfInv make the bytes a field, with exclusive or for addition.
use Prim.Native.Nat.{bit_and}
use tpt_identity.Prelude.{
  ℕ, zero, suc, ◌<◌, ◌/◌, ◌≡◌, ◌⊎◌, refl, sym, ◌∙◌, Bool, not, nat_beq, arith, Bool-cases, inl, inr,
}
use tpt_identity.Recovery.Field.{◌⊕◌, double, mul_rounds, gf_mul, gf_inv}
use tpt_identity.Recovery.Field.Xor.{xor_assoc, xor_comm, xor_self, xor_zero, xor-byte}
use tpt_identity.Recovery.Field.Tables.{
  gf_mul_comm, double-xor, double-gf_mul, double-byte, gf_mul_zero, gf_mul_one, gf_inv-Inverse,
}

abbrev bit : ℕ → Bool
bit b = not (nat_beq (bit_and b 1) 0)

xor_exchange : (a b c d : ℕ) → (a ⊕ b) ⊕ (c ⊕ d) ≡ (a ⊕ c) ⊕ (b ⊕ d)
xor_exchange a b c d =
    rw
      (
        xor_assoc a b (c ⊕ d),
        sym (xor_assoc b c d),
        xor_comm b c,
        xor_assoc c b d,
        sym (xor_assoc a c (b ⊕ d)),
      )
      refl

mul_rounds-byte : (n p a b : ℕ) → p < 256 → a < 256 → mul_rounds n p a b < 256
unfolding mul_rounds
mul_rounds-byte zero p a b h k = h
mul_rounds-byte (suc n) p a b h k = elim (Bool-cases (bit b)) [
  | inl odd ↦
      rw odd (mul_rounds-byte n (p ⊕ a) (double a) (b / 2) (xor-byte p a h k) (double-byte a k))
  | inr even ↦ rw even (mul_rounds-byte n p (double a) (b / 2) h (double-byte a k))
]

pub gf_mul-byte : (a b : ℕ) → a < 256 → gf_mul a b < 256
unfolding gf_mul
gf_mul-byte a b h = mul_rounds-byte 8 0 a b (omega arith) h

mul_rounds-xor :
    (n p q a b c : ℕ)
    → a < 256
    → b < 256
    → mul_rounds n (p ⊕ q) (a ⊕ b) c ≡ mul_rounds n p a c ⊕ mul_rounds n q b c
unfolding mul_rounds
mul_rounds-xor zero p q a b c h k = refl
mul_rounds-xor (suc n) p q a b c h k = elim (Bool-cases (bit c)) [
  | inl odd ↦
      rw (odd, double-xor a b h k, xor_exchange p q a b)
        (mul_rounds-xor n (p ⊕ a) (q ⊕ b) (double a) (double b) (c / 2) (double-byte a h)
          (double-byte b k))
  | inr even ↦
      rw (even, double-xor a b h k)
        (mul_rounds-xor n p q (double a) (double b) (c / 2) (double-byte a h) (double-byte b k))
]

pub gf_mul-xor : (a b c : ℕ) → a < 256 → b < 256 → gf_mul (a ⊕ b) c ≡ gf_mul a c ⊕ gf_mul b c
unfolding gf_mul
gf_mul-xor a b c h k = mul_rounds-xor 8 0 0 a b c h k

pub gf_mul-xor_right :
    (a b c : ℕ) → a < 256 → b < 256 → c < 256 → gf_mul a (b ⊕ c) ≡ gf_mul a b ⊕ gf_mul a c
gf_mul-xor_right a b c h k l =
    gf_mul_comm a (b ⊕ c) h (xor-byte b c k l)
    ∙ gf_mul-xor b c a k l
    ∙ (λ i. gf_mul_comm b a k h i ⊕ gf_mul_comm c a l h i)

mul_rounds-gf_mul :
    (n a p b c : ℕ)
    → a < 256
    → p < 256
    → b < 256
    → mul_rounds n (gf_mul a p) (gf_mul a b) c ≡ gf_mul a (mul_rounds n p b c)
unfolding mul_rounds
mul_rounds-gf_mul zero a p b c h k l = refl
mul_rounds-gf_mul (suc n) a p b c h k l = elim (Bool-cases (bit c)) [
  | inl odd ↦
      rw (odd, double-gf_mul a b h l, sym (gf_mul-xor_right a p b h k l))
        (mul_rounds-gf_mul n a (p ⊕ b) (double b) (c / 2) h (xor-byte p b k l) (double-byte b l))
  | inr even ↦
      rw (even, double-gf_mul a b h l)
        (mul_rounds-gf_mul n a p (double b) (c / 2) h k (double-byte b l))
]

pub gf_mul_assoc : (a b c : ℕ) → a < 256 → b < 256 → gf_mul (gf_mul a b) c ≡ gf_mul a (gf_mul b c)
unfolding gf_mul
gf_mul_assoc a b c h k =
    (λ i. mul_rounds 8 (sym (gf_mul_zero a h) i) (gf_mul a b) c)
    ∙ mul_rounds-gf_mul 8 a 0 b c h (omega arith) k

-- The laws of a field that one, two or three bytes obey.
pub record FieldLaws (a b c : ℕ) : Type 0 where
  pub sum_byte : a ⊕ b < 256
  pub product_byte : gf_mul a b < 256
  pub sum_assoc : (a ⊕ b) ⊕ c ≡ a ⊕ (b ⊕ c)
  pub sum_comm : a ⊕ b ≡ b ⊕ a
  pub sum_zero : a ⊕ 0 ≡ a
  pub sum_self : a ⊕ a ≡ 0
  pub product_assoc : gf_mul (gf_mul a b) c ≡ gf_mul a (gf_mul b c)
  pub product_comm : gf_mul a b ≡ gf_mul b a
  pub product_one : gf_mul a 1 ≡ a
  pub distributes : gf_mul a (b ⊕ c) ≡ gf_mul a b ⊕ gf_mul a c
  pub inverse : (a ≡ 0) ⊎ (gf_mul a (gf_inv a) ≡ 1)

inverse_or_zero : (a : ℕ) → a < 256 → (a ≡ 0) ⊎ (gf_mul a (gf_inv a) ≡ 1)
inverse_or_zero zero h = inl refl
inverse_or_zero (suc a) h = inr (gf_inv-Inverse (suc a) h (λ e. absurd (omega (arith, e)))).inverts

-- The bytes with exclusive or and gfMul are a field of characteristic 2, in which gfInv inverts each
-- byte but 0.
pub bytes-FieldLaws : (a b c : ℕ) → a < 256 → b < 256 → c < 256 → FieldLaws a b c
bytes-FieldLaws a b c h k l = record {
  sum_byte = xor-byte a b h k;
  product_byte = gf_mul-byte a b h;
  sum_assoc = xor_assoc a b c;
  sum_comm = xor_comm a b;
  sum_zero = xor_zero a;
  sum_self = xor_self a;
  product_assoc = gf_mul_assoc a b c h k;
  product_comm = gf_mul_comm a b h k;
  product_one = gf_mul_one a h;
  distributes = gf_mul-xor_right a b c h k l;
  inverse = inverse_or_zero a h;
}
