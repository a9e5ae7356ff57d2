-- ===== src/Recovery/Sharing/Bytes.antt =====
-- The bytes as a field, and gfPolyEval and gfLagrange as its evaluation and interpolation.
use native.Mathlib.Bridge.{le_prop}
use mathlib.Core.HLevel.{Σ_prop_path}
use tpt_identity.Prelude.{
  ℕ, zero, suc, ◌<◌, ◌≡◌, ◌≢◌, ◌↔◌, refl, ap, true, List, [], ◌∷◌, map, nat_beq, nat_beq_iff, arith,
}
use tpt_identity.Recovery.Field.{◌⊕◌, gf_mul, gf_inv}
use tpt_identity.Recovery.Field.Laws.{FieldLaws, bytes-FieldLaws, gf_mul-byte}
use tpt_identity.Recovery.Field.Tables.{gf_inv-Inverse}
use tpt_identity.Recovery.Field.Xor.{xor-byte}
use tpt_identity.Recovery.Interpolation.{Field, eval}
use tpt_identity.Recovery.Sharing.{gf_poly_eval}

abbrev pub Byte : Type 0
Byte = (n : ℕ) × (n < 256)

pub Byte-path : {a b : Byte} → a.0 ≡ b.0 → a ≡ b
Byte-path e = Σ_prop_path (λ n. le_prop) e

abbrev zero_byte : Byte
zero_byte = (0, omega arith)

abbrev one_byte : Byte
one_byte = (1, omega arith)

pub gf_inv-byte : (a : ℕ) → a < 256 → gf_inv a < 256
unfolding gf_inv
gf_inv-byte zero h = h
gf_inv-byte (suc a) h = (gf_inv-Inverse (suc a) h (λ e. absurd (omega (arith, e)))).byte

module _ (a b c : Byte) where
  pub laws : FieldLaws a.0 b.0 c.0
  laws = bytes-FieldLaws a.0 b.0 c.0 a.1 b.1 c.1

pub mul_inverse : (a : Byte) → a ≢ zero_byte → gf_mul a.0 (gf_inv a.0) ≡ 1
mul_inverse a h = (gf_inv-Inverse a.0 a.1 (λ e. h (Byte-path e))).inverts

pub same_byte_iff : (a b : Byte) → (nat_beq a.0 b.0 ≡ true) ↔ (a ≡ b)
same_byte_iff a b = (
  (λ e. Byte-path ((nat_beq_iff a.0 b.0).0 e)),
  (λ e. (nat_beq_iff a.0 b.0).1 (ap (λ (x : Byte). x.0) e)),
)

pub one-ne-zero : one_byte ≢ zero_byte
one-ne-zero e = absurd (omega (arith, ap (λ (x : Byte). x.0) e))

abbrev pub byte_field : Field Byte
byte_field = record {
  zero = zero_byte;
  one = one_byte;
  ◌⊞◌ = λ a b. (a.0 ⊕ b.0, xor-byte a.0 b.0 a.1 b.1);
  ◌⊠◌ = λ a b. (gf_mul a.0 b.0, gf_mul-byte a.0 b.0 a.1);
  inv = λ a. (gf_inv a.0, gf_inv-byte a.0 a.1);
  same = λ a b. nat_beq a.0 b.0;
  same_iff = same_byte_iff;
  add_assoc = λ a b c. Byte-path (laws a b c).sum_assoc;
  add_comm = λ a b. Byte-path (laws a b a).sum_comm;
  add_zero = λ a. Byte-path (laws a a a).sum_zero;
  add_self = λ a. Byte-path (laws a a a).sum_self;
  mul_assoc = λ a b c. Byte-path (laws a b c).product_assoc;
  mul_comm = λ a b. Byte-path (laws a b a).product_comm;
  mul_one = λ a. Byte-path (laws a a a).product_one;
  mul_add = λ a b c. Byte-path (laws a b c).distributes;
  mul_inv = λ a h. Byte-path (mul_inverse a h);
  one-ne-zero = one-ne-zero;
}

abbrev pub values : List Byte → List ℕ
values = map (λ (b : Byte). b.0)

pub gf_poly_eval-eval :
    (p : List Byte) (x : Byte) → gf_poly_eval (values p) x.0 ≡ (eval byte_field p x).0
unfolding gf_poly_eval eval
gf_poly_eval-eval [] x = refl
gf_poly_eval-eval (c ∷ p) x = ap (λ t. gf_mul t x.0 ⊕ c.0) (gf_poly_eval-eval p x)
