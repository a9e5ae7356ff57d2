-- ===== src/Recovery/Field/Tables.antt =====
-- What holds of all bytes, by trying each.
use tpt_identity.Prelude.{
  ℕ, zero, suc, ◌<◌, ◌≡◌, ◌≢◌, refl, Bool, true, ◌&&◌, arith, nat_beq, nat_beq_iff, ltb, ltb→lt,
}
use tpt_identity.Recovery.Field.{◌⊕◌, double, mul_rounds, gf_mul, power, gf_inv}

all_below : ℕ → (ℕ → Bool) → Bool
all_below zero p = true
all_below (suc n) p = p n && all_below n p

all_below_holds : (n : ℕ) (p : ℕ → Bool) (x : ℕ) → all_below n p ≡ true → x < n → p x ≡ true
unfolding all_below
all_below_holds zero p x h lt = absurd (omega arith)
all_below_holds (suc n) p x h lt = ground (arith, all_below_holds n p x)

both :
    (f g : ℕ → ℕ → ℕ)
    → all_below 256 (λ a. all_below 256 (λ b. nat_beq (f a b) (g a b))) ≡ true
    → (a b : ℕ) → a < 256
    → b < 256
    → f a b ≡ g a b
both f g h a b p q = (nat_beq_iff _ _).0 (
    all_below_holds 256 (λ b. nat_beq (f a b) (g a b)) b
      (all_below_holds 256 (λ a. all_below 256 (λ b. nat_beq (f a b) (g a b))) a h p) q)

pub gf_mul_comm : (a b : ℕ) → a < 256 → b < 256 → gf_mul a b ≡ gf_mul b a
unfolding all_below gf_mul mul_rounds
gf_mul_comm = both gf_mul (λ a b. gf_mul b a) refl

-- Doubling is linear, and goes through a product.
pub double-xor : (a b : ℕ) → a < 256 → b < 256 → double (a ⊕ b) ≡ double a ⊕ double b
unfolding all_below
double-xor = both (λ a b. double (a ⊕ b)) (λ a b. double a ⊕ double b) refl

pub double-gf_mul : (a b : ℕ) → a < 256 → b < 256 → double (gf_mul a b) ≡ gf_mul a (double b)
unfolding all_below gf_mul mul_rounds
double-gf_mul = both (λ a b. double (gf_mul a b)) (λ a b. gf_mul a (double b)) refl

double_table : all_below 256 (λ a. ltb (double a) 256) ≡ true
unfolding all_below
double_table = refl

pub double-byte : (a : ℕ) → a < 256 → double a < 256
double-byte a h = ltb→lt _ _ (all_below_holds 256 (λ a. ltb (double a) 256) a double_table h)

one_table : all_below 256 (λ a. nat_beq (gf_mul a 1) a) ≡ true
unfolding all_below gf_mul mul_rounds
one_table = refl

pub gf_mul_one : (a : ℕ) → a < 256 → gf_mul a 1 ≡ a
gf_mul_one a h =
    (nat_beq_iff _ _).0 (all_below_holds 256 (λ a. nat_beq (gf_mul a 1) a) a one_table h)

zero_table : all_below 256 (λ a. nat_beq (gf_mul a 0) 0) ≡ true
unfolding all_below gf_mul mul_rounds
zero_table = refl

pub gf_mul_zero : (a : ℕ) → a < 256 → gf_mul a 0 ≡ 0
gf_mul_zero a h =
    (nat_beq_iff _ _).0 (all_below_holds 256 (λ a. nat_beq (gf_mul a 0) 0) a zero_table h)

inv_table :
    all_below 255 (λ a. nat_beq (gf_mul (suc a) (gf_inv (suc a))) 1 && ltb (gf_inv (suc a)) 256)
    ≡ true
unfolding all_below gf_mul mul_rounds gf_inv power
inv_table = refl

and_parts : (a b : Bool) → (a && b) ≡ true → (a ≡ true) × (b ≡ true)
and_parts a b h = ground arith

pub record Inverse (a : ℕ) : Type 0 where
  pub byte : gf_inv a < 256
  pub inverts : gf_mul a (gf_inv a) ≡ 1

pub gf_inv-Inverse : (a : ℕ) → a < 256 → a ≢ 0 → Inverse a
gf_inv-Inverse zero p h = absurd (h refl)
gf_inv-Inverse (suc a) p h =
    let both_hold =
      and_parts (nat_beq (gf_mul (suc a) (gf_inv (suc a))) 1) (ltb (gf_inv (suc a)) 256) (
        all_below_holds 255
          (λ a. nat_beq (gf_mul (suc a) (gf_inv (suc a))) 1 && ltb (gf_inv (suc a)) 256) a inv_table
          (omega arith)) in
    record { byte = ltb→lt _ _ both_hold.1; inverts = (nat_beq_iff _ _).0 both_hold.0 }
