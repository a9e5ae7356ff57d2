-- ===== src/Recovery/Field/Xor.antt =====
-- Exclusive or of natural numbers: its digits, and that it is a group.
use Prim.Native.Nat.{digits, bit_xor-bitwise, differ}
use native.Mathlib.Nat.{le_refl, pow-suc}
use tpt_identity.Prelude.{
  ℕ, zero, suc, ◌+◌, ◌*◌, ◌/◌, ◌%◌, ◌≤◌, ◌<◌, ◌^◌, ◌≡◌, refl, arith, ◌∙◌, ap,
}
use tpt_identity.Recovery.Field.{◌⊕◌}

-- The native operation goes through binary digits on fuel; enough fuel is enough.
fuel_irrelevant :
    (n m a b : ℕ) → a ≤ n → a ≤ m → digits (λ b. b) differ n a b ≡ digits (λ b. b) differ m a b
fuel_irrelevant zero zero a b p q = refl
fuel_irrelevant zero (suc m) zero b p q = refl
fuel_irrelevant zero (suc m) (suc a) b p q = absurd (omega arith)
fuel_irrelevant (suc n) zero zero b p q = refl
fuel_irrelevant (suc n) zero (suc a) b p q = absurd (omega arith)
fuel_irrelevant (suc n) (suc m) zero b p q = refl
fuel_irrelevant (suc n) (suc m) (suc a) b p q =
    rw (fuel_irrelevant n m (suc a / 2) (b / 2) (omega arith) (omega arith))

differ_digits : (a b : ℕ) → a < 2 → b < 2 → differ a b ≡ (a + b) % 2
differ_digits zero zero p q = refl
differ_digits zero (suc zero) p q = refl
differ_digits (suc zero) zero p q = refl
differ_digits (suc zero) (suc zero) p q = refl
differ_digits (suc (suc a)) b p q = absurd (omega arith)
differ_digits zero (suc (suc b)) p q = absurd (omega arith)
differ_digits (suc zero) (suc (suc b)) p q = absurd (omega arith)

xor-step : (a b : ℕ) → a ⊕ b ≡ (a / 2 ⊕ b / 2) * 2 + (a + b) % 2
xor-step zero b = simp bit_xor-bitwise (omega arith)
xor-step (suc a) b = simp bit_xor-bitwise (
    omega (
      arith,
      fuel_irrelevant a (suc a / 2) (suc a / 2) (b / 2) (omega arith) (le_refl _),
      differ_digits (suc a % 2) (b % 2) (omega arith) (omega arith),
    ))

xor-half : (a b : ℕ) → (a ⊕ b) / 2 ≡ a / 2 ⊕ b / 2
xor-half a b = omega (arith, xor-step a b)

xor-digit : (a b : ℕ) → (a ⊕ b) % 2 ≡ (a + b) % 2
xor-digit a b = omega (arith, xor-step a b)

assoc_fuel : (n a b c : ℕ) → a ≤ n → b ≤ n → c ≤ n → (a ⊕ b) ⊕ c ≡ a ⊕ (b ⊕ c)
assoc_fuel zero zero zero zero p q r = refl
assoc_fuel zero (suc a) b c p q r = absurd (omega arith)
assoc_fuel zero zero (suc b) c p q r = absurd (omega arith)
assoc_fuel zero zero zero (suc c) p q r = absurd (omega arith)
assoc_fuel (suc n) a b c p q r = omega (
  arith,
  xor-step (a ⊕ b) c,
  xor-step a (b ⊕ c),
  ap (λ (t : ℕ). t ⊕ c / 2) (xor-half a b),
  ap (λ (t : ℕ). a / 2 ⊕ t) (xor-half b c),
  xor-digit a b,
  xor-digit b c,
  assoc_fuel n (a / 2) (b / 2) (c / 2) (omega arith) (omega arith) (omega arith),
)

pub xor_assoc : (a b c : ℕ) → (a ⊕ b) ⊕ c ≡ a ⊕ (b ⊕ c)
xor_assoc a b c = assoc_fuel (a + b + c) a b c (omega arith) (omega arith) (omega arith)

comm_fuel : (n a b : ℕ) → a ≤ n → b ≤ n → a ⊕ b ≡ b ⊕ a
comm_fuel zero zero zero p q = refl
comm_fuel zero (suc a) b p q = absurd (omega arith)
comm_fuel zero zero (suc b) p q = absurd (omega arith)
comm_fuel (suc n) a b p q =
    omega
      (arith, xor-step a b, xor-step b a, comm_fuel n (a / 2) (b / 2) (omega arith) (omega arith))

pub xor_comm : (a b : ℕ) → a ⊕ b ≡ b ⊕ a
xor_comm a b = comm_fuel (a + b) a b (omega arith) (omega arith)

self_fuel : (n a : ℕ) → a ≤ n → a ⊕ a ≡ 0
self_fuel zero zero p = refl
self_fuel zero (suc a) p = absurd (omega arith)
self_fuel (suc n) a p = omega (arith, xor-step a a, self_fuel n (a / 2) (omega arith))

pub xor_self : (a : ℕ) → a ⊕ a ≡ 0
xor_self a = self_fuel a a (omega arith)

pub zero_xor : (a : ℕ) → 0 ⊕ a ≡ a
zero_xor a = simp bit_xor-bitwise refl

pub xor_zero : (a : ℕ) → a ⊕ 0 ≡ a
xor_zero a = xor_comm a 0 ∙ zero_xor a

xor-below : (k a b : ℕ) → a < 2 ^ k → b < 2 ^ k → a ⊕ b < 2 ^ k
xor-below zero zero zero p q = p
xor-below zero (suc a) b p q = absurd (omega arith)
xor-below zero zero (suc b) p q = absurd (omega arith)
xor-below (suc k) a b p q = omega (
  arith,
  pow-suc 2 k,
  xor-step a b,
  xor-below k (a / 2) (b / 2) (omega (arith, pow-suc 2 k)) (omega (arith, pow-suc 2 k)),
)

pub xor-byte : (a b : ℕ) → a < 256 → b < 256 → a ⊕ b < 256
xor-byte a b p q = xor-below 8 a b p q
