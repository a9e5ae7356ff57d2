-- ===== src/Recovery/Field.antt =====
-- pkg/recovery/recovery.go: arithmetic of GF(256) on bytes, as the code's loops over bits do it.
pub mod Xor
pub mod Tables
pub mod Laws
use Prim.Native.Nat.{bit_and, bit_xor}
use tpt_identity.Prelude.{
  ℕ, zero, suc, ◌*◌, ◌/◌, ◌%◌, Bool, List, [], ◌∷◌, not, nat_beq, if◌then◌else◌,
}

infixl 65 ◌⊕◌
abbrev pub ◌⊕◌ : ℕ → ℕ → ℕ
a ⊕ b = bit_xor a b

-- `a <<= 1`, and the polynomial where the high bit goes out.
abbrev pub double : ℕ → ℕ
double a =
    let hi = bit_and a 0x80 in
    let shifted = a * 2 % 256 in if not (nat_beq hi 0) then shifted ⊕ 0x1b else shifted

-- The rounds of gfMul that are left.
unfoldable pub mul_rounds : ℕ → ℕ → ℕ → ℕ → ℕ
mul_rounds zero p a b = p
mul_rounds (suc n) p a b =
    mul_rounds n (if not (nat_beq (bit_and b 1) 0) then p ⊕ a else p) (double a) (b / 2)

unfoldable pub gf_mul : ℕ → ℕ → ℕ
unfolding mul_rounds
gf_mul a b = mul_rounds 8 0 a b

-- The exponent 254 has eight bits.
unfoldable pub power : ℕ → ℕ → ℕ → ℕ → ℕ
unfolding gf_mul
power zero result a exp = result
power (suc n) result a exp =
    let more =
      power n (if not (nat_beq (bit_and exp 1) 0) then gf_mul result a else result) (gf_mul a a)
        (exp / 2) in
    if nat_beq exp 0 then result else more

unfoldable pub gf_inv : ℕ → ℕ
unfolding power
gf_inv a = if nat_beq a 0 then 0 else power 8 1 a 254
