-- ===== src/Prelude/Integers.antt =====
-- Go's int and int64, of either sign.
use tpt_identity.Prelude.Tests.{ltb}
use Prim.Native.Nat.{ℕ}
use mathlib.Core.Bool.{Bool, true}

-- `negsuc n` is -(n + 1).
pub data ℤ : Type 0 where
  pos negsuc : ℕ → ℤ

-- `t > i` of a time, which is not negative.
abbrev pub past : ℕ → ℤ → Bool
past t (pos i) = ltb i t
past t (negsuc _) = true
