-- ===== src/Base/Int.antt =====
-- Go's signed integers, as a number or the negative of a successor.
use Prim.Native.Nat.{ℕ, zero, suc}

pub data ℤ : Type 0 where
  pos negsuc : ℕ → ℤ

-- `if x <= 0 { x = fallback }`, which leaves a positive number
abbrev pub positive_or : ℕ → ℤ → ℕ
positive_or fallback (pos zero) = fallback
positive_or fallback (pos (suc n)) = suc n
positive_or fallback (negsuc n) = fallback
