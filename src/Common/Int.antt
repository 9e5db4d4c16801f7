-- ===== src/Common/Int.antt =====
-- The integers over the native numbers, for an `int` that stays small.
use Prim.Native.Nat.{ℕ, zero, suc, compare, Ordering}
use mathlib.Core.Bool.{Bool, true, false}

-- `negsuc n` is -(n + 1).
pub data ℤ : Type 0 where
  pos : ℕ → ℤ
  negsuc : ℕ → ℤ

-- `x++` and `x--`
unfoldable pub increment : ℤ → ℤ
increment (pos n) = pos (suc n)
increment (negsuc zero) = pos zero
increment (negsuc (suc n)) = negsuc n

unfoldable pub decrement : ℤ → ℤ
decrement (pos zero) = negsuc zero
decrement (pos (suc n)) = pos n
decrement (negsuc n) = negsuc (suc n)

-- `z == n`
abbrev pub is_number : ℤ → ℕ → Bool
is_number (pos m) n = elim (compare m n) [ Ordering.eq ↦ true | _ ↦ false ]
is_number (negsuc m) n = false
