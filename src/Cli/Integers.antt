-- ===== src/Cli/Integers.antt =====
-- `i32` as far as the program uses it: whole numbers, and the remainder that keeps the sign.
use mlua_scheduler.Base.{ℕ, zero, suc, ◌+◌, ◌%◌, Bool, false, ◌==◌}

pub data ℤ : Type 0 where
  pos : ℕ → ℤ
  negsuc : ℕ → ℤ

-- - n
unfoldable pub neg : ℕ → ℤ
neg zero = pos 0
neg (suc n) = negsuc n

-- `n % d` for a positive `d`
unfoldable pub rem : ℤ → ℕ → ℤ
unfolding neg
rem (pos n) d = pos (n % d)
rem (negsuc n) d = neg ((n + 1) % d)

-- `n == k` for a `k` that is not negative
unfoldable pub equals : ℤ → ℕ → Bool
equals (pos n) k = n == k
equals (negsuc n) k = false
