-- ===== src/Prelude/Integers.antt =====
-- Go's `int` of 64 bits where it may be negative: what JSON numbers decode to.
use Prim.Native.Nat.{ℕ, zero, suc, ◌-◌, ◌^◌}
use mathlib.Core.Bool.{Bool, true, false}
use gols_bash.Prelude.Tests.{◌==◌, if◌then◌else◌}

pub data ℤ : Type 0 where
  pos : ℕ → ℤ
  negsuc : ℕ → ℤ

-- n > 0
unfoldable pub is_positive : ℤ → Bool
is_positive (pos zero) = false
is_positive (pos (suc n)) = true
is_positive (negsuc n) = false

-- n < 0
unfoldable pub is_negative : ℤ → Bool
is_negative (pos n) = false
is_negative (negsuc n) = true

-- n + 1, which wraps round at 2^63.
unfoldable pub add_one : ℤ → ℤ
add_one (pos n) = if n == 2 ^ 63 - 1 then negsuc (2 ^ 63 - 1) else pos (suc n)
add_one (negsuc zero) = pos zero
add_one (negsuc (suc n)) = negsuc n

-- The conversion to `uint` of a number that is not negative.
unfoldable pub to_uint : ℤ → ℕ
to_uint (pos n) = n
to_uint (negsuc n) = 0
