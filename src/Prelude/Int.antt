-- ===== src/Prelude/Int.antt =====
-- Python's signed integers where a value may be negative, and their comparisons with numerals.
use Prim.Native.Nat.{ℕ}
use mathlib.Core.Bool.{Bool, true}
use bulk_http.Prelude.Tests.{ltb, leb}

-- `negsuc n` is -(n + 1).
pub data ℤ : Type 0 where
  pos : ℕ → ℤ
  negsuc : ℕ → ℤ

-- z < n for a numeral n
abbrev pub lt_num : ℤ → ℕ → Bool
lt_num (pos m) n = ltb m n
lt_num (negsuc m) n = true

-- the number of rounds of `for _ in range(z)`
abbrev pub rounds : ℤ → ℕ
rounds (pos n) = n
rounds (negsuc n) = 0

-- z <= n
abbrev pub int_le : ℤ → ℕ → Bool
int_le (pos m) n = leb m n
int_le (negsuc m) n = true
