-- ===== src/Prelude/Int.antt =====
-- The C++ `int`, as an integer: `negsuc n` is -(n + 1).
use Prim.Native.Nat.{ℕ, max}

pub data ℤ : Type 0 where
  pos : ℕ → ℤ
  negsuc : ℕ → ℤ

-- `std::max(1, n)`
abbrev pub at_least_one : ℤ → ℕ
at_least_one (pos n) = max 1 n
at_least_one (negsuc n) = 1
