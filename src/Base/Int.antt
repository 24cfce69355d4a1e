-- ===== src/Base/Int.antt =====
-- Exit codes and other integers that may be negative: `negsuc n` is -(n + 1).
use bmk_dev.Base.{ℕ, Bool, false, eqb}

pub data ℤ : Type 0 where
  pos : ℕ → ℤ
  negsuc : ℕ → ℤ

-- `z == n`
abbrev pub is_ℕ : ℤ → ℕ → Bool
is_ℕ (pos m) n = eqb m n
is_ℕ (negsuc m) n = false
