-- ===== src/Python/Int.antt =====
-- Python's `int`, as far as the program uses it: comparison with a small constant.
use fastapi_project.Prelude.{ℕ, Bool, true, ltb}

-- `negsuc n` is -(n + 1).
pub data ℤ : Type 0 where
  pos : ℕ → ℤ
  negsuc : ℕ → ℤ

-- `v < k` for a constant k that is at least 0.
abbrev pub is_below : ℤ → ℕ → Bool
is_below (pos n) k = ltb n k
is_below (negsuc n) k = true
