-- ===== src/Prelude/Int.antt =====
-- Python's `int` where it may be negative: `negsuc n` is -(n + 1).
use Prim.Native.Nat.{ℕ, ◌-◌}
use first_agent_dev.Prelude.Tests.{leb, if◌then◌else◌}

pub data ℤ : Type 0 where
  pos : ℕ → ℤ
  negsuc : ℕ → ℤ

-- `max(v, 0)`
abbrev pub clamp : ℤ → ℕ
clamp (pos n) = n
clamp (negsuc _) = 0

-- the difference of two natural numbers
abbrev pub diff : ℕ → ℕ → ℤ
diff a b = if leb b a then pos (a - b) else negsuc (b - a - 1)
