-- ===== src/Base/Integers.antt =====
-- The integers over the native numbers, and what the code does with them.
use Prim.Native.Nat.{ℕ, ◌+◌, ◌/◌}
use mathlib.Core.Bool.{Bool, false}
use lotus_build_server.Base.Tests.{ltb, if◌then◌else◌}

-- `negsuc n` is -(n + 1)
pub data ℤ : Type 0 where
  pos negsuc : ℕ → ℤ

abbrev pub is_positive : ℤ → Bool
is_positive (ℤ.pos n) = ltb 0 n
is_positive (ℤ.negsuc n) = false

-- `Math.min(Math.max(n, low), high)` for natural bounds
abbrev pub clamp : ℕ → ℕ → ℤ → ℕ
clamp low high (ℤ.pos n) = if ltb n low then low else if ltb high n then high else n
clamp low high (ℤ.negsuc n) = low

-- `Math.max(0, Math.ceil(n / 1000))`
abbrev pub seconds_up : ℤ → ℕ
seconds_up (ℤ.pos n) = (n + 999) / 1000
seconds_up (ℤ.negsuc n) = 0
