-- ===== src/Base/Bits.antt =====
-- Masks: `flags & mask` used as a condition.
use Prim.Native.Nat.{ℕ, bit_and}
use mathlib.Core.Bool.{Bool, not}
use server_dev_lib.Base.Tests.{◌==◌}

-- `flags & mask` as a condition.
abbrev pub has_bits : ℕ → ℕ → Bool
has_bits flags mask = not (bit_and flags mask == 0)
