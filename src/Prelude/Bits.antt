-- ===== src/Prelude/Bits.antt =====
-- Bit masks: the flags of the settings and the kinds of a report are tested, set and cleared one bit
-- at a time.
use flexfcapf.Prelude.Tests.{◌==◌, if◌then◌else◌}
use Prim.Native.Nat.{ℕ, ◌+◌, ◌-◌, ◌/◌, ◌%◌, ◌^◌}
use mathlib.Core.Bool.{Bool}

-- (m & 1 << k) != 0
abbrev pub has_bit : ℕ → ℕ → Bool
has_bit m k = m / 2 ^ k % 2 == 1

-- m | 1 << k
abbrev pub set_bit : ℕ → ℕ → ℕ
set_bit m k = if has_bit m k then m else m + 2 ^ k

-- m & ~(1 << k)
abbrev pub clear_bit : ℕ → ℕ → ℕ
clear_bit m k = if has_bit m k then m - 2 ^ k else m
