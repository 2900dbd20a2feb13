-- ===== src/Prelude/Words.antt =====
-- Machine words as native numbers. An int32_t is its two's complement bit pattern, below 2 ^ 32;
-- so -1 is `minus_one`, and signed comparisons shift both sides by 2 ^ 31.
use Prim.Native.Nat.{ℕ, ◌+◌, ◌-◌, ◌%◌, ◌^◌}
use mathlib.Core.Bool.{Bool}
use apoll_os.Prelude.Tests.{ltb, leb, if◌then◌else◌}

abbrev pub u8 : ℕ → ℕ
u8 n = n % 2 ^ 8

abbrev pub u16 : ℕ → ℕ
u16 n = n % 2 ^ 16

abbrev pub u32 : ℕ → ℕ
u32 n = n % 2 ^ 32

abbrev pub sub32 : ℕ → ℕ → ℕ
sub32 a b = (a + 2 ^ 32 - b) % 2 ^ 32

-- The int32_t -1.
abbrev pub minus_one : ℕ
minus_one = 0xffff_ffff

-- `w < 0` as an int32_t.
abbrev pub neg32 : ℕ → Bool
neg32 w = leb (2 ^ 31) w

-- `a < b` as int32_t.
abbrev pub slt : ℕ → ℕ → Bool
slt a b = ltb ((a + 2 ^ 31) % 2 ^ 32) ((b + 2 ^ 31) % 2 ^ 32)

-- An int8_t that is widened to int32_t.
abbrev pub sign8 : ℕ → ℕ
sign8 c = if ltb c 128 then c else c + 0xffff_ff00
