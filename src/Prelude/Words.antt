-- ===== src/Prelude/Words.antt =====
-- Machine words as native numbers. An `int32_t` is its bit pattern, a number below `2 ^ 32`.
use Prim.Native.Nat.{ℕ, ◌+◌, ◌-◌, ◌%◌, ◌^◌, ◌<◌}
use c_spock_bot.Prelude.Tests.{ltb, if◌then◌else◌}

abbrev pub IsByte : ℕ → Type 0
IsByte b = b < 2 ^ 8

abbrev pub IsU16 : ℕ → Type 0
IsU16 v = v < 2 ^ 16

abbrev pub IsU32 : ℕ → Type 0
IsU32 v = v < 2 ^ 32

abbrev pub IsU64 : ℕ → Type 0
IsU64 v = v < 2 ^ 64

-- `size_t` arithmetic, modulo `2 ^ 64`.
abbrev pub add_size : ℕ → ℕ → ℕ
add_size a b = (a + b) % 2 ^ 64

abbrev pub sub_size : ℕ → ℕ → ℕ
sub_size a b = (a + 2 ^ 64 - b % 2 ^ 64) % 2 ^ 64

-- The conversion of an `int32_t` to a 64-bit unsigned type copies the sign.
abbrev pub sign_extend : ℕ → ℕ
sign_extend w = if ltb w (2 ^ 31) then w else w + 2 ^ 64 - 2 ^ 32

-- Rounds of `for(int i = 0; i < w; i++)`: none for a negative bound.
abbrev pub rounds : ℕ → ℕ
rounds w = if ltb w (2 ^ 31) then w else 0
