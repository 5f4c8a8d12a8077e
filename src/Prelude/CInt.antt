-- ===== src/Prelude/CInt.antt =====
-- C integers of 32 bits: `unsigned int` as a number below 2 ^ 32, `int` as the integer it stands for.
use Prim.Native.Nat.{ℕ, ◌-◌, ◌*◌, ◌/◌, ◌%◌, ◌^◌, ◌<◌}
use native.Mathlib.Omega.{arith}
use couv.Prelude.Tests.{ltb, if◌then◌else◌}
use couv.Prelude.Int.{ℤ, pos, negsuc}

-- The value of an `int` with the given bit pattern.
abbrev pub signed32 : ℕ → ℤ
signed32 w = if ltb w (2 ^ 31) then pos w else negsuc (2 ^ 32 - w - 1)

-- The conversion `(unsigned int)z`.
abbrev pub to_uint : ℤ → ℕ
to_uint (pos n) = n % 2 ^ 32
to_uint (negsuc n) = 2 ^ 32 - 1 - n % 2 ^ 32

-- The conversion `(int)z`.
abbrev pub to_int : ℤ → ℤ
to_int z = signed32 (to_uint z)

-- The conversion `(int)n` of a `size_t`.
abbrev pub int_of_size : ℕ → ℤ
int_of_size n = signed32 (n % 2 ^ 32)

abbrev pub int_max : ℕ
int_max = 2 ^ 31 - 1

abbrev pub size_max : ℕ
size_max = 2 ^ 64

-- `x << k` and `x >> k` of an `unsigned int`.
abbrev pub shl : ℕ → ℕ → ℕ
shl x k = x * 2 ^ k % 2 ^ 32

abbrev pub shr : ℕ → ℕ → ℕ
shr x k = x / 2 ^ k

-- The conversion `(unsigned char)x`, and `x & 0xFF`.
abbrev pub low_byte : ℕ → ℕ
low_byte x = x % 2 ^ 8

pub to_uint-lt : (z : ℤ) → to_uint z < 2 ^ 32
to_uint-lt (pos n) = omega arith
to_uint-lt (negsuc n) = omega arith

-- The conversion `(size_t)z`.
abbrev pub to_size : ℤ → ℕ
to_size (pos n) = n % size_max
to_size (negsuc n) = size_max - 1 - n % size_max
