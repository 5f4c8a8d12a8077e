-- ===== src/Buffer/Read.antt =====
-- The methods of src/buffer.c that read an integer, and `length`.
-- A byte is a number below 256, as `unsigned char` reads it.
use couv.Prelude.{ℕ, ◌+◌, ◌-◌, ◌^◌, bit_or, leb, if◌then◌else◌}
use couv.Prelude.Int.{ℤ, pos, negsuc, ◌-ℤ◌}
use couv.Prelude.CInt.{signed32, to_int, int_of_size, shl}
use couv.Lua.{Call, pure, ◌>>=◌, ◌>>◌}
use couv.Buffer.Mem.{Heap}
use couv.Buffer.Access.{Buffer, argcheckindex, load}

unfoldable pub read_uint8 : Buffer → ℤ → Call Heap ℕ
unfolding load
read_uint8 buf position = do
  argcheckindex 2 position (pos 1) (int_of_size buf.len)
  load buf position 0

unfoldable pub read_uint16le : Buffer → ℤ → Call Heap ℕ
unfolding load
read_uint16le buf position = do
  argcheckindex 2 position (pos 1) (int_of_size buf.len -ℤ pos 1)
  p1 ← load buf position 1
  p0 ← load buf position 0
  pure (bit_or (shl p1 8) p0)

unfoldable pub read_uint16be : Buffer → ℤ → Call Heap ℕ
unfolding load
read_uint16be buf position = do
  argcheckindex 2 position (pos 1) (int_of_size buf.len -ℤ pos 1)
  p0 ← load buf position 0
  p1 ← load buf position 1
  pure (bit_or (shl p0 8) p1)

-- `a << 24 | b << 16 | c << 8 | d`.
abbrev pub word : ℕ → ℕ → ℕ → ℕ → ℕ
word a b c d = bit_or (bit_or (bit_or (shl a 24) (shl b 16)) (shl c 8)) d

unfoldable pub read_uint32le : Buffer → ℤ → Call Heap ℕ
unfolding load
read_uint32le buf position = do
  argcheckindex 2 position (pos 1) (int_of_size buf.len -ℤ pos 3)
  p3 ← load buf position 3
  p2 ← load buf position 2
  p1 ← load buf position 1
  p0 ← load buf position 0
  pure (word p3 p2 p1 p0)

unfoldable pub read_uint32be : Buffer → ℤ → Call Heap ℕ
unfolding load
read_uint32be buf position = do
  argcheckindex 2 position (pos 1) (int_of_size buf.len -ℤ pos 3)
  p0 ← load buf position 0
  p1 ← load buf position 1
  p2 ← load buf position 2
  p3 ← load buf position 3
  pure (word p0 p1 p2 p3)

-- The value of a `char` with the given bits, on a platform where `char` is signed.
abbrev pub signed8 : ℕ → ℤ
signed8 x = if leb (2 ^ 7) x then negsuc (2 ^ 8 - x - 1) else pos x

unfoldable pub read_int8 : Buffer → ℤ → Call Heap ℤ
unfolding load
read_int8 buf position = do
  argcheckindex 2 position (pos 1) (int_of_size buf.len)
  x ← load buf position 0
  pure (signed8 x)

-- `if (value >= 0x8000) value = -(0xFFFF - value + 1);`
abbrev pub from_uint16 : ℕ → ℤ
from_uint16 value = if leb 0x8000 value then pos 0 -ℤ pos (0xFFFF - value + 1) else pos value

unfoldable pub read_int16le : Buffer → ℤ → Call Heap ℤ
unfolding load ◌-ℤ◌
read_int16le buf position = do
  argcheckindex 2 position (pos 1) (int_of_size buf.len -ℤ pos 1)
  p1 ← load buf position 1
  p0 ← load buf position 0
  pure (from_uint16 (bit_or (shl p1 8) p0))

unfoldable pub read_int16be : Buffer → ℤ → Call Heap ℤ
unfolding load ◌-ℤ◌
read_int16be buf position = do
  argcheckindex 2 position (pos 1) (int_of_size buf.len -ℤ pos 1)
  p0 ← load buf position 0
  p1 ← load buf position 1
  pure (from_uint16 (bit_or (shl p0 8) p1))

-- `value >= 0x80000000 ? -(int)(0xFFFFFFFF - value + 1) : (int)value`. At 0x80000000 the
-- negation leaves `int`; it wraps here, as it does where two's complement is computed.
abbrev pub from_uint32 : ℕ → ℤ
from_uint32 value =
    if leb 0x80000000 value
    then to_int (pos 0 -ℤ signed32 (0xFFFFFFFF - value + 1))
    else signed32 value

unfoldable pub read_int32le : Buffer → ℤ → Call Heap ℤ
unfolding load ◌-ℤ◌
read_int32le buf position = do
  argcheckindex 2 position (pos 1) (int_of_size buf.len -ℤ pos 3)
  p3 ← load buf position 3
  p2 ← load buf position 2
  p1 ← load buf position 1
  p0 ← load buf position 0
  pure (from_uint32 (word p3 p2 p1 p0))

unfoldable pub read_int32be : Buffer → ℤ → Call Heap ℤ
unfolding load ◌-ℤ◌
read_int32be buf position = do
  argcheckindex 2 position (pos 1) (int_of_size buf.len -ℤ pos 3)
  p0 ← load buf position 0
  p1 ← load buf position 1
  p2 ← load buf position 2
  p3 ← load buf position 3
  pure (from_uint32 (word p0 p1 p2 p3))

-- `length` and `#buf`.
pub buffer_length : Buffer → ℕ
buffer_length buf = buf.len
