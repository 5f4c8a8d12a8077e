-- ===== src/Buffer/Codec.antt =====
-- The formats in which src/buffer.c writes and reads numbers, each with its two methods, its size
-- and the number that bytes stand for in it.
pub mod RoundTrip
pub mod Reads
pub mod Frame
use couv.Prelude.{ℕ, zero, suc, ltb, if◌then◌else◌, ◌+◌, ◌-◌, ◌*◌, ◌^◌, List}
use couv.Prelude.Int.{ℤ, pos, negsuc}
use couv.Lua.{Call}
use couv.Buffer.Mem.{Heap}
use couv.Buffer.Access.{Buffer}
use couv.Buffer.Read.{
  read_uint8, read_uint16le, read_uint16be, read_uint32le, read_uint32be, read_int8, read_int16le,
  read_int16be, read_int32le, read_int32be,
}
use couv.Buffer.Write.{
  write_uint8, write_uint16le, write_uint16be, write_uint32le, write_uint32be, write_int8,
  write_int16le, write_int16be, write_int32le, write_int32be,
}
use couv.Buffer.Float.{
  ByteOrder, read_float_le, read_float_be, read_double_le, read_double_be, write_float_le,
  write_float_be, write_double_le, write_double_be,
}

pub data Unsigned : Type 0 where
  uint8 uint16le uint16be uint32le uint32be : Unsigned

pub data Signed : Type 0 where
  int8 int16le int16be int32le int32be : Signed

pub data Real : Type 0 where
  float_le float_be double_le double_be : Real

abbrev pub unsigned_size : Unsigned → ℕ
unsigned_size Unsigned.uint8 = 1
unsigned_size Unsigned.uint16le = 2
unsigned_size Unsigned.uint16be = 2
unsigned_size Unsigned.uint32le = 4
unsigned_size Unsigned.uint32be = 4

abbrev pub write_unsigned : Unsigned → Buffer → ℤ → ℤ → Call Heap (Unit {0})
write_unsigned Unsigned.uint8 = write_uint8
write_unsigned Unsigned.uint16le = write_uint16le
write_unsigned Unsigned.uint16be = write_uint16be
write_unsigned Unsigned.uint32le = write_uint32le
write_unsigned Unsigned.uint32be = write_uint32be

abbrev pub read_unsigned : Unsigned → Buffer → ℤ → Call Heap ℕ
read_unsigned Unsigned.uint8 = read_uint8
read_unsigned Unsigned.uint16le = read_uint16le
read_unsigned Unsigned.uint16be = read_uint16be
read_unsigned Unsigned.uint32le = read_uint32le
read_unsigned Unsigned.uint32be = read_uint32be

abbrev pub signed_size : Signed → ℕ
signed_size Signed.int8 = 1
signed_size Signed.int16le = 2
signed_size Signed.int16be = 2
signed_size Signed.int32le = 4
signed_size Signed.int32be = 4

abbrev pub write_signed : Signed → Buffer → ℤ → ℤ → Call Heap (Unit {0})
write_signed Signed.int8 = write_int8
write_signed Signed.int16le = write_int16le
write_signed Signed.int16be = write_int16be
write_signed Signed.int32le = write_int32le
write_signed Signed.int32be = write_int32be

abbrev pub read_signed : Signed → Buffer → ℤ → Call Heap ℤ
read_signed Signed.int8 = read_int8
read_signed Signed.int16le = read_int16le
read_signed Signed.int16be = read_int16be
read_signed Signed.int32le = read_int32le
read_signed Signed.int32be = read_int32be

pub data Integer : Type 0 where
  unsigned : Unsigned → Integer
  signed : Signed → Integer

abbrev pub integer_size : Integer → ℕ
integer_size (Integer.unsigned c) = unsigned_size c
integer_size (Integer.signed d) = signed_size d

abbrev pub write_integer : Integer → Buffer → ℤ → ℤ → Call Heap (Unit {0})
write_integer (Integer.unsigned c) = write_unsigned c
write_integer (Integer.signed d) = write_signed d

-- The number that bytes stand for, the lowest first or the highest first.
abbrev pub little : ℕ → (ℕ → ℕ) → ℕ
little zero at = 0
little (suc n) at = at 0 + 256 * little n (λ k. at (suc k))

abbrev pub big : ℕ → (ℕ → ℕ) → ℕ
big zero at = 0
big (suc n) at = at n + 256 * big n at

abbrev pub unsigned_value : Unsigned → (ℕ → ℕ) → ℕ
unsigned_value Unsigned.uint8 at = little 1 at
unsigned_value Unsigned.uint16le at = little 2 at
unsigned_value Unsigned.uint16be at = big 2 at
unsigned_value Unsigned.uint32le at = little 4 at
unsigned_value Unsigned.uint32be at = big 4 at

abbrev pub twos_complement : (bits : ℕ) → ℕ → ℤ
twos_complement bits w = if ltb w (2 ^ (bits - 1)) then pos w else negsuc (2 ^ bits - w - 1)

abbrev pub signed_value : Signed → (ℕ → ℕ) → ℤ
signed_value Signed.int8 at = twos_complement 8 (little 1 at)
signed_value Signed.int16le at = twos_complement 16 (little 2 at)
signed_value Signed.int16be at = twos_complement 16 (big 2 at)
signed_value Signed.int32le at = twos_complement 32 (little 4 at)
signed_value Signed.int32be at = twos_complement 32 (big 4 at)

abbrev pub real_size : Real → ℕ
real_size Real.float_le = 4
real_size Real.float_be = 4
real_size Real.double_le = 8
real_size Real.double_be = 8

abbrev pub write_real : ByteOrder → Real → Buffer → ℤ → List ℕ → Call Heap (Unit {0})
write_real host Real.float_le = write_float_le host
write_real host Real.float_be = write_float_be host
write_real host Real.double_le = write_double_le host
write_real host Real.double_be = write_double_be host

abbrev pub read_real : ByteOrder → Real → Buffer → ℤ → Call Heap (List ℕ)
read_real host Real.float_le = read_float_le host
read_real host Real.float_be = read_float_be host
read_real host Real.double_le = read_double_le host
read_real host Real.double_be = read_double_be host
