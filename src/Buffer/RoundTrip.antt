-- ===== src/Buffer/RoundTrip.antt =====
-- Reading back what an integer writer of src/buffer.c wrote.
use couv.Prelude.{true, ◌-◌, ◌%◌, ◌^◌, ◌≤◌, ◌≡◌}
use couv.Prelude.Int.{ℤ, pos, negsuc, ◌≤ℤ◌}
use couv.Prelude.CInt.{int_max, to_uint}
use couv.Buffer.Mem.{Heap}
use couv.Buffer.Access.{Buffer}
use couv.Buffer.Valid.{IsValid, fits_at}
use couv.Buffer.Read.{
  read_uint8, read_uint16le, read_uint16be, read_uint32le, read_uint32be, read_int8, read_int16le,
  read_int16be, read_int32le, read_int32be,
}
use couv.Buffer.Write.{
  write_uint8, write_uint16le, write_uint16be, write_uint32le, write_uint32be, write_int8,
  write_int16le, write_int16be, write_int32le, write_int32be,
}
use couv.Buffer.ReadsBack.{ReadsBack}
use couv.Buffer.ReadsBack.Unsigned.{uint8, uint16le, uint16be, uint32le, uint32be}
use couv.Buffer.ReadsBack.Signed.{int8, int16le, int16be, int32le, int32be}

module _ {h : Heap} {b : Buffer} (v : IsValid h b) (small : b.len ≤ int_max)
    (position value : ℤ) where
  -- In a sound buffer whose length is an `int`, at a position where a byte fits, writeUInt8
  -- succeeds for every value, and readUInt8 then returns the value modulo 2 ^ 8.
  pub uint8_round_trip :
      fits_at b position 1 ≡ true
      → ReadsBack (write_uint8 b position value) (read_uint8 b position) h (to_uint value % 2 ^ 8)
  uint8_round_trip f = uint8 v small position value f

  -- In a sound buffer whose length is an `int`, at a position where two bytes fits, writeUInt16LE
  -- succeeds for every value, and readUInt16LE then returns it modulo 2 ^ 16; so for BE.
  pub uint16_round_trip :
      fits_at b position 2 ≡ true
      → ReadsBack
          (write_uint16le b position value)
          (read_uint16le b position)
          h
          (to_uint value % 2 ^ 16)
        × ReadsBack
            (write_uint16be b position value)
            (read_uint16be b position)
            h
            (to_uint value % 2 ^ 16)
  uint16_round_trip f = (uint16le v small position value f, uint16be v small position value f)

  -- In a sound buffer whose length is an `int`, at a position where four bytes fits, writeUInt32LE
  -- succeeds for every value, and readUInt32LE then returns it modulo 2 ^ 32; so for BE.
  pub uint32_round_trip :
      fits_at b position 4 ≡ true
      → ReadsBack (write_uint32le b position value) (read_uint32le b position) h (to_uint value)
        × ReadsBack (write_uint32be b position value) (read_uint32be b position) h (to_uint value)
  uint32_round_trip f = (uint32le v small position value f, uint32be v small position value f)

  -- In a sound buffer whose length is an `int`, at a position where a byte fits, writeInt8
  -- succeeds for every value from -2 ^ 7 to 2 ^ 7 - 1, and readInt8 then returns that value.
  pub int8_round_trip :
      fits_at b position 1 ≡ true
      → negsuc (2 ^ 7 - 1) ≤ℤ value
      → value ≤ℤ pos (2 ^ 7 - 1)
      → ReadsBack (write_int8 b position value) (read_int8 b position) h value
  int8_round_trip f lo hi = int8 v small position value f lo hi

  -- In a sound buffer whose length is an `int`, at a position where two bytes fits, writeInt16LE
  -- succeeds for every value from -2 ^ 15 to 2 ^ 15 - 1, and readInt16LE then returns that
  -- value; so for BE.
  pub int16_round_trip :
      fits_at b position 2 ≡ true
      → negsuc (2 ^ 15 - 1) ≤ℤ value
      → value ≤ℤ pos (2 ^ 15 - 1)
      → ReadsBack (write_int16le b position value) (read_int16le b position) h value
        × ReadsBack (write_int16be b position value) (read_int16be b position) h value
  int16_round_trip f lo hi =
      (int16le v small position value f lo hi, int16be v small position value f lo hi)

  -- In a sound buffer whose length is an `int`, at a position where four bytes fits, writeInt32LE
  -- succeeds for every value from -2 ^ 31 to 2 ^ 31 - 1, and readInt32LE then returns that
  -- value; so for BE.
  pub int32_round_trip :
      fits_at b position 4 ≡ true
      → negsuc (2 ^ 31 - 1) ≤ℤ value
      → value ≤ℤ pos (2 ^ 31 - 1)
      → ReadsBack (write_int32le b position value) (read_int32le b position) h value
        × ReadsBack (write_int32be b position value) (read_int32be b position) h value
  int32_round_trip f lo hi =
      (int32le v small position value f lo hi, int32be v small position value f lo hi)
