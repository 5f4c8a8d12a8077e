-- ===== src/Buffer/Codec/RoundTrip.antt =====
-- Reading back a number in each of the formats of src/buffer.c.
use couv.Prelude.{ℕ, ◌-◌, ◌*◌, ◌%◌, ◌^◌, ◌≤◌, ◌<◌, ◌≡◌, true, List, length, arith}
use couv.Prelude.Bytes.{AllBytes}
use couv.Prelude.Int.{ℤ, pos, negsuc, ◌≤ℤ◌}
use couv.Prelude.CInt.{int_max, to_uint, to_uint-lt}
use couv.Buffer.Mem.{Heap}
use couv.Buffer.Access.{Buffer}
use couv.Buffer.Valid.{IsValid, fits_at}
use couv.Buffer.Float.{ByteOrder}
use couv.Buffer.ReadsBack.{ReadsBack}
use couv.Buffer.RoundTrip.{
  uint8_round_trip, uint16_round_trip, uint32_round_trip, int8_round_trip, int16_round_trip,
  int32_round_trip,
}
use couv.Buffer.Float.RoundTrip.{float_round_trip, double_round_trip}
use couv.Buffer.Codec.{
  Unsigned, Signed, Real, unsigned_size, write_unsigned, read_unsigned, signed_size, write_signed,
  read_signed, real_size, write_real, read_real,
}

whole : (z : ℤ) → to_uint z % 2 ^ (8 * 4) ≡ to_uint z
whole z = let h : to_uint z < 2 ^ 32 = to_uint-lt z in omega arith

module _ {h : Heap} {b : Buffer} (v : IsValid h b) (small : b.len ≤ int_max) (position : ℤ) where
  -- In a sound buffer whose length is an `int`, at a position where the bytes of the format fit,
  -- each of the five unsigned writers succeeds for every value, and its reader then returns the
  -- value modulo 2 to the number of the format's bits.
  pub unsigned_round_trip :
      (c : Unsigned) (value : ℤ)
      → fits_at b position (unsigned_size c) ≡ true
      → ReadsBack
          (write_unsigned c b position value)
          (read_unsigned c b position)
          h
          (to_uint value % 2 ^ (8 * unsigned_size c))
  unsigned_round_trip Unsigned.uint8 value f = uint8_round_trip v small position value f
  unsigned_round_trip Unsigned.uint16le value f = (uint16_round_trip v small position value f).0
  unsigned_round_trip Unsigned.uint16be value f = (uint16_round_trip v small position value f).1
  unsigned_round_trip Unsigned.uint32le value f =
      rw (whole value) (uint32_round_trip v small position value f).0
  unsigned_round_trip Unsigned.uint32be value f =
      rw (whole value) (uint32_round_trip v small position value f).1

  -- In a sound buffer whose length is an `int`, at a position where the bytes of the format fit,
  -- each of the five signed writers succeeds for every value that the format has in two's
  -- complement, and its reader then returns that value.
  pub signed_round_trip :
      (c : Signed) (value : ℤ)
      → fits_at b position (signed_size c) ≡ true
      → negsuc (2 ^ (8 * signed_size c - 1) - 1) ≤ℤ value
      → value ≤ℤ pos (2 ^ (8 * signed_size c - 1) - 1)
      → ReadsBack (write_signed c b position value) (read_signed c b position) h value
  signed_round_trip Signed.int8 value f lo hi = int8_round_trip v small position value f lo hi
  signed_round_trip Signed.int16le value f lo hi =
      (int16_round_trip v small position value f lo hi).0
  signed_round_trip Signed.int16be value f lo hi =
      (int16_round_trip v small position value f lo hi).1
  signed_round_trip Signed.int32le value f lo hi =
      (int32_round_trip v small position value f lo hi).0
  signed_round_trip Signed.int32be value f lo hi =
      (int32_round_trip v small position value f lo hi).1

  -- In a sound buffer whose length is an `int`, on a host of either byte order and at a position
  -- where it fits, a `float` or a `double` is written in either order of the buffer, and its reader
  -- then returns the same bytes.
  pub real_round_trip :
      (host : ByteOrder) (c : Real) (value : List ℕ)
      → AllBytes value
      → length value ≡ real_size c
      → fits_at b position (real_size c) ≡ true
      → ReadsBack (write_real host c b position value) (read_real host c b position) h value
  real_round_trip host Real.float_le value bytes size f =
      (float_round_trip host v small position value bytes size f).0
  real_round_trip host Real.float_be value bytes size f =
      (float_round_trip host v small position value bytes size f).1
  real_round_trip host Real.double_le value bytes size f =
      (double_round_trip host v small position value bytes size f).0
  real_round_trip host Real.double_be value bytes size f =
      (double_round_trip host v small position value bytes size f).1
