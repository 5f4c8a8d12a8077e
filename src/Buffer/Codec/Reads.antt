-- ===== src/Buffer/Codec/Reads.antt =====
-- What the integer readers of src/buffer.c return, in each format.
use couv.Prelude.{ℕ, ap, ◌∙◌, ◌+◌, ◌≤◌, ◌≡◌, arith}
use couv.Prelude.Int.{ℤ}
use couv.Prelude.CInt.{int_max}
use couv.Buffer.Mem.{Heap}
use couv.Buffer.Access.{Buffer}
use couv.Buffer.Valid.{IsValid, byte_at}
use couv.Buffer.Decode.{checked, unsigned_reads, signed_reads}
use couv.Buffer.Read.{signed8}
use couv.Buffer.Codec.{
  Unsigned, Signed, unsigned_size, read_unsigned, signed_size, read_signed, unsigned_value,
  twos_complement, signed_value,
}

signed8-twos_complement : (x : ℕ) → signed8 x ≡ twos_complement 8 (x + 0)
signed8-twos_complement x = ground arith

module _ {h : Heap} {b : Buffer} (v : IsValid h b) (small : b.len ≤ int_max) (position : ℤ) where
  unsigned_lem :
      (c : Unsigned)
      → read_unsigned c b position h
        ≡ checked b position (unsigned_size c) h (unsigned_value c (byte_at h b position))
  unsigned_lem Unsigned.uint8 =
      (unsigned_reads v small position).0 ∙ ap (checked b position 1 h) (omega arith)
  unsigned_lem Unsigned.uint16le =
      (unsigned_reads v small position).1 ∙ ap (checked b position 2 h) (omega arith)
  unsigned_lem Unsigned.uint16be =
      (unsigned_reads v small position).2 ∙ ap (checked b position 2 h) (omega arith)
  unsigned_lem Unsigned.uint32le =
      (unsigned_reads v small position).3 ∙ ap (checked b position 4 h) (omega arith)
  unsigned_lem Unsigned.uint32be =
      (unsigned_reads v small position).4 ∙ ap (checked b position 4 h) (omega arith)

  signed_lem :
      (d : Signed)
      → read_signed d b position h
        ≡ checked b position (signed_size d) h (signed_value d (byte_at h b position))
  signed_lem Signed.int8 =
      (signed_reads v small position).0
      ∙ ap (checked b position 1 h) (signed8-twos_complement (byte_at h b position 0))
  signed_lem Signed.int16le =
      (signed_reads v small position).1
      ∙ ap (λ w. checked b position 2 h (twos_complement 16 w)) (omega arith)
  signed_lem Signed.int16be =
      (signed_reads v small position).2
      ∙ ap (λ w. checked b position 2 h (twos_complement 16 w)) (omega arith)
  signed_lem Signed.int32le =
      (signed_reads v small position).3
      ∙ ap (λ w. checked b position 4 h (twos_complement 32 w)) (omega arith)
  signed_lem Signed.int32be =
      (signed_reads v small position).4
      ∙ ap (λ w. checked b position 4 h (twos_complement 32 w)) (omega arith)

  -- In a sound buffer whose length is an `int`, each of the ten integer readers returns the number
  -- that the bytes at the position stand for in its byte order, in two's complement for the signed
  -- ones, if they lie in the buffer, and raises the index error at every other position; it never
  -- changes the heap or faults.
  pub integers_are_read :
      (c : Unsigned) (d : Signed)
      → (read_unsigned c b position h
          ≡ checked b position (unsigned_size c) h (unsigned_value c (byte_at h b position)))
        × (read_signed d b position h
            ≡ checked b position (signed_size d) h (signed_value d (byte_at h b position)))
  integers_are_read c d = (unsigned_lem c, signed_lem d)
