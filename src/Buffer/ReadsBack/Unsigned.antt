-- ===== src/Buffer/ReadsBack/Unsigned.antt =====
-- Reading back unsigned integers.
use couv.Prelude.{true, ◌%◌, ◌^◌, ◌≤◌, ◌≡◌, ap, ◌∙◌, arith}
use couv.Prelude.Int.{ℤ}
use couv.Prelude.CInt.{int_max, to_uint, to_uint-lt}
use couv.Buffer.Mem.{Heap}
use couv.Buffer.Access.{Buffer}
use couv.Buffer.Valid.{IsValid, fits_at}
use couv.Buffer.Read.{read_uint8, read_uint16le, read_uint16be, read_uint32le, read_uint32be}
use couv.Buffer.Write.{
  write_uint8, write_uint16le, write_uint16be, write_uint32le, write_uint32be, le_bytes16,
  be_bytes16, le_bytes32, be_bytes32,
}
use couv.Buffer.Decode.{
  checked, read_uint8_lem, read_uint16le_lem, read_uint16be_lem, read_uint32le_lem,
  read_uint32be_lem,
}
use couv.Buffer.Encode.{
  byte, write_uint8_lem, write_uint16le_lem, write_uint16be_lem, write_uint32le_lem,
  write_uint32be_lem,
}
use couv.Buffer.ReadsBack.{ReadsBack, reads_back}

module _ {h : Heap} {b : Buffer} (v : IsValid h b) (small : b.len ≤ int_max)
    (position value : ℤ) where
  pub uint8 :
      fits_at b position 1 ≡ true
      → ReadsBack (write_uint8 b position value) (read_uint8 b position) h (to_uint value % 2 ^ 8)
  uint8 f =
      reads_back v position (byte (to_uint value)) (write_uint8 b position value) _ _
        (omega arith, tt) f (write_uint8_lem v small position value)
        λ w e.
          read_uint8_lem w small position
          ∙ ap (checked b position 1 _) (omega (arith, e 0 (omega arith)))

  pub uint16le :
      fits_at b position 2 ≡ true
      → ReadsBack
          (write_uint16le b position value)
          (read_uint16le b position)
          h
          (to_uint value % 2 ^ 16)
  uint16le f =
      reads_back v position (le_bytes16 (to_uint value)) (write_uint16le b position value) _ _
        (omega arith, (omega arith, tt)) f (write_uint16le_lem v small position value)
        λ w e.
          read_uint16le_lem w small position
          ∙ ap (checked b position 2 _) (omega (arith, e 0 (omega arith), e 1 (omega arith)))

  pub uint16be :
      fits_at b position 2 ≡ true
      → ReadsBack
          (write_uint16be b position value)
          (read_uint16be b position)
          h
          (to_uint value % 2 ^ 16)
  uint16be f =
      reads_back v position (be_bytes16 (to_uint value)) (write_uint16be b position value) _ _
        (omega arith, (omega arith, tt)) f (write_uint16be_lem v small position value)
        λ w e.
          read_uint16be_lem w small position
          ∙ ap (checked b position 2 _) (omega (arith, e 0 (omega arith), e 1 (omega arith)))

  pub uint32le :
      fits_at b position 4 ≡ true
      → ReadsBack (write_uint32le b position value) (read_uint32le b position) h (to_uint value)
  uint32le f =
      reads_back v position (le_bytes32 (to_uint value)) (write_uint32le b position value) _ _
        (omega arith, (omega arith, (omega arith, (omega arith, tt)))) f
        (write_uint32le_lem v small position value)
        λ w e.
          read_uint32le_lem w small position
          ∙ ap (checked b position 4 _) (
              omega (
                arith,
                to_uint-lt value,
                e 0 (omega arith),
                e 1 (omega arith),
                e 2 (omega arith),
                e 3 (omega arith),
              ))

  pub uint32be :
      fits_at b position 4 ≡ true
      → ReadsBack (write_uint32be b position value) (read_uint32be b position) h (to_uint value)
  uint32be f =
      reads_back v position (be_bytes32 (to_uint value)) (write_uint32be b position value) _ _
        (omega arith, (omega arith, (omega arith, (omega arith, tt)))) f
        (write_uint32be_lem v small position value)
        λ w e.
          read_uint32be_lem w small position
          ∙ ap (checked b position 4 _) (
              omega (
                arith,
                to_uint-lt value,
                e 0 (omega arith),
                e 1 (omega arith),
                e 2 (omega arith),
                e 3 (omega arith),
              ))
