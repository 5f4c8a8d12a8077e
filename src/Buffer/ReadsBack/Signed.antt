-- ===== src/Buffer/ReadsBack/Signed.antt =====
-- Reading back signed integers.
use couv.Prelude.{true, ◌-◌, ◌^◌, ◌≤◌, ◌≡◌, ap, ◌∙◌, arith}
use couv.Prelude.Int.{ℤ, pos, negsuc, ◌≤ℤ◌}
use couv.Prelude.CInt.{int_max, to_uint, signed32}
use couv.Buffer.Mem.{Heap}
use couv.Buffer.Access.{Buffer}
use couv.Buffer.Valid.{IsValid, fits_at}
use couv.Buffer.Read.{read_int8, read_int16le, read_int16be, read_int32le, read_int32be, signed8}
use couv.Buffer.Write.{
  write_int8, write_int16le, write_int16be, write_int32le, write_int32be, uvalue, le_bytes16,
  be_bytes16, le_bytes32, be_bytes32,
}
use couv.Buffer.Decode.{
  checked, signed16, read_int8_lem, read_int16le_lem, read_int16be_lem, read_int32le_lem,
  read_int32be_lem,
}
use couv.Buffer.Encode.{
  byte, write_int8_lem, write_int16le_lem, write_int16be_lem, write_int32le_lem, write_int32be_lem,
}
use couv.Buffer.ReadsBack.{
  ReadsBack, reads_back, uvalue-lt, signed8-low, signed16-low, signed32-low,
}

module _ {h : Heap} {b : Buffer} (v : IsValid h b) (small : b.len ≤ int_max)
    (position value : ℤ) where
  pub int8 :
      fits_at b position 1 ≡ true
      → negsuc (2 ^ 7 - 1) ≤ℤ value
      → value ≤ℤ pos (2 ^ 7 - 1)
      → ReadsBack (write_int8 b position value) (read_int8 b position) h value
  int8 f lo hi =
      reads_back v position (byte (to_uint value)) (write_int8 b position value) _ _
        (omega arith, tt) f (write_int8_lem v small position value)
        λ w e.
          read_int8_lem w small position
          ∙ ap (checked b position 1 _)
              (ap signed8 (omega (arith, e 0 (omega arith))) ∙ signed8-low value lo hi)

  pub int16le :
      fits_at b position 2 ≡ true
      → negsuc (2 ^ 15 - 1) ≤ℤ value
      → value ≤ℤ pos (2 ^ 15 - 1)
      → ReadsBack (write_int16le b position value) (read_int16le b position) h value
  int16le f lo hi =
      reads_back v position (le_bytes16 (uvalue 0x10000 value)) (write_int16le b position value) _ _
        (omega arith, (omega arith, tt)) f (write_int16le_lem v small position value)
        λ w e.
          read_int16le_lem w small position
          ∙ ap (checked b position 2 _) (
              ap signed16 (omega (arith, e 0 (omega arith), e 1 (omega arith)))
              ∙ signed16-low value lo hi)

  pub int16be :
      fits_at b position 2 ≡ true
      → negsuc (2 ^ 15 - 1) ≤ℤ value
      → value ≤ℤ pos (2 ^ 15 - 1)
      → ReadsBack (write_int16be b position value) (read_int16be b position) h value
  int16be f lo hi =
      reads_back v position (be_bytes16 (uvalue 0x10000 value)) (write_int16be b position value) _ _
        (omega arith, (omega arith, tt)) f (write_int16be_lem v small position value)
        λ w e.
          read_int16be_lem w small position
          ∙ ap (checked b position 2 _) (
              ap signed16 (omega (arith, e 0 (omega arith), e 1 (omega arith)))
              ∙ signed16-low value lo hi)

  pub int32le :
      fits_at b position 4 ≡ true
      → negsuc (2 ^ 31 - 1) ≤ℤ value
      → value ≤ℤ pos (2 ^ 31 - 1)
      → ReadsBack (write_int32le b position value) (read_int32le b position) h value
  int32le f lo hi =
      reads_back v position (le_bytes32 (uvalue 0x100000000 value)) (write_int32le b position value)
        _ _ (omega arith, (omega arith, (omega arith, (omega arith, tt)))) f
        (write_int32le_lem v small position value)
        λ w e.
          read_int32le_lem w small position
          ∙ ap (checked b position 4 _) (
              ap signed32 (
                omega (
                  arith,
                  uvalue-lt 0x100000000 value,
                  e 0 (omega arith),
                  e 1 (omega arith),
                  e 2 (omega arith),
                  e 3 (omega arith),
                ))
              ∙ signed32-low value lo hi)

  pub int32be :
      fits_at b position 4 ≡ true
      → negsuc (2 ^ 31 - 1) ≤ℤ value
      → value ≤ℤ pos (2 ^ 31 - 1)
      → ReadsBack (write_int32be b position value) (read_int32be b position) h value
  int32be f lo hi =
      reads_back v position (be_bytes32 (uvalue 0x100000000 value)) (write_int32be b position value)
        _ _ (omega arith, (omega arith, (omega arith, (omega arith, tt)))) f
        (write_int32be_lem v small position value)
        λ w e.
          read_int32be_lem w small position
          ∙ ap (checked b position 4 _) (
              ap signed32 (
                omega (
                  arith,
                  uvalue-lt 0x100000000 value,
                  e 0 (omega arith),
                  e 1 (omega arith),
                  e 2 (omega arith),
                  e 3 (omega arith),
                ))
              ∙ signed32-low value lo hi)
