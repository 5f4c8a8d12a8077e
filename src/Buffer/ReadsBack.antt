-- ===== src/Buffer/ReadsBack.antt =====
-- What it is to read back what was written, and how a write and a read of the same bytes meet.
pub mod Unsigned
pub mod Signed
use couv.Prelude.{
  ℕ, zero, suc, true, ◌+◌, ◌-◌, ◌%◌, ◌^◌, ◌≤◌, ◌<◌, ◌≡◌, refl, ap, ◌∙◌, List, some, length, get_or,
  arith,
}
use couv.Prelude.Bytes.{AllBytes, blit, get_or-blit}
use couv.Prelude.Int.{ℤ, pos, negsuc, ◌+ℤ◌, ◌≤ℤ◌}
use couv.Prelude.CInt.{int_max, to_uint, to_uint-lt, signed32}
use couv.Lua.{Call, ok}
use couv.Buffer.Mem.{Heap, write_same}
use couv.Buffer.Access.{Buffer}
use couv.Buffer.Valid.{IsValid, fits_at, offset, byte_at}
use couv.Buffer.Read.{
  read_uint8, read_uint16le, read_uint16be, read_uint32le, read_uint32be, read_int8, read_int16le,
  read_int16be, read_int32le, read_int32be, signed8,
}
use couv.Buffer.Write.{
  write_uint8, write_uint16le, write_uint16be, write_uint32le, write_uint32be, write_int8,
  write_int16le, write_int16be, write_int32le, write_int32be, uvalue, le_bytes16, be_bytes16,
  le_bytes32, be_bytes32,
}
use couv.Buffer.Decode.{
  checked, signed16, read_uint8_lem, read_int8_lem, read_uint16le_lem, read_uint16be_lem,
  read_uint32le_lem, read_uint32be_lem, read_int16le_lem, read_int16be_lem, read_int32le_lem,
  read_int32be_lem,
}
use couv.Buffer.Encode.{
  overwrite, blitted, written, IsValid-overwrite, byte, write_uint8_lem, write_int8_lem,
  write_uint16le_lem, write_uint16be_lem, write_uint32le_lem, write_uint32be_lem, write_int16le_lem,
  write_int16be_lem, write_int32le_lem, write_int32be_lem,
}

-- What is put at a position is there.
pub byte_at-overwrite :
    {h : Heap} {b : Buffer} (v : IsValid h b) (position : ℤ) (xs : List ℕ) (k : ℕ)
    → fits_at b position (length xs) ≡ true
    → k < length xs
    → byte_at (overwrite h b v.block position 0 xs) b position k ≡ get_or xs k 0
byte_at-overwrite {b} v (negsuc q) xs k f l = cc
byte_at-overwrite {b} v (pos zero) xs k f l = cc
byte_at-overwrite {h} {b} v (pos (suc p)) xs k f l =
    rw (write_same h b.orig b.orig (some (blitted v.block b (pos (suc p)) 0 xs)) refl) (
      ap (λ j. get_or (blit v.block.mem (offset b (pos (suc p)) 0) xs) j 0) shift
      ∙ get_or-blit v.block.mem (offset b (pos (suc p)) 0) xs k inside l)
  where
    shift : offset b (pos (suc p)) k ≡ offset b (pos (suc p)) 0 + k
    shift = omega arith

    inside : offset b (pos (suc p)) 0 + length xs ≤ length v.block.mem
    inside = ground (arith, v.fits)

-- A write, and then a read that returns `a` from the heap that the write left.
abbrev pub ReadsBack : {A : Type 0} → Call Heap (Unit {0}) → Call Heap A → Heap → A → Type 0
ReadsBack put get h a = (h' : Heap) × (put h ≡ ok tt h') × (get h' ≡ ok a h')

pub reads_back :
    {A : Type 0} {h : Heap} {b : Buffer} (v : IsValid h b) (position : ℤ) (xs : List ℕ)
    (put : Call Heap (Unit {0})) (get : Call Heap A) (a : A)
    → AllBytes xs
    → fits_at b position (length xs) ≡ true
    → put h ≡ written h b v.block position xs
    → ((w : IsValid (overwrite h b v.block position 0 xs) b)
        → ((k : ℕ)
            → k < length xs
            → byte_at (overwrite h b v.block position 0 xs) b position k ≡ get_or xs k 0)
        → get (overwrite h b v.block position 0 xs)
          ≡ checked b position (length xs) (overwrite h b v.block position 0 xs) a)
    → ReadsBack put get h a
reads_back {h} {b} v position xs put get a bs f p g = (
  overwrite h b v.block position 0 xs,
  rw (p, f) refl,
  rw (g (IsValid-overwrite v position 0 xs bs) (λ k. byte_at-overwrite v position xs k f), f) refl,
)

pub uvalue-lt : (m : ℕ) (z : ℤ) → uvalue m z < 2 ^ 32
uvalue-lt m z = to_uint-lt _

-- The low bytes of an integer in range stand for it.
pub signed8-low :
    (value : ℤ)
    → negsuc (2 ^ 7 - 1) ≤ℤ value
    → value ≤ℤ pos (2 ^ 7 - 1)
    → signed8 (to_uint value % 2 ^ 8) ≡ value
signed8-low value lo hi = ground arith

pub signed16-low :
    (value : ℤ)
    → negsuc (2 ^ 15 - 1) ≤ℤ value
    → value ≤ℤ pos (2 ^ 15 - 1)
    → signed16 (uvalue 0x10000 value % 2 ^ 16) ≡ value
unfolding ◌+ℤ◌
signed16-low (pos n) lo hi = ground arith
signed16-low (negsuc n) lo hi = ground arith

pub signed32-low :
    (value : ℤ)
    → negsuc (2 ^ 31 - 1) ≤ℤ value
    → value ≤ℤ pos (2 ^ 31 - 1)
    → signed32 (uvalue 0x100000000 value) ≡ value
unfolding ◌+ℤ◌
signed32-low (pos n) lo hi = ground arith
signed32-low (negsuc n) lo hi = ground arith
