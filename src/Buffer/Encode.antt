-- ===== src/Buffer/Encode.antt =====
-- What the integer writers of src/buffer.c leave in the heap.
use couv.Prelude.{
  ℕ, suc, true, ◌+◌, ◌≤◌, ◌≡◌, refl, ap, ◌∙◌, inl, inr, List, [], ◌∷◌, some, length, length-set,
  arith, Bool-cases, set, if◌then◌else◌,
}
use couv.Prelude.Bytes.{AllBytes, AllBytes-set, AllBytes-blit, length-blit, blit}
use couv.Prelude.Int.{ℤ}
use couv.Prelude.CInt.{int_max, to_uint, low_byte}
use couv.Lua.{Run, ok, raised, and_then, argcheck}
use couv.Buffer.Mem.{BufMem, Heap, write, write_same, write-write, write_self}
use couv.Buffer.Access.{Buffer, store_bytes}
use couv.Buffer.Valid.{
  IsValid, fits_at, offset, in_range-eq-fits_at, in_range-eq-fits_at_one, store_lem,
}
use couv.Buffer.Decode.{index_error}
use couv.Buffer.Write.{
  write_uint8, write_uint16le, write_uint16be, write_uint32le, write_uint32be, write_int8,
  write_int16le, write_int16be, write_int32le, write_int32be, le_bytes16, be_bytes16, le_bytes32,
  be_bytes32, uvalue,
}

-- The heap with bytes put over a buffer's block, from the `i`-th byte behind a position on.
abbrev pub blitted : BufMem → Buffer → ℤ → ℕ → List ℕ → BufMem
blitted m b position i xs = record m { mem = blit m.mem (offset b position i) xs }

abbrev pub overwrite : Heap → Buffer → BufMem → ℤ → ℕ → List ℕ → Heap
overwrite h b m position i xs = write h b.orig (some (blitted m b position i xs))

-- The bytes are written where they fit; elsewhere the index check raises, and the heap stays.
abbrev pub written : Heap → Buffer → BufMem → ℤ → List ℕ → Run Heap (Unit {0})
written h b m position xs =
    if fits_at b position (length xs)
    then ok tt (overwrite h b m position 0 xs)
    else raised index_error h

-- A write of bytes keeps a buffer sound.
pub IsValid-overwrite :
    {h : Heap} {b : Buffer} (v : IsValid h b) (position : ℤ) (i : ℕ) (xs : List ℕ)
    → AllBytes xs
    → IsValid (overwrite h b v.block position i xs) b
IsValid-overwrite {h} {b} v position i xs bs = record {
  block = blitted v.block b position i xs;
  holds = write_same h b.orig b.orig _ refl;
  fits = omega (arith, v.fits, length-blit v.block.mem (offset b position i) xs);
  bytes = AllBytes-blit v.block.mem (offset b position i) xs bs v.bytes;
}

next : (b : Buffer) (position : ℤ) (i : ℕ) → offset b position (i + 1) ≡ suc (offset b position i)
next b position i = omega arith

pub store_bytes_lem :
    (xs : List ℕ) {h : Heap} {b : Buffer} (v : IsValid h b) (position : ℤ) (n i : ℕ)
    → fits_at b position n ≡ true
    → i + length xs ≤ n
    → AllBytes xs
    → store_bytes b position i xs h ≡ ok tt (overwrite h b v.block position i xs)
unfolding store_bytes
store_bytes_lem [] {h} {b} v position n i f l bs = rw (write_self h b.orig _ v.holds)
store_bytes_lem (x ∷ xs) {h} {b} v position n i f l bs =
    rw (store_lem v position n i x f (omega arith)) (
      store_bytes_lem xs one position n (i + 1) f (omega arith) bs.1
      ∙ ap (ok tt)
          (write-write h b.orig _ _ ∙ ap (λ o. write h b.orig (some (at o))) (next b position i)))
  where
    one : IsValid (overwrite h b v.block position i (x ∷ [])) b
    one = record {
      block = blitted v.block b position i (x ∷ []);
      holds = write_same h b.orig b.orig _ refl;
      fits = omega (arith, v.fits, length-set v.block.mem (offset b position i) x);
      bytes = AllBytes-set v.block.mem (offset b position i) x bs.0 v.bytes;
    }

    at : ℕ → BufMem
    at o = record v.block { mem = blit (set v.block.mem (offset b position i) x) o xs }

pub written_by :
    (b : Buffer) (position : ℤ) (xs : List ℕ) {h : Heap} (v : IsValid h b)
    → AllBytes xs
    → and_then
        (argcheck (fits_at b position (length xs)) 2 "index out of range" h)
        (λ _. store_bytes b position 0 xs)
      ≡ written h b v.block position xs
written_by b position xs v bs = elim (Bool-cases (fits_at b position (length xs))) [
  | inl f ↦ rw f (store_bytes_lem xs v position (length xs) 0 f (omega arith) bs)
  | inr f ↦ rw f
]

abbrev pub byte : ℕ → List ℕ
byte n = low_byte n ∷ []

module _ {h : Heap} {b : Buffer} (v : IsValid h b) (small : b.len ≤ int_max)
    (position value : ℤ) where
  pub write_uint8_lem :
      write_uint8 b position value h ≡ written h b v.block position (byte (to_uint value))
  unfolding write_uint8
  write_uint8_lem =
      rw (in_range-eq-fits_at_one b position small)
        (written_by b position (byte (to_uint value)) v (omega arith, tt))

  pub write_int8_lem :
      write_int8 b position value h ≡ written h b v.block position (byte (to_uint value))
  unfolding write_int8
  write_int8_lem =
      rw (in_range-eq-fits_at_one b position small)
        (written_by b position (byte (to_uint value)) v (omega arith, tt))

  pub write_uint16le_lem :
      write_uint16le b position value h ≡ written h b v.block position (le_bytes16 (to_uint value))
  unfolding write_uint16le
  write_uint16le_lem =
      rw (in_range-eq-fits_at b position 1 small)
        (written_by b position (le_bytes16 (to_uint value)) v (omega arith, (omega arith, tt)))

  pub write_uint16be_lem :
      write_uint16be b position value h ≡ written h b v.block position (be_bytes16 (to_uint value))
  unfolding write_uint16be
  write_uint16be_lem =
      rw (in_range-eq-fits_at b position 1 small)
        (written_by b position (be_bytes16 (to_uint value)) v (omega arith, (omega arith, tt)))

  pub write_uint32le_lem :
      write_uint32le b position value h ≡ written h b v.block position (le_bytes32 (to_uint value))
  unfolding write_uint32le
  write_uint32le_lem = rw (in_range-eq-fits_at b position 3 small) (
      written_by b position (le_bytes32 (to_uint value)) v
        (omega arith, (omega arith, (omega arith, (omega arith, tt)))))

  pub write_uint32be_lem :
      write_uint32be b position value h ≡ written h b v.block position (be_bytes32 (to_uint value))
  unfolding write_uint32be
  write_uint32be_lem = rw (in_range-eq-fits_at b position 3 small) (
      written_by b position (be_bytes32 (to_uint value)) v
        (omega arith, (omega arith, (omega arith, (omega arith, tt)))))

  pub write_int16le_lem :
      write_int16le b position value h
      ≡ written h b v.block position (le_bytes16 (uvalue 0x10000 value))
  unfolding write_int16le
  write_int16le_lem =
      rw (in_range-eq-fits_at b position 1 small) (
        written_by b position (le_bytes16 (uvalue 0x10000 value)) v
          (omega arith, (omega arith, tt)))

  pub write_int16be_lem :
      write_int16be b position value h
      ≡ written h b v.block position (be_bytes16 (uvalue 0x10000 value))
  unfolding write_int16be
  write_int16be_lem =
      rw (in_range-eq-fits_at b position 1 small) (
        written_by b position (be_bytes16 (uvalue 0x10000 value)) v
          (omega arith, (omega arith, tt)))

  pub write_int32le_lem :
      write_int32le b position value h
      ≡ written h b v.block position (le_bytes32 (uvalue 0x100000000 value))
  unfolding write_int32le
  write_int32le_lem = rw (in_range-eq-fits_at b position 3 small) (
      written_by b position (le_bytes32 (uvalue 0x100000000 value)) v
        (omega arith, (omega arith, (omega arith, (omega arith, tt)))))

  pub write_int32be_lem :
      write_int32be b position value h
      ≡ written h b v.block position (be_bytes32 (uvalue 0x100000000 value))
  unfolding write_int32be
  write_int32be_lem = rw (in_range-eq-fits_at b position 3 small) (
      written_by b position (be_bytes32 (uvalue 0x100000000 value)) v
        (omega arith, (omega arith, (omega arith, (omega arith, tt)))))
