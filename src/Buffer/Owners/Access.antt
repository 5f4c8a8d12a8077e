-- ===== src/Buffer/Owners/Access.antt =====
-- No method of a sound buffer that reads or writes bytes faults, and none changes the shape of
-- the heap.
use couv.Prelude.{ℕ, ◌≤◌, Option, List, length, replicate, take, arith}
use couv.Prelude.Bytes.{AllBytes}
use couv.Prelude.Int.{ℤ, pos}
use couv.Prelude.CInt.{int_max, to_uint, to_size, low_byte}
use couv.Lua.{Call, Run, ok, and_then, opt}
use couv.Buffer.Mem.{Heap}
use couv.Buffer.Access.{Buffer}
use couv.Buffer.Valid.{IsValid}
use couv.Buffer.Decode.{
  read_uint8_lem, read_uint16le_lem, read_uint16be_lem, read_uint32le_lem, read_uint32be_lem,
  read_int8_lem, read_int16le_lem, read_int16be_lem, read_int32le_lem, read_int32be_lem,
}
use couv.Buffer.Encode.{
  write_uint8_lem, write_uint16le_lem, write_uint16be_lem, write_uint32le_lem, write_uint32be_lem,
  write_int8_lem, write_int16le_lem, write_int16be_lem, write_int32le_lem, write_int32be_lem, byte,
}
use couv.Buffer.Read
use couv.Buffer.Write.{le_bytes16, be_bytes16, le_bytes32, be_bytes32, uvalue}
use couv.Buffer.Range.{span, min_ℤ, buffer_to_string, buffer_fill, buffer_copy, buffer_write}
use couv.Buffer.Range.Contents.{window, to_string_lem, fill_lem, AllBytes-replicate}
use couv.Buffer.Range.Copy.{copy_lem, room, AllBytes-window, AllBytes-take}
use couv.Buffer.Range.Put.{write_lem}
use couv.Buffer.Owners.{Method, call_integer, discard}
use couv.Buffer.Encode.{overwrite}
use couv.Buffer.Range.Checks.{indexed}
use couv.Buffer.Owners.Shape.{
  SameShape, Tame, returns, raises, SameShape-refl, overwrite-SameShape, checked-Tame, written-Tame,
  indexed-Tame,
}

discard-Tame : {A : Type 0} {h : Heap} (m : Call Heap A) → Tame h (m h) → Tame h (discard m h)
discard-Tame m t = go t
  where
    go : {A : Type 0} {h : Heap} {r : Run Heap A} → Tame h r → Tame h (and_then r (λ _. ok tt))
    go (returns s) = returns s
    go raises = raises

module _ {h : Heap} {b : Buffer} (v : IsValid h b) (small : b.len ≤ int_max)
    (position value : ℤ) where
  pub call_integer-Tame : (m : Method) → Tame h (call_integer m b position value h)
  unfolding call_integer
  call_integer-Tame Method.read_uint8 =
      discard-Tame (Read.read_uint8 b position)
        (rw (read_uint8_lem v small position) (checked-Tame b position _ h _))
  call_integer-Tame Method.read_uint16le =
      discard-Tame (Read.read_uint16le b position)
        (rw (read_uint16le_lem v small position) (checked-Tame b position _ h _))
  call_integer-Tame Method.read_uint16be =
      discard-Tame (Read.read_uint16be b position)
        (rw (read_uint16be_lem v small position) (checked-Tame b position _ h _))
  call_integer-Tame Method.read_uint32le =
      discard-Tame (Read.read_uint32le b position)
        (rw (read_uint32le_lem v small position) (checked-Tame b position _ h _))
  call_integer-Tame Method.read_uint32be =
      discard-Tame (Read.read_uint32be b position)
        (rw (read_uint32be_lem v small position) (checked-Tame b position _ h _))
  call_integer-Tame Method.read_int8 =
      discard-Tame (Read.read_int8 b position)
        (rw (read_int8_lem v small position) (checked-Tame b position _ h _))
  call_integer-Tame Method.read_int16le =
      discard-Tame (Read.read_int16le b position)
        (rw (read_int16le_lem v small position) (checked-Tame b position _ h _))
  call_integer-Tame Method.read_int16be =
      discard-Tame (Read.read_int16be b position)
        (rw (read_int16be_lem v small position) (checked-Tame b position _ h _))
  call_integer-Tame Method.read_int32le =
      discard-Tame (Read.read_int32le b position)
        (rw (read_int32le_lem v small position) (checked-Tame b position _ h _))
  call_integer-Tame Method.read_int32be =
      discard-Tame (Read.read_int32be b position)
        (rw (read_int32be_lem v small position) (checked-Tame b position _ h _))
  call_integer-Tame Method.write_uint8 =
      rw (write_uint8_lem v small position value)
        (written-Tame v position (byte (to_uint value)) (omega arith, tt))
  call_integer-Tame Method.write_uint16le =
      rw (write_uint16le_lem v small position value)
        (written-Tame v position (le_bytes16 (to_uint value)) (omega arith, (omega arith, tt)))
  call_integer-Tame Method.write_uint16be =
      rw (write_uint16be_lem v small position value)
        (written-Tame v position (be_bytes16 (to_uint value)) (omega arith, (omega arith, tt)))
  call_integer-Tame Method.write_uint32le = rw (write_uint32le_lem v small position value) (
      written-Tame v position (le_bytes32 (to_uint value))
        (omega arith, (omega arith, (omega arith, (omega arith, tt)))))
  call_integer-Tame Method.write_uint32be = rw (write_uint32be_lem v small position value) (
      written-Tame v position (be_bytes32 (to_uint value))
        (omega arith, (omega arith, (omega arith, (omega arith, tt)))))
  call_integer-Tame Method.write_int8 =
      rw (write_int8_lem v small position value)
        (written-Tame v position (byte (to_uint value)) (omega arith, tt))
  call_integer-Tame Method.write_int16le =
      rw (write_int16le_lem v small position value) (
        written-Tame v position (le_bytes16 (uvalue 0x10000 value))
          (omega arith, (omega arith, tt)))
  call_integer-Tame Method.write_int16be =
      rw (write_int16be_lem v small position value) (
        written-Tame v position (be_bytes16 (uvalue 0x10000 value))
          (omega arith, (omega arith, tt)))
  call_integer-Tame Method.write_int32le = rw (write_int32le_lem v small position value) (
      written-Tame v position (le_bytes32 (uvalue 0x100000000 value))
        (omega arith, (omega arith, (omega arith, (omega arith, tt)))))
  call_integer-Tame Method.write_int32be = rw (write_int32be_lem v small position value) (
      written-Tame v position (be_bytes32 (uvalue 0x100000000 value))
        (omega arith, (omega arith, (omega arith, (omega arith, tt)))))

module _ {h : Heap} {b : Buffer} (v : IsValid h b) (small : b.len ≤ int_max)
    (x? y? : Option ℤ) where
  abbrev first : ℤ
  first = opt x? (pos 1)

  abbrev last : ℤ
  last = opt y? (pos b.len)

  -- The two checks of a range.
  ranged :
      {A : Type 0} (i j : ℕ) (a : A) {g : Heap}
      → SameShape h g
      → Tame h (indexed i first (pos 1) (pos b.len) h (indexed j last first (pos b.len) h (ok a g)))
  ranged i j a {g} s =
      indexed-Tame i first (pos 1) (pos b.len) h (indexed j last first (pos b.len) h (ok a g))
        (indexed-Tame j last first (pos b.len) h (ok a g) (returns {a = a} s))

  pub to_string-Tame : Tame h (buffer_to_string b x? y? h)
  to_string-Tame =
      rw (to_string_lem v small x? y?)
        (ranged 2 3 (window h b first 0 (to_size (span first last))) (SameShape-refl h))

  pub fill-Tame : (value : ℤ) → Tame h (buffer_fill b value x? y? h)
  fill-Tame value =
      let filling = replicate (to_size (span first last)) (low_byte (to_uint value)) in
      rw (fill_lem v small x? y? value) (
        ranged 3 4 tt (
          overwrite-SameShape v first 0 filling (
            AllBytes-replicate (to_size (span first last)) (low_byte (to_uint value))
              (omega arith))))

  pub write-Tame :
      (str : List ℕ) → AllBytes str → length str ≤ int_max → Tame h (buffer_write b str x? y? h)
  write-Tame str bs short =
      let wanted = opt y? (room b first) in
      let put = min_ℤ wanted (pos (length str)) in
      let result : Run Heap ℤ = ok put (overwrite h b v.block first 0 (take (to_size put) str)) in
      rw (write_lem v str bs small short x? y?) (
        indexed-Tame 3 first (pos 1) (pos b.len) h
          (indexed 4 wanted (pos 0) (room b first) h result)
          (indexed-Tame 4 wanted (pos 0) (room b first) h result (
            returns {a = put} (
              overwrite-SameShape v first 0 (take (to_size put) str)
                (AllBytes-take (to_size put) str bs)))))

  pub copy-Tame :
      {t : Buffer} (w : IsValid h t)
      → t.len ≤ int_max
      → (to? : Option ℤ) → Tame h (buffer_copy b t to? x? y? h)
  copy-Tame {t} w small' to? =
      let to = opt to? (pos 1) in
      let copied = min_ℤ (span first last) (room t to) in
      let bytes = window h b first 0 (to_size copied) in
      let result : Run Heap ℤ = ok copied (overwrite h t w.block to 0 bytes) in
      rw (copy_lem v w small small' to? x? y?) (
        indexed-Tame 3 to (pos 1) (pos t.len) h
          (indexed 4 first (pos 1) (pos b.len) h (indexed 5 last first (pos b.len) h result))
          (ranged 4 5 copied
            (overwrite-SameShape w to 0 bytes (AllBytes-window v first 0 (to_size copied)))))
