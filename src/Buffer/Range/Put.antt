-- ===== src/Buffer/Range/Put.antt =====
-- What `write` of src/buffer.c puts into a buffer, and what it returns.
use couv.Prelude.{
  ℕ, true, false, ◌≤◌, ◌≡◌, inl, inr, Option, List, length, take, length-take, arith, Bool-cases,
  if◌then◌else◌,
}
use couv.Prelude.Bytes.{AllBytes}
use couv.Prelude.Int.{ℤ, pos, negsuc, pos_part, ◌+ℤ◌, ◌-ℤ◌, ltb_ℤ}
use couv.Prelude.CInt.{int_max, to_int, to_size}
use couv.Lua.{ok, opt}
use couv.Buffer.Mem.{Heap, write_self}
use couv.Buffer.Access.{Buffer, in_range, store_bytes}
use couv.Buffer.Valid.{IsValid, fits_at}
use couv.Buffer.Encode.{overwrite, store_bytes_lem}
use couv.Buffer.Range.{min_ℤ, buffer_write}
use couv.Buffer.Range.Checks.{int_of_size_small, indexed, indexed_by}
use couv.Buffer.Range.Copy.{AllBytes-take, fits-le, room, room-fits, room-small}

-- The default length of `write` is not narrowed, where the position passed its check.
to_int-room :
    (b : Buffer) (position : ℤ)
    → b.len ≤ int_max
    → in_range position (pos 1) (pos b.len) ≡ true
    → to_int (room b position) ≡ room b position
unfolding ◌+ℤ◌ ◌-ℤ◌
to_int-room b (negsuc n) s f = ground arith
to_int-room b (pos p) s f = ground arith

to_size-nonpos : (z : ℤ) → ltb_ℤ (pos 0) z ≡ false → in_range z (pos 0) z ≡ true → to_size z ≡ 0
to_size-nonpos (pos n) h l = ground arith
to_size-nonpos (negsuc n) h l = ground arith

min-nonneg :
    (z hi : ℤ) (n : ℕ)
    → in_range z (pos 0) hi ≡ true
    → in_range (min_ℤ z (pos n)) (pos 0) (min_ℤ z (pos n)) ≡ true
min-nonneg (pos m) hi n h = ground arith
min-nonneg (negsuc m) hi n h = ground arith

-- A length that passes its check is at most the room.
to_size-le_room :
    (z r : ℤ)
    → in_range z (pos 0) r ≡ true
    → pos_part r ≤ int_max
    → (pos_part z ≤ int_max) × (to_size z ≤ to_size r)
to_size-le_room (pos m) (pos r) h s = ground arith
to_size-le_room (pos m) (negsuc r) h s = ground arith
to_size-le_room (negsuc m) r h s = ground arith

min-le_nonneg :
    (z hi : ℤ) (n : ℕ)
    → in_range z (pos 0) hi ≡ true
    → pos_part z ≤ int_max
    → to_size (min_ℤ z (pos n)) ≤ to_size z
min-le_nonneg (pos m) hi n h s = ground arith
min-le_nonneg (negsuc m) hi n h s = ground arith

module _ {h : Heap} {b : Buffer} (v : IsValid h b) (str : List ℕ) (bytes : AllBytes str) where
  -- The branch on whether any byte is to be written makes no difference.
  put_by :
      (position count : ℤ)
      → in_range count (pos 0) count ≡ true
      → fits_at b position (to_size count) ≡ true
      → (if ltb_ℤ (pos 0) count then store_bytes b position 0 (take (to_size count) str) else ok tt)
          h
        ≡ ok tt (overwrite h b v.block position 0 (take (to_size count) str))
  put_by position count n f = elim (Bool-cases (ltb_ℤ (pos 0) count)) [
    | inl go ↦ rw go (
        store_bytes_lem (take (to_size count) str) v position (to_size count) 0 f
          (omega (arith, length-take (to_size count) str))
          (AllBytes-take (to_size count) str bytes))
    | inr stop ↦ rw (stop, to_size-nonpos count stop n, write_self h b.orig _ v.holds)
  ]

  module _ (small : b.len ≤ int_max) (short : length str ≤ int_max)
      (position? length? : Option ℤ) where
    abbrev position : ℤ
    position = opt position? (pos 1)

    abbrev wanted : ℤ
    wanted = opt length? (room b position)

    -- The shorter of the wanted length and the string.
    abbrev put : ℤ
    put = min_ℤ wanted (pos (length str))

    put-fits :
        in_range position (pos 1) (pos b.len) ≡ true
        → in_range wanted (pos 0) (room b position) ≡ true
        → fits_at b position (to_size put) ≡ true
    put-fits e g =
        let le = to_size-le_room wanted (room b position) g (room-small b position small e) in
        fits-le b position (to_size (room b position)) (to_size put)
          (omega (arith, le.1, min-le_nonneg wanted (room b position) (length str) g le.0))
          (room-fits b position small e)

    -- In a sound buffer, for a string of bytes and both lengths an `int`, write checks the position
    -- and then the length, and otherwise puts the beginning of the string over the buffer: as many
    -- bytes as are wanted and the string has, which it returns.
    pub write_lem :
        buffer_write b str position? length? h
        ≡ indexed 3 position (pos 1) (pos b.len) h (
            indexed 4 wanted
              (pos 0)
              (room b position)
              h
              (ok put (overwrite h b v.block position 0 (take (to_size put) str))))
    unfolding buffer_write
    write_lem =
        rw (int_of_size_small b.len small, int_of_size_small (length str) short)
          (indexed_by 3 position (pos 1) (pos b.len) h _ _ λ e.
            rw (to_int-room b position small e) (
              indexed_by 4 wanted (pos 0) (room b position) h _ _ λ g. rw (
                put_by position put (min-nonneg wanted (room b position) (length str) g)
                  (put-fits e g))))
