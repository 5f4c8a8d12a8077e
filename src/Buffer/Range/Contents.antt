-- ===== src/Buffer/Range/Contents.antt =====
-- What `toString`, `fill`, `copy` and `write` of src/buffer.c return and leave in the heap.
use couv.Prelude.{
  ℕ, zero, suc, true, ◌+◌, ◌≤◌, ◌<◌, ◌≡◌, refl, ap, Option, List, [], ◌∷◌, length, replicate, arith,
}
use couv.Prelude.Bytes.{AllBytes}
use couv.Prelude.Int.{ℤ, pos}
use couv.Prelude.CInt.{int_max, to_size, to_uint, low_byte}
use couv.Lua.{ok, opt}
use couv.Buffer.Mem.{Heap}
use couv.Buffer.Access.{Buffer, load_bytes}
use couv.Buffer.Valid.{IsValid, fits_at, byte_at, load_lem}
use couv.Buffer.Encode.{overwrite, store_bytes_lem}
use couv.Buffer.Range.{span, buffer_to_string, buffer_fill}
use couv.Buffer.Range.Checks.{int_of_size_small, indexed, indexed_by, range-fits}

-- The `n` bytes from the `i`-th behind a position on.
abbrev pub window : Heap → Buffer → ℤ → ℕ → ℕ → List ℕ
window h b position i zero = []
window h b position i (suc n) = byte_at h b position i ∷ window h b position (i + 1) n

pub load_bytes_lem :
    (n : ℕ) {h : Heap} {b : Buffer} (v : IsValid h b) (position : ℤ) (m i : ℕ)
    → fits_at b position m ≡ true
    → i + n ≤ m
    → load_bytes b position i n h ≡ ok (window h b position i n) h
unfolding load_bytes
load_bytes_lem zero v position m i f l = refl
load_bytes_lem (suc n) v position m i f l =
    rw (
      load_lem v position m i f (omega arith),
      load_bytes_lem n v position m (i + 1) f (omega arith),
    )

pub AllBytes-replicate : (n x : ℕ) → x < 256 → AllBytes (replicate n x)
AllBytes-replicate zero x h = tt
AllBytes-replicate (suc n) x h = (h, AllBytes-replicate n x h)

length-replicate' : (n x : ℕ) → length (replicate n x) ≡ n
length-replicate' zero x = refl
length-replicate' (suc n) x = ap suc (length-replicate' n x)

module _ {h : Heap} {b : Buffer} (v : IsValid h b) (small : b.len ≤ int_max)
    (first? last? : Option ℤ) where
  abbrev first : ℤ
  first = opt first? (pos 1)

  abbrev last : ℤ
  last = opt last? (pos b.len)

  abbrev count : ℕ
  count = to_size (span first last)

  -- In a sound buffer whose length is an `int`, toString checks `first` and then `last`, raising
  -- an argument error that leaves the heap, and otherwise returns the bytes of the range.
  pub to_string_lem :
      buffer_to_string b first? last? h
      ≡ indexed 2 first
          (pos 1)
          (pos b.len)
          h
          (indexed 3 last first (pos b.len) h (ok (window h b first 0 count) h))
  unfolding buffer_to_string
  to_string_lem = rw (int_of_size_small b.len small) (
      indexed_by 2 first (pos 1) (pos b.len) h _ _ λ f.
        indexed_by 3 last first (pos b.len) h _ _ λ l.
          load_bytes_lem count v first count 0 (range-fits b first last small f l) (omega arith))

  -- In a sound buffer whose length is an `int`, fill checks `first` and then `last` and otherwise
  -- puts the lowest byte of the value over the range and changes nothing else.
  pub fill_lem :
      (byte : ℤ)
      → buffer_fill b byte first? last? h
        ≡ indexed 3 first (pos 1) (pos b.len) h (
            indexed 4 last first
              (pos b.len)
              h
              (ok tt (overwrite h b v.block first 0 (replicate count (low_byte (to_uint byte))))))
  unfolding buffer_fill
  fill_lem byte = rw (int_of_size_small b.len small) (
      indexed_by 3 first (pos 1) (pos b.len) h _ _ λ f.
        indexed_by 4 last first (pos b.len) h _ _ λ l.
          store_bytes_lem (replicate count (low_byte (to_uint byte))) v first count 0
            (range-fits b first last small f l)
            (omega (arith, length-replicate' count (low_byte (to_uint byte))))
            (AllBytes-replicate count (low_byte (to_uint byte)) (omega arith)))
