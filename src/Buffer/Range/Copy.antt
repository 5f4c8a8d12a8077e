-- ===== src/Buffer/Range/Copy.antt =====
-- What `copy` and `write` of src/buffer.c move, and what they return.
use couv.Prelude.{
  ℕ, zero, suc, true, ◌+◌, ◌≤◌, ◌≡◌, refl, ap, Option, List, [], ◌∷◌, length, take, arith,
}
use couv.Prelude.Bytes.{AllBytes}
use couv.Prelude.Int.{ℤ, pos, negsuc, pos_part, ◌+ℤ◌, ◌-ℤ◌, ltb_ℤ}
use couv.Prelude.CInt.{int_max, to_size}
use couv.Lua.{ok, opt}
use couv.Buffer.Mem.{Heap}
use couv.Buffer.Access.{Buffer, in_range}
use couv.Buffer.Valid.{IsValid, fits_at, byte_at-lt}
use couv.Buffer.Encode.{overwrite, store_bytes_lem}
use couv.Buffer.Range.{span, min_ℤ, memmove, buffer_copy}
use couv.Buffer.Range.Checks.{int_of_size_small, indexed, indexed_by, range-fits}
use couv.Buffer.Range.Contents.{window, load_bytes_lem}

pub length-window :
    (h : Heap) (b : Buffer) (position : ℤ) (i n : ℕ) → length (window h b position i n) ≡ n
length-window h b position i zero = refl
length-window h b position i (suc n) = ap suc (length-window h b position (i + 1) n)

pub AllBytes-window :
    {h : Heap} {b : Buffer} (v : IsValid h b) (position : ℤ) (i n : ℕ)
    → AllBytes (window h b position i n)
AllBytes-window v position i zero = tt
AllBytes-window v position i (suc n) =
    (byte_at-lt v position i, AllBytes-window v position (i + 1) n)

pub AllBytes-take : (n : ℕ) (xs : List ℕ) → AllBytes xs → AllBytes (take n xs)
AllBytes-take zero xs h = tt
AllBytes-take (suc n) [] h = tt
AllBytes-take (suc n) (x ∷ xs) h = (h.0, AllBytes-take n xs h.1)

pub fits-le :
    (b : Buffer) (position : ℤ) (m n : ℕ)
    → n ≤ m
    → fits_at b position m ≡ true
    → fits_at b position n ≡ true
fits-le b (negsuc q) m n l f = cc
fits-le b (pos zero) m n l f = cc
fits-le b (pos (suc p)) m n l f = ground arith

-- The room from a position to the end of a buffer.
abbrev pub room : Buffer → ℤ → ℤ
room b position = pos b.len -ℤ position +ℤ pos 1

pub room-fits :
    (b : Buffer) (position : ℤ)
    → b.len ≤ int_max
    → in_range position (pos 1) (pos b.len) ≡ true
    → fits_at b position (to_size (room b position)) ≡ true
unfolding ◌+ℤ◌ ◌-ℤ◌
room-fits b (negsuc n) s f = ground arith
room-fits b (pos zero) s f = ground arith
room-fits b (pos (suc p)) s f = ground arith

room-pos :
    (b : Buffer) (position : ℤ)
    → in_range position (pos 1) (pos b.len) ≡ true
    → ltb_ℤ (pos 0) (room b position) ≡ true
unfolding ◌+ℤ◌ ◌-ℤ◌
room-pos b (negsuc n) f = ground arith
room-pos b (pos p) f = ground arith

span-pos :
    (b : Buffer) (first last : ℤ)
    → in_range first (pos 1) (pos b.len) ≡ true
    → in_range last first (pos b.len) ≡ true
    → ltb_ℤ (pos 0) (span first last) ≡ true
unfolding ◌+ℤ◌ ◌-ℤ◌
span-pos b (negsuc n) last f l = ground arith
span-pos b (pos p) (negsuc n) f l = ground arith
span-pos b (pos p) (pos q) f l = ground arith

min-pos :
    (a b : ℤ) → ltb_ℤ (pos 0) a ≡ true → ltb_ℤ (pos 0) b ≡ true → ltb_ℤ (pos 0) (min_ℤ a b) ≡ true
min-pos a b p q = ground arith

-- A positive minimum of two small numbers is at most each of them, as a `size_t` too.
pub min-le :
    (a b : ℤ)
    → ltb_ℤ (pos 0) (min_ℤ a b) ≡ true
    → pos_part a ≤ int_max
    → pos_part b ≤ int_max
    → (to_size (min_ℤ a b) ≤ to_size a) × (to_size (min_ℤ a b) ≤ to_size b)
min-le (pos a) (pos b) h s t = ground arith
min-le (pos a) (negsuc b) h s t = ground arith
min-le (negsuc a) (pos b) h s t = ground arith
min-le (negsuc a) (negsuc b) h s t = ground arith

pub room-small :
    (b : Buffer) (position : ℤ)
    → b.len ≤ int_max
    → in_range position (pos 1) (pos b.len) ≡ true
    → pos_part (room b position) ≤ int_max
unfolding ◌+ℤ◌ ◌-ℤ◌
room-small b (negsuc n) s f = ground arith
room-small b (pos p) s f = ground arith

span-small :
    (b : Buffer) (first last : ℤ)
    → b.len ≤ int_max
    → in_range first (pos 1) (pos b.len) ≡ true
    → in_range last first (pos b.len) ≡ true
    → pos_part (span first last) ≤ int_max
unfolding ◌+ℤ◌ ◌-ℤ◌
span-small b (negsuc n) last s f l = ground arith
span-small b (pos p) (negsuc n) s f l = ground arith
span-small b (pos p) (pos q) s f l = ground arith

module _ {h : Heap} {b t : Buffer} (v : IsValid h b) (w : IsValid h t) where
  pub memmove_lem :
      (to from : ℤ) (n : ℕ)
      → fits_at t to n ≡ true
      → fits_at b from n ≡ true
      → memmove t to b from n h ≡ ok tt (overwrite h t w.block to 0 (window h b from 0 n))
  unfolding memmove
  memmove_lem to from n ft fb = rw (load_bytes_lem n v from n 0 fb (omega arith)) (
      store_bytes_lem (window h b from 0 n) w to n 0 ft (omega (arith, length-window h b from 0 n))
        (AllBytes-window v from 0 n))

  module _ (small : b.len ≤ int_max) (small' : t.len ≤ int_max)
      (target_first? source_first? source_last? : Option ℤ) where
    abbrev target_first : ℤ
    target_first = opt target_first? (pos 1)

    abbrev source_first : ℤ
    source_first = opt source_first? (pos 1)

    abbrev source_last : ℤ
    source_last = opt source_last? (pos b.len)

    -- The shorter of the source's range and the target's room.
    abbrev copied : ℤ
    copied = min_ℤ (span source_first source_last) (room t target_first)

    copy-moves :
        in_range target_first (pos 1) (pos t.len) ≡ true
        → in_range source_first (pos 1) (pos b.len) ≡ true
        → in_range source_last source_first (pos b.len) ≡ true
        → (ltb_ℤ (pos 0) copied ≡ true)
          × (fits_at t target_first (to_size copied) ≡ true)
          × (fits_at b source_first (to_size copied) ≡ true)
    copy-moves e f g =
        let some_bytes : ltb_ℤ (pos 0) copied ≡ true =
          min-pos (span source_first source_last) (room t target_first)
            (span-pos b source_first source_last f g) (room-pos t target_first e) in
        let le =
          min-le (span source_first source_last) (room t target_first) some_bytes
            (span-small b source_first source_last small f g)
            (room-small t target_first small' e) in
        (
          some_bytes,
          fits-le t target_first (to_size (room t target_first)) (to_size copied) le.1
              (room-fits t target_first small' e),
          fits-le b source_first (to_size (span source_first source_last)) (to_size copied) le.0
              (range-fits b source_first source_last small f g),
        )

    -- From a sound buffer into a sound one, possibly the same, both of an `int` length, copy checks
    -- its three positions in order and otherwise puts the source's bytes, as they were before, over
    -- the target: as many as the source's range holds and the target has room for, which it returns.
    pub copy_lem :
        buffer_copy b t target_first? source_first? source_last? h
        ≡ indexed 3 target_first (pos 1) (pos t.len) h (
            indexed 4 source_first (pos 1) (pos b.len) h (
              indexed 5 source_last source_first (pos b.len) h (
                ok copied (
                  overwrite h t w.block target_first 0
                    (window h b source_first 0 (to_size copied))))))
    unfolding buffer_copy
    copy_lem =
        rw (int_of_size_small b.len small, int_of_size_small t.len small')
          (indexed_by 3 target_first (pos 1) (pos t.len) h _ _ λ e.
            indexed_by 4 source_first (pos 1) (pos b.len) h _ _ λ f.
              indexed_by 5 source_last source_first (pos b.len) h _ _ λ g.
                let (go, ft, fb) = copy-moves e f g in
                rw (go, memmove_lem target_first source_first (to_size copied) ft fb))
