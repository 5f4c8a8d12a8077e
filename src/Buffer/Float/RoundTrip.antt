-- ===== src/Buffer/Float/RoundTrip.antt =====
-- Reading back a `float` or a `double` that was written in the same byte order.
use couv.Prelude.{
  ℕ, suc, true, ◌+◌, ◌≤◌, ◌<◌, ◌≡◌, refl, ap, ◌∙◌, List, [], ◌∷◌, length, get_or, sym, arith,
}
use native.Mathlib.Nat.{add-zero}
use couv.Prelude.Bytes.{AllBytes}
use couv.Prelude.Int.{ℤ}
use couv.Prelude.CInt.{int_max}
use couv.Lua.{pure, argcheck, and_then, ◌>>=◌}
use couv.Buffer.Mem.{Heap}
use couv.Buffer.Access.{Buffer, load_bytes, store_bytes}
use couv.Buffer.Valid.{IsValid, fits_at, byte_at, in_range-eq-fits_at}
use couv.Buffer.Decode.{checked, checked_by}
use couv.Buffer.Encode.{written, written_by}
use couv.Buffer.ReadsBack.{ReadsBack, reads_back}
use couv.Buffer.Range.Contents.{window, load_bytes_lem}
use couv.Buffer.Float.{
  ByteOrder, backward, memcpy_le, memcpy_be, read_float_le, read_float_be, read_double_le,
  read_double_be, write_float_le, write_float_be, write_double_le, write_double_be,
}
use couv.Buffer.Float.Turn.{
  length-memcpy_le, length-memcpy_be, memcpy_le-memcpy_le, memcpy_be-memcpy_be, AllBytes-memcpy_le,
  AllBytes-memcpy_be, backward-backward, length-backward, forward_lem,
}

-- The bytes from the `i`-th on are those of a list, if they agree one by one.
window-eq :
    (h : Heap) (b : Buffer) (position : ℤ) (i : ℕ) (ys : List ℕ)
    → ((k : ℕ) → k < length ys → byte_at h b position (i + k) ≡ get_or ys k 0)
    → window h b position i (length ys) ≡ ys
window-eq h b position i [] e = refl
window-eq h b position i (y ∷ ys) e =
    rw
      (window-eq h b position (i + 1) ys
        λ k l. ap (byte_at h b position) (next i k) ∙ e (suc k) (omega arith))
      (ap (λ x. x ∷ ys) (ap (byte_at h b position) (sym (add-zero i)) ∙ e 0 (omega arith)))
  where
    next : (i k : ℕ) → i + 1 + k ≡ i + suc k
    next i k = omega arith

module _ {h : Heap} {b : Buffer} (v : IsValid h b) (position : ℤ) where
  put_lem :
      (n : ℕ) (xs : List ℕ)
      → length xs ≡ n
      → AllBytes xs
      → and_then
          (argcheck (fits_at b position n) 2 "index out of range" h)
          (λ _. store_bytes b position 0 xs)
        ≡ written h b v.block position xs
  put_lem n xs e bs = rw (← e) (written_by b position xs v bs)

  get_lem :
      (n : ℕ) (xs value : List ℕ) (turn : List ℕ → List ℕ)
      → length xs ≡ n
      → turn xs ≡ value
      → ((k : ℕ) → k < length xs → byte_at h b position k ≡ get_or xs k 0)
      → and_then
          (argcheck (fits_at b position n) 2 "index out of range" h)
          (λ _. load_bytes b position 0 n >>= λ src. pure (turn src))
        ≡ checked b position (length xs) h value
  get_lem n xs value turn e t at = rw (← e) (
      checked_by b position (length xs) h value
        (load_bytes b position 0 (length xs) >>= λ src. pure (turn src))
        λ f. rw (
          load_bytes_lem (length xs) v position (length xs) 0 f (omega arith),
          window-eq h b position 0 xs λ k l. ap (byte_at h b position) (omega arith) ∙ at k l,
          t,
        ))

module _ (host : ByteOrder) {h : Heap} {b : Buffer} (v : IsValid h b) (small : b.len ≤ int_max)
    (position : ℤ) (value : List ℕ) (bytes : AllBytes value) where
  float_le :
      length value ≡ 4
      → fits_at b position 4 ≡ true
      → ReadsBack (write_float_le host b position value) (read_float_le host b position) h value
  unfolding write_float_le read_float_le
  float_le size f =
      let xs : List ℕ = memcpy_le host value in
      let lx : length xs ≡ 4 = length-memcpy_le host value ∙ size in
      let bs : AllBytes xs = AllBytes-memcpy_le host value bytes in
      reads_back v position xs (write_float_le host b position value)
        (read_float_le host b position) value bs (rw lx f)
        (rw (in_range-eq-fits_at b position 3 small) (put_lem v position 4 xs lx bs))
        λ w at.
          rw (in_range-eq-fits_at b position 3 small)
            (get_lem w position 4 xs value (memcpy_le host) lx (memcpy_le-memcpy_le host value) at)

  float_be :
      length value ≡ 4
      → fits_at b position 4 ≡ true
      → ReadsBack (write_float_be host b position value) (read_float_be host b position) h value
  unfolding write_float_be read_float_be
  float_be size f =
      let xs : List ℕ = memcpy_be host value in
      let lx : length xs ≡ 4 = length-memcpy_be host value ∙ size in
      let bs : AllBytes xs = AllBytes-memcpy_be host value bytes in
      reads_back v position xs (write_float_be host b position value)
        (read_float_be host b position) value bs (rw lx f)
        (rw (in_range-eq-fits_at b position 3 small) (put_lem v position 4 xs lx bs))
        λ w at.
          rw (in_range-eq-fits_at b position 3 small)
            (get_lem w position 4 xs value (memcpy_be host) lx (memcpy_be-memcpy_be host value) at)

  double_le :
      length value ≡ 8
      → fits_at b position 8 ≡ true
      → ReadsBack (write_double_le host b position value) (read_double_le host b position) h value
  unfolding write_double_le read_double_le
  double_le size f =
      let xs : List ℕ = memcpy_le host value in
      let lx : length xs ≡ 8 = length-memcpy_le host value ∙ size in
      let bs : AllBytes xs = AllBytes-memcpy_le host value bytes in
      reads_back v position xs (write_double_le host b position value)
        (read_double_le host b position) value bs (rw lx f)
        (rw (in_range-eq-fits_at b position 7 small) (put_lem v position 8 xs lx bs))
        λ w at.
          rw (in_range-eq-fits_at b position 7 small)
            (get_lem w position 8 xs value (memcpy_le host) lx (memcpy_le-memcpy_le host value) at)

  double_be :
      length value ≡ 8
      → fits_at b position 8 ≡ true
      → ReadsBack (write_double_be host b position value) (read_double_be host b position) h value
  unfolding write_double_be read_double_be
  double_be size f =
      let xs : List ℕ = memcpy_be host value in
      let lx : length xs ≡ 8 = length-memcpy_be host value ∙ size in
      let bs : AllBytes xs = AllBytes-memcpy_be host value bytes in
      reads_back v position xs (write_double_be host b position value)
        (read_double_be host b position) value bs (rw lx f)
        (rw (in_range-eq-fits_at b position 7 small) (put_lem v position 8 xs lx bs))
        λ w at.
          rw (in_range-eq-fits_at b position 7 small)
            (get_lem w position 8 xs value (memcpy_be host) lx (memcpy_be-memcpy_be host value) at)

  -- In a sound buffer whose length is an `int`, on a host of either byte order and where four
  -- bytes fit, writeFloatLE succeeds and readFloatLE then returns the same four bytes of the
  -- `float`; so for BE.
  pub float_round_trip :
      length value ≡ 4
      → fits_at b position 4 ≡ true
      → ReadsBack (write_float_le host b position value) (read_float_le host b position) h value
        × ReadsBack (write_float_be host b position value) (read_float_be host b position) h value
  float_round_trip size f = (float_le size f, float_be size f)

  -- In a sound buffer whose length is an `int`, on a host of either byte order and where eight
  -- bytes fit, writeDoubleLE succeeds and readDoubleLE then returns the same eight bytes of the
  -- `double`; so for BE.
  pub double_round_trip :
      length value ≡ 8
      → fits_at b position 8 ≡ true
      → ReadsBack (write_double_le host b position value) (read_double_le host b position) h value
        × ReadsBack (write_double_be host b position value) (read_double_be host b position) h value
  double_round_trip size f = (double_le size f, double_be size f)

-- A number whose bytes are `value` on a host of one byte order has them turned round on a host of
-- the other, and both hosts put the same bytes into a buffer, in either order of the buffer and
-- for both sizes of number.
pub host_independent :
    (buf : Buffer) (position : ℤ) (value : List ℕ)
    → let turned = backward value (length value) in
      (write_float_le ByteOrder.big buf position turned
        ≡ write_float_le ByteOrder.little buf position value)
      × (write_float_be ByteOrder.big buf position value
          ≡ write_float_be ByteOrder.little buf position turned)
      × (write_double_le ByteOrder.big buf position turned
          ≡ write_double_le ByteOrder.little buf position value)
      × (write_double_be ByteOrder.big buf position value
          ≡ write_double_be ByteOrder.little buf position turned)
unfolding write_float_le write_float_be write_double_le write_double_be memcpy_le memcpy_be
host_independent buf position value =
    let same : backward (backward value (length value)) (length value) ≡ value =
      backward-backward value in
    (
      rw (length-backward value (length value), same, forward_lem value),
      rw (length-backward value (length value), same, forward_lem value),
      rw (length-backward value (length value), same, forward_lem value),
      rw (length-backward value (length value), same, forward_lem value),
    )
