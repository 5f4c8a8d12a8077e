-- ===== src/Buffer/Decode.antt =====
-- What the integer readers of src/buffer.c return.
use couv.Prelude.{
  ℕ, true, ◌+◌, ◌-◌, ◌*◌, ◌^◌, ◌≤◌, ◌<◌, ◌≡◌, ap, ◌∙◌, inl, inr, bit_or, arith, Bool-cases, ltb,
  if◌then◌else◌,
}
use couv.Prelude.Bits.{bit_or-add}
use couv.Prelude.Int.{ℤ, pos, negsuc, ◌-ℤ◌}
use couv.Prelude.CInt.{int_max, shl, signed32}
use couv.Lua.{Call, Run, ok, raised, Error, arg_error, and_then, argcheck}
use couv.Buffer.Mem.{Heap}
use couv.Buffer.Access.{Buffer, load}
use couv.Buffer.Valid.{
  IsValid, fits_at, byte_at, byte_at-lt, in_range-eq-fits_at, in_range-eq-fits_at_one, load_lem,
}
use couv.Buffer.Read.{
  read_uint8, read_uint16le, read_uint16be, read_uint32le, read_uint32be, read_int8, read_int16le,
  read_int16be, read_int32le, read_int32be, word, signed8, from_uint16, from_uint32,
}

abbrev pub index_error : Error
index_error = arg_error 2 "index out of range"

-- A value where `n` bytes fit, and the error of the index check elsewhere; the heap stays.
abbrev pub checked : {A : Type 0} → Buffer → ℤ → ℕ → Heap → A → Run Heap A
checked b position n h a = if fits_at b position n then ok a h else raised index_error h

pair_sum : (a b : ℕ) → a < 256 → b < 256 → bit_or (shl a 8) b ≡ b + 256 * a
pair_sum a b p q = ground (arith, bit_or-add 8 a b)

word_sum :
    (a b c d : ℕ)
    → a < 256
    → b < 256
    → c < 256
    → d < 256
    → word a b c d ≡ d + 256 * c + 65536 * b + 16777216 * a
word_sum a b c d p q r s = ground (
  arith,
  bit_or-add 24 a (b * 2 ^ 16),
  bit_or-add 16 (a * 256 + b) (c * 2 ^ 8),
  bit_or-add 8 ((a * 256 + b) * 256 + c) d,
)

-- An index check, and what follows it where it passes.
pub checked_by :
    {A : Type 0} (b : Buffer) (position : ℤ) (n : ℕ) (h : Heap) (a : A) (k : Call Heap A)
    → (fits_at b position n ≡ true → k h ≡ ok a h)
    → and_then (argcheck (fits_at b position n) 2 "index out of range" h) (λ _. k)
      ≡ checked b position n h a
checked_by b position n h a k inside = elim (Bool-cases (fits_at b position n)) [
  | inl f ↦ rw f (inside f)
  | inr f ↦ rw f
]

-- The values that the bytes of a word stand for, in two's complement where it is signed.
abbrev pub signed16 : ℕ → ℤ
signed16 w = if ltb w (2 ^ 15) then pos w else negsuc (2 ^ 16 - w - 1)

from_uint16-signed16 : (w : ℕ) → w < 2 ^ 16 → from_uint16 w ≡ signed16 w
unfolding ◌-ℤ◌
from_uint16-signed16 w l = ground arith

from_uint32-signed32 : (w : ℕ) → w < 2 ^ 32 → from_uint32 w ≡ signed32 w
unfolding ◌-ℤ◌
from_uint32-signed32 w l = ground arith

module _ {h : Heap} {b : Buffer} (v : IsValid h b) (small : b.len ≤ int_max) (position : ℤ) where
  abbrev pub at : ℕ → ℕ
  at i = byte_at h b position i

  at-lt : (i : ℕ) → at i < 256
  at-lt = byte_at-lt v position

  loads : (n i : ℕ) → fits_at b position n ≡ true → i < n → load b position i h ≡ ok (at i) h
  loads = load_lem v position

  pub read_uint8_lem : read_uint8 b position h ≡ checked b position 1 h (at 0)
  unfolding read_uint8
  read_uint8_lem =
      rw (in_range-eq-fits_at_one b position small)
        (checked_by b position 1 h _ _ λ f. rw (loads 1 0 f (omega arith)))

  pub read_int8_lem : read_int8 b position h ≡ checked b position 1 h (signed8 (at 0))
  unfolding read_int8
  read_int8_lem =
      rw (in_range-eq-fits_at_one b position small)
        (checked_by b position 1 h _ _ λ f. rw (loads 1 0 f (omega arith)))

  pub read_uint16le_lem : read_uint16le b position h ≡ checked b position 2 h (at 0 + 256 * at 1)
  unfolding read_uint16le
  read_uint16le_lem = rw (in_range-eq-fits_at b position 1 small) (
      checked_by b position 2 h _ _ λ f.
        rw (loads 2 1 f (omega arith), loads 2 0 f (omega arith))
          (ap (λ n. ok n h) (pair_sum (at 1) (at 0) (at-lt 1) (at-lt 0))))

  pub read_int16le_lem :
      read_int16le b position h ≡ checked b position 2 h (signed16 (at 0 + 256 * at 1))
  unfolding read_int16le
  read_int16le_lem = rw (in_range-eq-fits_at b position 1 small) (
      checked_by b position 2 h _ _ λ f.
        rw (loads 2 1 f (omega arith), loads 2 0 f (omega arith))
          (ap (λ z. ok z h)
            (ap from_uint16 (pair_sum (at 1) (at 0) (at-lt 1) (at-lt 0))
              ∙ from_uint16-signed16 (at 0 + 256 * at 1) (omega (arith, at-lt 0, at-lt 1)))))

  pub read_uint16be_lem : read_uint16be b position h ≡ checked b position 2 h (at 1 + 256 * at 0)
  unfolding read_uint16be
  read_uint16be_lem = rw (in_range-eq-fits_at b position 1 small) (
      checked_by b position 2 h _ _ λ f.
        rw (loads 2 0 f (omega arith), loads 2 1 f (omega arith))
          (ap (λ n. ok n h) (pair_sum (at 0) (at 1) (at-lt 0) (at-lt 1))))

  pub read_int16be_lem :
      read_int16be b position h ≡ checked b position 2 h (signed16 (at 1 + 256 * at 0))
  unfolding read_int16be
  read_int16be_lem = rw (in_range-eq-fits_at b position 1 small) (
      checked_by b position 2 h _ _ λ f.
        rw (loads 2 0 f (omega arith), loads 2 1 f (omega arith))
          (ap (λ z. ok z h)
            (ap from_uint16 (pair_sum (at 0) (at 1) (at-lt 0) (at-lt 1))
              ∙ from_uint16-signed16 (at 1 + 256 * at 0) (omega (arith, at-lt 1, at-lt 0)))))

  pub read_uint32le_lem :
      read_uint32le b position h
      ≡ checked b position 4 h (at 0 + 256 * at 1 + 65536 * at 2 + 16777216 * at 3)
  unfolding read_uint32le
  read_uint32le_lem = rw (in_range-eq-fits_at b position 3 small) (
      checked_by b position 4 h _ _ λ f.
        rw
          (
            loads 4 3 f (omega arith),
            loads 4 2 f (omega arith),
            loads 4 1 f (omega arith),
            loads 4 0 f (omega arith),
          )
          (ap (λ n. ok n h)
            (word_sum (at 3) (at 2) (at 1) (at 0) (at-lt 3) (at-lt 2) (at-lt 1) (at-lt 0))))

  pub read_int32le_lem :
      read_int32le b position h
      ≡ checked b position 4 h (signed32 (at 0 + 256 * at 1 + 65536 * at 2 + 16777216 * at 3))
  unfolding read_int32le
  read_int32le_lem = rw (in_range-eq-fits_at b position 3 small) (
      checked_by b position 4 h _ _ λ f.
        rw
          (
            loads 4 3 f (omega arith),
            loads 4 2 f (omega arith),
            loads 4 1 f (omega arith),
            loads 4 0 f (omega arith),
          )
          (ap (λ z. ok z h)
            (ap from_uint32
                (word_sum (at 3) (at 2) (at 1) (at 0) (at-lt 3) (at-lt 2) (at-lt 1) (at-lt 0))
              ∙ from_uint32-signed32 (at 0 + 256 * at 1 + 65536 * at 2 + 16777216 * at 3)
                  (omega (arith, at-lt 0, at-lt 1, at-lt 2, at-lt 3)))))

  pub read_uint32be_lem :
      read_uint32be b position h
      ≡ checked b position 4 h (at 3 + 256 * at 2 + 65536 * at 1 + 16777216 * at 0)
  unfolding read_uint32be
  read_uint32be_lem = rw (in_range-eq-fits_at b position 3 small) (
      checked_by b position 4 h _ _ λ f.
        rw
          (
            loads 4 0 f (omega arith),
            loads 4 1 f (omega arith),
            loads 4 2 f (omega arith),
            loads 4 3 f (omega arith),
          )
          (ap (λ n. ok n h)
            (word_sum (at 0) (at 1) (at 2) (at 3) (at-lt 0) (at-lt 1) (at-lt 2) (at-lt 3))))

  pub read_int32be_lem :
      read_int32be b position h
      ≡ checked b position 4 h (signed32 (at 3 + 256 * at 2 + 65536 * at 1 + 16777216 * at 0))
  unfolding read_int32be
  read_int32be_lem = rw (in_range-eq-fits_at b position 3 small) (
      checked_by b position 4 h _ _ λ f.
        rw
          (
            loads 4 0 f (omega arith),
            loads 4 1 f (omega arith),
            loads 4 2 f (omega arith),
            loads 4 3 f (omega arith),
          )
          (ap (λ z. ok z h)
            (ap from_uint32
                (word_sum (at 0) (at 1) (at 2) (at 3) (at-lt 0) (at-lt 1) (at-lt 2) (at-lt 3))
              ∙ from_uint32-signed32 (at 3 + 256 * at 2 + 65536 * at 1 + 16777216 * at 0)
                  (omega (arith, at-lt 0, at-lt 1, at-lt 2, at-lt 3)))))

  -- In a sound buffer whose length is an `int`, each reader of an unsigned integer returns the
  -- number that the bytes at the position stand for in its byte order, if they lie in the buffer,
  -- and raises the index error at every other position; it never changes the heap or faults.
  pub unsigned_reads :
      (read_uint8 b position h ≡ checked b position 1 h (at 0))
      × (read_uint16le b position h ≡ checked b position 2 h (at 0 + 256 * at 1))
      × (read_uint16be b position h ≡ checked b position 2 h (at 1 + 256 * at 0))
      × (read_uint32le b position h
          ≡ checked b position 4 h (at 0 + 256 * at 1 + 65536 * at 2 + 16777216 * at 3))
      × (read_uint32be b position h
          ≡ checked b position 4 h (at 3 + 256 * at 2 + 65536 * at 1 + 16777216 * at 0))
  unsigned_reads =
      (read_uint8_lem, read_uint16le_lem, read_uint16be_lem, read_uint32le_lem, read_uint32be_lem)

  -- In a sound buffer whose length is an `int`, each reader of a signed integer returns the value
  -- in two's complement of the bytes at the position in its byte order, if they lie in the buffer,
  -- and raises the index error at every other position; it never changes the heap or faults.
  pub signed_reads :
      (read_int8 b position h ≡ checked b position 1 h (signed8 (at 0)))
      × (read_int16le b position h ≡ checked b position 2 h (signed16 (at 0 + 256 * at 1)))
      × (read_int16be b position h ≡ checked b position 2 h (signed16 (at 1 + 256 * at 0)))
      × (read_int32le b position h
          ≡ checked b position 4 h (signed32 (at 0 + 256 * at 1 + 65536 * at 2 + 16777216 * at 3)))
      × (read_int32be b position h
          ≡ checked b position 4 h (signed32 (at 3 + 256 * at 2 + 65536 * at 1 + 16777216 * at 0)))
  signed_reads =
      (read_int8_lem, read_int16le_lem, read_int16be_lem, read_int32le_lem, read_int32be_lem)
