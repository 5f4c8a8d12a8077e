-- ===== src/Buffer/Range/Slice.antt =====
-- `slice` of src/buffer.c: what it returns, and that the new buffer shares its parent's bytes.
use couv.Prelude.{ℕ, suc, true, ◌+◌, ◌-◌, ◌≤◌, ◌<◌, ◌≡◌, refl, Option, some, arith}
use couv.Prelude.Int.{ℤ, pos, negsuc, pos_part, ◌+ℤ◌, ◌-ℤ◌}
use couv.Prelude.CInt.{int_max, int_of_size, to_size}
use couv.Lua.{ok, opt}
use couv.Buffer.Mem.{BufMem, Heap, write, mem_retain}
use couv.Buffer.Access.{Buffer, in_range, store}
use couv.Buffer.Valid.{IsValid, address-offset}
use couv.Buffer.Read.{read_uint8}
use couv.Buffer.Write.{write_uint8}
use couv.Buffer.Range.{span, buffer_slice}
use couv.Buffer.Range.Checks.{int_of_size_small, indexed, indexed_by}

-- The part of a buffer from `first` to `last`.
abbrev pub part : Buffer → ℤ → ℤ → Buffer
part b first last = record {
  orig = b.orig;
  base = b.base + (pos_part first - 1);
  len = pos_part last + 1 - pos_part first;
}

abbrev pub counted : BufMem → ℕ → BufMem
counted m n = record m { ref_cnt = n }

pub retain_lem :
    (h : Heap) (b : Buffer) (m : BufMem)
    → h b.orig ≡ some m
    → m.ref_cnt < int_max
    → mem_retain b.orig h ≡ ok tt (write h b.orig (some (counted m (m.ref_cnt + 1))))
unfolding mem_retain
retain_lem h b m e l = ground arith

part_base :
    (b : Buffer) (first last : ℤ)
    → in_range first (pos 1) (pos b.len) ≡ true
    → pos_part (pos b.base +ℤ first -ℤ pos 1) ≡ b.base + (pos_part first - 1)
unfolding ◌+ℤ◌ ◌-ℤ◌
part_base b (negsuc n) last f = ground arith
part_base b (pos p) last f = ground arith

part_len :
    (b : Buffer) (first last : ℤ)
    → b.len ≤ int_max
    → in_range first (pos 1) (pos b.len) ≡ true
    → in_range last first (pos b.len) ≡ true
    → to_size (span first last) ≡ pos_part last + 1 - pos_part first
unfolding ◌+ℤ◌ ◌-ℤ◌
part_len b (negsuc n) last s f l = ground arith
part_len b (pos p) (negsuc n) s f l = ground arith
part_len b (pos p) (pos q) s f l = ground arith

module _ {h : Heap} {b : Buffer} (v : IsValid h b) (small : b.len ≤ int_max)
    (room : v.block.ref_cnt < int_max) (first? last? : Option ℤ) where
  abbrev first : ℤ
  first = opt first? (pos 1)

  abbrev last : ℤ
  last = opt last? (pos b.len)

  -- Of a sound buffer whose length is an `int` and whose block counts fewer than 2 ^ 31 - 1, slice
  -- checks `first` and then `last`, and otherwise returns the buffer over that range of the same
  -- block, whose count is one more.
  pub slice_lem :
      buffer_slice b first? last? h
      ≡ indexed 2 first (pos 1) (pos b.len) h (
          indexed 3 last first (pos b.len) h (
            ok (part b first last) (write h b.orig (some (counted v.block (v.block.ref_cnt + 1))))))
  unfolding buffer_slice
  slice_lem = rw (int_of_size_small b.len small) (
      indexed_by 2 first (pos 1) (pos b.len) h _ _ λ f.
        indexed_by 3 last first (pos b.len) h _ _ λ l. rw (
          retain_lem h b v.block v.holds room,
          part_base b first last f,
          part_len b first last small f l,
        ))

-- A position of a slice is in range, and so is the position of the parent that it stands for.
part-in_range :
    (b : Buffer) (p q k : ℕ)
    → b.len ≤ int_max
    → q ≤ b.len
    → suc p + k ≤ q
    → (in_range (pos (suc k)) (pos 1) (int_of_size (part b (pos (suc p)) (pos q)).len) ≡ true)
      × (in_range (pos (suc (p + k))) (pos 1) (int_of_size b.len) ≡ true)
part-in_range b p q k s l r = (ground arith, ground arith)

part_offset :
    (b : Buffer) (p q k i : ℕ) → (part b (pos (suc p)) (pos q)).base + k + i ≡ b.base + (p + k) + i
part_offset b p q k i = omega arith

shared_byte :
    (h : Heap) (b : Buffer) (p q k : ℕ) (value : ℤ)
    → b.len ≤ int_max
    → q ≤ b.len
    → suc p + k ≤ q
    → (read_uint8 (part b (pos (suc p)) (pos q)) (pos (suc k)) h
        ≡ read_uint8 b (pos (suc (p + k))) h)
      × (write_uint8 (part b (pos (suc p)) (pos q)) (pos (suc k)) value h
          ≡ write_uint8 b (pos (suc (p + k))) value h)
unfolding read_uint8 write_uint8 store
shared_byte h b p q k value s l r =
    let (in_slice, in_parent) = part-in_range b p q k s l r in
    (
      rw (
        in_slice,
        in_parent,
        address-offset (part b (pos (suc p)) (pos q)) k 0,
        address-offset b (p + k) 0,
        part_offset b p q k 0,
      ),
      rw (
        in_slice,
        in_parent,
        address-offset (part b (pos (suc p)) (pos q)) k 0,
        address-offset b (p + k) 0,
        part_offset b p q k 0,
      ),
    )

-- Of a sound buffer whose length is an `int` and whose block counts fewer than 2 ^ 31 - 1, slice
-- from `suc p` to `q` in range returns a buffer that shares the parent's bytes: with the heap that
-- it leaves, reading or writing byte `suc k` of it is reading or writing byte `suc (p + k)` of the
-- parent.
pub slice_alias :
    {h : Heap} {b : Buffer} (v : IsValid h b) (p q k : ℕ) (value : ℤ)
    → b.len ≤ int_max
    → v.block.ref_cnt < int_max
    → q ≤ b.len
    → suc p + k ≤ q
    → (s : Buffer) × (h' : Heap) × (buffer_slice b (some (pos (suc p))) (some (pos q)) h ≡ ok s h')
      × (read_uint8 s (pos (suc k)) h' ≡ read_uint8 b (pos (suc (p + k))) h')
      × (write_uint8 s (pos (suc k)) value h' ≡ write_uint8 b (pos (suc (p + k))) value h')
slice_alias {h} {b} v p q k value small room l r =
    let low : in_range (pos (suc p)) (pos 1) (pos b.len) ≡ true = ground arith in
    let high : in_range (pos q) (pos (suc p)) (pos b.len) ≡ true = ground arith in
    let left = write h b.orig (some (counted v.block (v.block.ref_cnt + 1))) in
    let (reads, writes) = shared_byte left b p q k value small l r in
    (
      part b (pos (suc p)) (pos q),
      left,
      rw (slice_lem v small room (some (pos (suc p))) (some (pos q)), low, high) refl,
      reads,
      writes,
    )
