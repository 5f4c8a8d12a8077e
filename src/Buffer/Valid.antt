-- ===== src/Buffer/Valid.antt =====
-- When a buffer is sound: its block is allocated and holds the buffer's bytes. Under it every
-- access of src/buffer.c that passes its index check reaches a byte of the block.
use couv.Prelude.{
  ℕ, zero, suc, ◌+◌, ◌-◌, ◌≤◌, ◌<◌, ◌≡◌, Bool, true, false, Option, none, some, List, length,
  get_or, set, get_elem?-eq-get_or, arith, ltb,
}
use couv.Prelude.Bytes.{AllBytes, get_or-lt}
use couv.Prelude.Int.{ℤ, pos, negsuc, pos_part, ◌+ℤ◌, ◌-ℤ◌}
use couv.Prelude.CInt.{int_max, int_of_size}
use couv.Lua.{ok}
use couv.Buffer.Mem.{Ptr, BufMem, Heap, write}
use couv.Buffer.Access.{Buffer, in_range, address, load_at, store_at, load, store}

pub record IsValid (h : Heap) (b : Buffer) : Type 0 where
  pub block : BufMem
  pub holds : h b.orig ≡ some block
  pub fits : b.base + b.len ≤ length block.mem
  pub bytes : AllBytes block.mem

-- `n` bytes from a position on lie in a buffer; positions count from 1.
abbrev pub fits_at : Buffer → ℤ → ℕ → Bool
fits_at b (negsuc _) n = false
fits_at b (pos zero) n = false
fits_at b (pos (suc p)) n = ltb (p + n) (b.len + 1)

-- The check before an access to `k + 1` bytes, where the length is an `int`.
pub in_range-eq-fits_at :
    (b : Buffer) (position : ℤ) (k : ℕ)
    → b.len ≤ int_max
    → in_range position (pos 1) (int_of_size b.len -ℤ pos k) ≡ fits_at b position (k + 1)
unfolding ◌-ℤ◌
in_range-eq-fits_at b (negsuc n) k h = ground arith
in_range-eq-fits_at b (pos zero) k h = ground arith
in_range-eq-fits_at b (pos (suc p)) k h = ground arith

pub in_range-eq-fits_at_one :
    (b : Buffer) (position : ℤ)
    → b.len ≤ int_max
    → in_range position (pos 1) (int_of_size b.len) ≡ fits_at b position 1
in_range-eq-fits_at_one b (negsuc n) h = ground arith
in_range-eq-fits_at_one b (pos zero) h = ground arith
in_range-eq-fits_at_one b (pos (suc p)) h = ground arith

-- The byte `i` places behind a position of the buffer.
abbrev pub mem_of : Option BufMem → List ℕ
mem_of none = List.[]
mem_of (some m) = m.mem

abbrev pub offset : Buffer → ℤ → ℕ → ℕ
offset b position i = b.base + (pos_part position - 1) + i

abbrev pub byte_at : Heap → Buffer → ℤ → ℕ → ℕ
byte_at h b position i = get_or (mem_of (h b.orig)) (offset b position i) 0

pub address-offset :
    (b : Buffer) (p i : ℕ) → address b (pos (suc p)) +ℤ pos i ≡ pos (b.base + p + i)
unfolding ◌+ℤ◌ ◌-ℤ◌
address-offset b p i = ground arith

pub offset-suc : (b : Buffer) (p i : ℕ) → offset b (pos (suc p)) i ≡ b.base + p + i
offset-suc b p i = omega arith

load_at-ok :
    (h : Heap) (p : Ptr) (m : BufMem) (a : ℕ)
    → h p ≡ some m
    → a < length m.mem
    → load_at p (pos a) h ≡ ok (get_or m.mem a 0) h
unfolding load_at
load_at-ok h p m a e l = ground (arith, get_elem?-eq-get_or m.mem a 0 l)

store_at-ok :
    (h : Heap) (p : Ptr) (m : BufMem) (a x : ℕ)
    → h p ≡ some m
    → a < length m.mem
    → store_at p (pos a) x h ≡ ok tt (write h p (some (record m { mem = set m.mem a x })))
unfolding store_at
store_at-ok h p m a x e l = ground arith

-- A byte of the buffer lies in the block.
offset-lt :
    (b : Buffer) (m : BufMem) (p n i : ℕ)
    → b.base + b.len ≤ length m.mem
    → fits_at b (pos (suc p)) n ≡ true
    → i < n
    → b.base + p + i < length m.mem
offset-lt b m p n i fits f l = ground arith

-- What the heap is after a write of one byte.
abbrev pub poke : Heap → Buffer → BufMem → ℤ → ℕ → ℕ → Heap
poke h b m position i x =
    write h b.orig (some (record m { mem = set m.mem (offset b position i) x }))

module _ {h : Heap} {b : Buffer} (v : IsValid h b) where
  pub byte_at-lt : (position : ℤ) (i : ℕ) → byte_at h b position i < 256
  byte_at-lt position i = rw v.holds (get_or-lt v.block.mem (offset b position i) v.bytes)

  pub load_lem :
      (position : ℤ) (n i : ℕ)
      → fits_at b position n ≡ true
      → i < n
      → load b position i h ≡ ok (byte_at h b position i) h
  unfolding load
  load_lem (negsuc q) n i f l = cc
  load_lem (pos zero) n i f l = cc
  load_lem (pos (suc p)) n i f l =
      rw (address-offset b p i, offset-suc b p i, v.holds)
        (load_at-ok h b.orig v.block (b.base + p + i) v.holds
          (offset-lt b v.block p n i v.fits f l))

  pub store_lem :
      (position : ℤ) (n i x : ℕ)
      → fits_at b position n ≡ true
      → i < n
      → store b position i x h ≡ ok tt (poke h b v.block position i x)
  unfolding store
  store_lem (negsuc q) n i x f l = cc
  store_lem (pos zero) n i x f l = cc
  store_lem (pos (suc p)) n i x f l =
      rw (address-offset b p i, offset-suc b p i)
        (store_at-ok h b.orig v.block (b.base + p + i) x v.holds
          (offset-lt b v.block p n i v.fits f l))
