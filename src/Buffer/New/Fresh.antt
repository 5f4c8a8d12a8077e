-- ===== src/Buffer/New/Fresh.antt =====
-- What `Buffer.new` returns.
use couv.Prelude.{
  ℕ, zero, suc, true, false, ◌+◌, ◌-◌, ◌<◌, ◌≡◌, ◌≢◌, refl, ap, ◌∙◌, some, List, length, arith,
  ◌==◌, ◌%◌,
}
use couv.Prelude.Bytes.{AllBytes, blit_all}
use couv.Prelude.Int.{pos}
use couv.Prelude.CInt.{size_max}
use couv.Lua.{ok, raised, lua_error}
use couv.Buffer.Mem.{
  Ptr, BufMem, Malloc, Heap, write, write_same, mem_alloc, uninitialised, null, header_size,
  write-write,
}
use couv.Buffer.Valid.{IsValid, fits_at}
use couv.Buffer.Encode.{store_bytes_lem}
use couv.Buffer.New.{NewArg, whole, new_block}

pub length-uninitialised : (content : ℕ → ℕ) (n : ℕ) → length (uninitialised content n) ≡ n
length-uninitialised content zero = refl
length-uninitialised content (suc n) = ap suc (length-uninitialised content n)

pub AllBytes-uninitialised : (content : ℕ → ℕ) (n : ℕ) → AllBytes (uninitialised content n)
AllBytes-uninitialised content zero = tt
AllBytes-uninitialised content (suc n) = (omega arith, AllBytes-uninitialised content n)

-- The block that `malloc` makes for `n` bytes, when the sum with the header's size does not wrap.
abbrev pub fresh_block : Malloc → ℕ → BufMem
fresh_block m n = record { ref_cnt = 1; mem = uninitialised m.content n }

pub mem_alloc_lem :
    (m : Malloc) (n : ℕ) (h : Heap)
    → n + header_size < size_max
    → m.ptr ≢ null
    → mem_alloc m n h ≡ ok m.ptr (write h m.ptr (some (fresh_block m n)))
unfolding mem_alloc
mem_alloc_lem m n h small ne =
    let not_null : (m.ptr == null) ≡ false = ground arith in rw (not_null, no_wrap) refl
  where
    no_wrap : (header_size + n) % size_max - header_size ≡ n
    no_wrap = omega arith

pub mem_alloc_fails :
    (m : Malloc) (n : ℕ) (h : Heap) → m.ptr ≡ null → mem_alloc m n h ≡ raised (lua_error "ENOMEM") h
unfolding mem_alloc
mem_alloc_fails m n h e = rw e

-- A new block makes its whole buffer sound.
pub fresh-IsValid :
    (m : Malloc) (n : ℕ) (h : Heap)
    → IsValid (write h m.ptr (some (fresh_block m n))) (whole m.ptr n)
fresh-IsValid m n h = record {
  block = fresh_block m n;
  holds = write_same h m.ptr m.ptr _ refl;
  fits = omega (arith, length-uninitialised m.content n);
  bytes = AllBytes-uninitialised m.content n;
}

whole-fits : (p : Ptr) (n : ℕ) → fits_at (whole p n) (pos 1) n ≡ true
whole-fits p n = ground arith

-- The block of a string's bytes.
abbrev pub string_block : List ℕ → BufMem
string_block str = record { ref_cnt = 1; mem = str }

-- Where `malloc` gives a block, `Buffer.new` of a string returns a buffer over a block that is
-- counted once, holds exactly the bytes of the string and lies at the address given; the rest of
-- the heap stays, and the buffer is sound.
pub new_string :
    (m : Malloc) (str : List ℕ) (h : Heap)
    → m.ptr ≢ null
    → length str + header_size < size_max
    → AllBytes str
    → let h' = write h m.ptr (some (string_block str)) in
      (new_block m (NewArg.string str) h ≡ ok (whole m.ptr (length str)) h')
      × IsValid h' (whole m.ptr (length str))
unfolding new_block
new_string m str h ne small bs = (
  rw
      (
        mem_alloc_lem m n h small ne,
        store_bytes_lem str v (pos 1) n 0 (whole-fits m.ptr n) (omega arith) bs,
      )
      (ap (ok (whole m.ptr n)) (
        write-write h m.ptr _ _
        ∙ ap (λ xs. write h m.ptr (some (string_block xs)))
            (blit_all (uninitialised m.content n) str (length-uninitialised m.content n)))),
  record {
    block = string_block str;
    holds = write_same h m.ptr m.ptr _ refl;
    fits = omega arith;
    bytes = bs;
  },
)
  where
    n : ℕ
    n = length str

    v : IsValid (write h m.ptr (some (fresh_block m n))) (whole m.ptr n)
    v = record {
      block = fresh_block m n;
      holds = write_same h m.ptr m.ptr _ refl;
      fits = omega (arith, length-uninitialised m.content n);
      bytes = AllBytes-uninitialised m.content n;
    }

-- Where `malloc` gives a block, `Buffer.new` of a length returns a sound buffer of that length
-- over a block that is counted once, and the rest of the heap stays.
pub new_number :
    (m : Malloc) (n : ℕ) (h : Heap)
    → m.ptr ≢ null
    → n + header_size < size_max
    → let h' = write h m.ptr (some (fresh_block m n)) in
      (new_block m (NewArg.number (pos n)) h ≡ ok (whole m.ptr n) h') × IsValid h' (whole m.ptr n)
unfolding new_block
new_number m n h ne small =
    let same : n % size_max ≡ n = omega arith in
    (rw (same, mem_alloc_lem m n h small ne), fresh-IsValid m n h)
