-- ===== src/Buffer/Mem.antt =====
-- Counted blocks of memory: `couv_buf_mem_alloc`, `couv_buf_mem_retain` and `couv_buf_mem_release`
-- of src/buffer.c, with `couv_alloc` and `couv_free` of src/auxlib.c.
-- A pointer to the bytes of a block is a number, 0 for NULL, and `container_of` finds its header.
use mathlib.Core.Path.{fun_ext}
use couv.Prelude.{
  ◌≡◌, ◌≢◌, arith, ℕ, zero, suc, ◌+◌, ◌-◌, ◌%◌, Option, none, some, List, [], ◌∷◌, leb, ◌==◌,
  if◌then◌else◌,
}
use couv.Prelude.CInt.{int_max, size_max, low_byte}
use couv.Lua.{Call, ok, raised, fault, lua_error, ◌>>=◌}

abbrev pub Ptr : Type 0
Ptr = ℕ

abbrev pub null : Ptr
null = 0

-- `couv_buf_mem_t`.
pub record BufMem : Type 0 where
  pub ref_cnt : ℕ
  pub mem : List ℕ

abbrev pub Heap : Type 0
Heap = Ptr → Option BufMem

unfoldable pub write : Heap → Ptr → Option BufMem → Heap
write h p c q = if q == p then c else h q

-- What `malloc` answers: an address, or NULL, and what the bytes there hold.
pub record Malloc : Type 0 where
  pub ptr : Ptr
  pub content : ℕ → ℕ

abbrev pub uninitialised : (ℕ → ℕ) → ℕ → List ℕ
uninitialised content zero = []
uninitialised content (suc n) = low_byte (content n) ∷ uninitialised content n

-- `offsetof(couv_buf_mem_t, mem)`.
abbrev pub header_size : ℕ
header_size = 4

-- The sum of the header's size and `nbytes` is a `size_t`, so it may wrap.
unfoldable pub mem_alloc : Malloc → ℕ → Call Heap Ptr
unfolding write
mem_alloc m nbytes h =
    if m.ptr == null then raised (lua_error "ENOMEM") h else ok m.ptr (write h m.ptr (some block))
  where
    block : BufMem
    block = record {
      ref_cnt = 1;
      mem = uninitialised m.content ((header_size + nbytes) % size_max - header_size);
    }

-- The header of the block that a pointer leads into.
unfoldable pub header : Ptr → Call Heap BufMem
header p h = elim (h p) [ none ↦ fault | some m ↦ ok m h ]

unfoldable pub set_header : Ptr → Option BufMem → Call Heap (Unit {0})
set_header p c h = ok tt (write h p c)

-- `++mem->ref_cnt`, on an `int`.
unfoldable pub mem_retain : Ptr → Call Heap (Unit {0})
unfolding header set_header write
mem_retain p = do
  m ← header p
  if leb int_max m.ref_cnt
      then (λ _. fault)
      else set_header p (some (record m { ref_cnt = m.ref_cnt + 1 }))

-- `if (!--mem->ref_cnt) couv_free(L, mem);`. A block that is allocated counts 1 or more.
unfoldable pub mem_release : Ptr → Call Heap (Unit {0})
unfolding header set_header write
mem_release p = do
  m ← header p
  if m.ref_cnt == 1
      then set_header p none
      else set_header p (some (record m { ref_cnt = m.ref_cnt - 1 }))

pub write_same : (h : Heap) (p q : Ptr) (c : Option BufMem) → p ≡ q → write h p c q ≡ c
unfolding write
write_same h p q c e = ground arith

pub write_other : (h : Heap) (p q : Ptr) (c : Option BufMem) → q ≢ p → write h p c q ≡ h q
unfolding write
write_other h p q c ne = ground arith

pub write-write : (h : Heap) (p : Ptr) (c d : Option BufMem) → write (write h p c) p d ≡ write h p d
unfolding write
write-write h p c d = fun_ext λ q. ground arith

pub write_self : (h : Heap) (p : Ptr) (c : Option BufMem) → h p ≡ c → write h p c ≡ h
unfolding write
write_self h p c e = fun_ext λ q. ground arith
