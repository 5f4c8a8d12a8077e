-- ===== src/Buffer/Access.antt =====
-- Buffers, and how the methods of src/buffer.c check an index and reach a byte.
use couv.Prelude.{
  ℕ, zero, suc, ◌+◌, List, [], ◌∷◌, Bool, ◌&&◌, none, some, length, get_elem?, set, ltb,
  if◌then◌else◌,
}
use couv.Prelude.Int.{ℤ, pos, negsuc, ◌+ℤ◌, ◌-ℤ◌, leb_ℤ}
use couv.Lua.{Call, ok, fault, argcheck, ◌>>=◌, ◌>>◌}
use couv.Buffer.Mem.{Ptr, Heap, header, set_header}

-- `couv_buf_t`. `base` points into the block of `orig`, and is written as an offset from it.
pub record Buffer : Type 0 where
  pub orig : Ptr
  pub base : ℕ
  pub len : ℕ

-- `couv_argcheckindex`. The cast of its macro binds to the first name of `max`, so that the
-- bounds are sums of `int`.
abbrev pub in_range : ℤ → ℤ → ℤ → Bool
in_range index lo hi = leb_ℤ lo index && leb_ℤ index hi

abbrev pub argcheckindex : {S : Type 0} → ℕ → ℤ → ℤ → ℤ → Call S (Unit {0})
argcheckindex arg index lo hi = argcheck (in_range index lo hi) arg "index out of range"

-- `&buf->buf.base[position - 1]`, as an offset into the block; a pointer before it is no offset.
abbrev pub address : Buffer → ℤ → ℤ
address b position = pos b.base +ℤ (position -ℤ pos 1)

-- `*p`, one byte of a block.
unfoldable pub load_at : Ptr → ℤ → Call Heap ℕ
unfolding header
load_at p (negsuc _) = λ _. fault
load_at p (pos a) = do m ← header p; elim (get_elem? m.mem a) [ none ↦ λ _. fault | some x ↦ ok x ]

-- `*q = x`, one byte of a block.
unfoldable pub store_at : Ptr → ℤ → ℕ → Call Heap (Unit {0})
unfolding header set_header
store_at p (negsuc _) x = λ _. fault
store_at p (pos a) x = do
  m ← header p
  if ltb a (length m.mem)
      then set_header p (some (record m { mem = set m.mem a x }))
      else (λ _. fault)

-- `p[i]` and `q[i] = x`, for a pointer to the byte at a position.
unfoldable pub load : Buffer → ℤ → ℕ → Call Heap ℕ
unfolding load_at
load b position i = load_at b.orig (address b position +ℤ pos i)

unfoldable pub store : Buffer → ℤ → ℕ → ℕ → Call Heap (Unit {0})
unfolding store_at
store b position i x = store_at b.orig (address b position +ℤ pos i) x

-- `*q++ = x` for each byte of a list, from the `i`-th byte behind a position on.
unfoldable pub store_bytes : Buffer → ℤ → ℕ → List ℕ → Call Heap (Unit {0})
store_bytes b position i [] = ok tt
store_bytes b position i (x ∷ xs) = do store b position i x; store_bytes b position (i + 1) xs

-- The bytes that `n` steps of `*p++` read, from the `i`-th byte behind a position on.
unfoldable pub load_bytes : Buffer → ℤ → ℕ → ℕ → Call Heap (List ℕ)
load_bytes b position i zero = ok []
load_bytes b position i (suc n) = do
  x ← load b position i
  xs ← load_bytes b position (i + 1) n
  ok (x ∷ xs)
