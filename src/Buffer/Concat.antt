-- ===== src/Buffer/Concat.antt =====
-- `couv_tobuforstr`, `couv_checkbuforstrtable` and `Buffer.concat` of src/buffer.c.
pub mod Gather
pub mod Joined
use couv.Prelude.{
  ℕ, ◌+◌, ◌&&◌, Bool, Option, none, some, List, [], ◌∷◌, length, take, ltb, leb, ◌==◌,
  if◌then◌else◌,
}
use couv.Prelude.Int.{ℤ, pos, ◌+ℤ◌, ◌-ℤ◌, ltb_ℤ, is_zero}
use couv.Prelude.CInt.{to_int, to_size, int_of_size}
use couv.Lua.{Call, ok, fault, raise, pure, arg_error, lua_error, opt, ◌>>=◌, ◌>>◌}
use couv.Buffer.Mem.{null, Malloc, Heap}
use couv.Buffer.Access.{Buffer, store_bytes}
use couv.Buffer.Range.{min_ℤ, memmove}
use couv.Buffer.New.{NewArg, new_block}

-- An element of a Lua table, as far as these functions tell them apart.
pub data Value : Type 0 where
  string : List ℕ → Value
  buffer : Buffer → Value
  other : Value

-- A `uv_buf_t` whose `base` is not NULL: the bytes of a Lua string, or those of a buffer.
pub data Source : Type 0 where
  text : List ℕ → Source
  bytes : Buffer → Source

-- `couv_tobuforstr`; `none` is a NULL `base`, which a buffer has over no block too.
unfoldable pub tobuforstr : Value → Option Source
tobuforstr (Value.string str) = some (Source.text str)
tobuforstr (Value.buffer b) = if b.orig == null then none else some (Source.bytes b)
tobuforstr Value.other = none

unfoldable pub checkbuforstr : {S : Type 0} → ℕ → Value → Call S Source
unfolding tobuforstr
checkbuforstr index v = elim (tobuforstr v) [
  | none ↦ raise (arg_error index "must be string or Buffer")
  | some s ↦ pure s
]

abbrev pub with_source : {S : Type 0} → Option Source → Call S (List Source) → Call S (List Source)
with_source none rest = raise (arg_error 1 "must be an array (table) of buffers or strings")
with_source (some s) rest = do buffers ← rest; pure (s ∷ buffers)

unfoldable pub collect_sources : {S : Type 0} → List Value → Call S (List Source)
unfolding tobuforstr
collect_sources [] = pure []
collect_sources (v ∷ vs) = with_source (tobuforstr v) (collect_sources vs)

-- The error names argument 1 wherever the table stands. `allocated` says whether the array of
-- `uv_buf_t` could be allocated.
unfoldable pub checkbuforstrtable : {S : Type 0} → Bool → List Value → Call S (List Source)
unfolding collect_sources
checkbuforstrtable allocated vs =
    if allocated then collect_sources vs else raise (lua_error "ENOMEM")

abbrev pub source_len : Source → ℕ
source_len (Source.text str) = length str
source_len (Source.bytes b) = b.len

-- `total_length += buf->len`, on an `int`.
unfoldable pub sum_lengths : ℤ → List Source → ℤ
sum_lengths total [] = total
sum_lengths total (s ∷ ss) = sum_lengths (to_int (total +ℤ pos (source_len s))) ss

-- `memmove(dst, buf->base, len)`.
unfoldable pub move_to : Buffer → ℤ → Source → ℕ → Call Heap (Unit {0})
unfolding memmove store_bytes
move_to target dst (Source.text str) len =
    if leb len (length str) then store_bytes target dst 0 (take len str) else (λ _. fault)
move_to target dst (Source.bytes b) len = memmove target dst b (pos 1) len

-- The loop over the sources, with the position that `dst` points to.
unfoldable pub gather : Buffer → ℤ → ℤ → List Source → Call Heap (Unit {0})
unfolding move_to
gather target dst total [] = ok tt
gather target dst total (s ∷ ss) =
    let len = min_ℤ (int_of_size (source_len s)) total in
    let go : Call Heap (Unit {0}) =
      move_to target dst s (to_size len) >> gather target (dst +ℤ len) (total -ℤ len) ss in
    if ltb_ℤ (pos 0) total then go else ok tt

-- It calls `buffer_new`; the array of sources, and the userdata that stays where that raises, are
-- left out here.
unfoldable pub buffer_concat : Malloc → Bool → List Value → Option ℤ → Call Heap Buffer
buffer_concat m allocated vs total? = do
  buffers ← checkbuforstrtable allocated vs
  let given = opt total? (pos 0)
  let total = if is_zero given then sum_lengths given buffers else given
  target ← new_block m (NewArg.number total)
  gather target (pos 1) total buffers
  pure target
