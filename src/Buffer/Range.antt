-- ===== src/Buffer/Range.antt =====
-- The methods of src/buffer.c that work on a range of bytes, and `__gc`.
pub mod Checks
pub mod Contents
pub mod Copy
pub mod Put
pub mod Slice
use couv.Prelude.{ℕ, Option, List, length, take, replicate, if◌then◌else◌}
use couv.Prelude.Int.{ℤ, pos, pos_part, ◌+ℤ◌, ◌-ℤ◌, ltb_ℤ}
use couv.Prelude.CInt.{to_uint, to_int, to_size, int_of_size, low_byte}
use couv.Lua.{Call, ok, pure, opt, ◌>>=◌, ◌>>◌}
use couv.Buffer.Mem.{null, Heap, mem_retain, mem_release}
use couv.Prelude.{◌==◌}
use couv.Buffer.Access.{Buffer, argcheckindex, load_bytes, store_bytes}

-- The number of bytes from `first` to `last`, as an `int`.
abbrev pub span : ℤ → ℤ → ℤ
span first last = last -ℤ first +ℤ pos 1

unfoldable pub buffer_slice : Buffer → Option ℤ → Option ℤ → Call Heap Buffer
unfolding mem_retain
buffer_slice buf first? last? = do
  let first = opt first? (pos 1)
  let last = opt last? (int_of_size buf.len)
  argcheckindex 2 first (pos 1) (int_of_size buf.len)
  argcheckindex 3 last first (int_of_size buf.len)
  mem_retain buf.orig
  pure (record {
    orig = buf.orig;
    base = pos_part (pos buf.base +ℤ first -ℤ pos 1);
    len = to_size (span first last);
  })

-- `memset` of a range.
unfoldable pub buffer_fill : Buffer → ℤ → Option ℤ → Option ℤ → Call Heap (Unit {0})
unfolding store_bytes
buffer_fill buf byte first? last? = do
  let first = opt first? (pos 1)
  let last = opt last? (int_of_size buf.len)
  argcheckindex 3 first (pos 1) (int_of_size buf.len)
  argcheckindex 4 last first (int_of_size buf.len)
  store_bytes buf first 0 (replicate (to_size (span first last)) (low_byte (to_uint byte)))

unfoldable pub buffer_to_string : Buffer → Option ℤ → Option ℤ → Call Heap (List ℕ)
unfolding load_bytes
buffer_to_string buf first? last? = do
  let first = opt first? (pos 1)
  let last = opt last? (int_of_size buf.len)
  argcheckindex 2 first (pos 1) (int_of_size buf.len)
  argcheckindex 3 last first (int_of_size buf.len)
  load_bytes buf first 0 (to_size (span first last))

abbrev pub min_ℤ : ℤ → ℤ → ℤ
min_ℤ a b = if ltb_ℤ b a then b else a

-- `memmove`: all bytes are read before the first is written.
unfoldable pub memmove : Buffer → ℤ → Buffer → ℤ → ℕ → Call Heap (Unit {0})
unfolding load_bytes store_bytes
memmove target to source from n = do xs ← load_bytes source from 0 n; store_bytes target to 0 xs

unfoldable pub buffer_copy : Buffer → Buffer → Option ℤ → Option ℤ → Option ℤ → Call Heap ℤ
unfolding memmove
buffer_copy buf target target_first? source_first? source_last? = do
  let target_first = opt target_first? (pos 1)
  let source_first = opt source_first? (pos 1)
  let source_last = opt source_last? (int_of_size buf.len)
  argcheckindex 3 target_first (pos 1) (int_of_size target.len)
  argcheckindex 4 source_first (pos 1) (int_of_size buf.len)
  argcheckindex 5 source_last source_first (int_of_size buf.len)
  let count =
      min_ℤ (span source_first source_last) (int_of_size target.len -ℤ target_first +ℤ pos 1)
  if ltb_ℤ (pos 0) count
      then memmove target target_first buf source_first (to_size count)
      else ok tt
  pure count

-- The default length is the `size_t` `buf->buf.len - position + 1`, narrowed to `int`. The bytes
-- of a Lua string are no block of this heap.
unfoldable pub buffer_write : Buffer → List ℕ → Option ℤ → Option ℤ → Call Heap ℤ
unfolding store_bytes
buffer_write buf str position? length? = do
  let position = opt position? (pos 1)
  let wanted = opt length? (to_int (pos buf.len -ℤ position +ℤ pos 1))
  argcheckindex 3 position (pos 1) (int_of_size buf.len)
  argcheckindex 4 wanted (pos 0) (int_of_size buf.len -ℤ position +ℤ pos 1)
  let count = min_ℤ wanted (int_of_size (length str))
  if ltb_ℤ (pos 0) count then store_bytes buf position 0 (take (to_size count) str) else ok tt
  pure count

unfoldable pub buffer_gc : Buffer → Call Heap (Unit {0})
unfolding mem_release
buffer_gc buf = if buf.orig == null then ok tt else mem_release buf.orig
