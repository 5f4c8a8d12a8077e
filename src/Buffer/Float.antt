-- ===== src/Buffer/Float.antt =====
-- The methods of src/buffer.c that read or write a `float` or a `double`. A number is the list of
-- the bytes that hold it on the host; converting it from and to a Lua number is C's.
pub mod Turn
pub mod RoundTrip
use couv.Prelude.{ℕ, zero, suc, List, [], ◌∷◌, length, get_or}
use couv.Prelude.Int.{ℤ, pos, ◌-ℤ◌}
use couv.Prelude.CInt.{int_of_size}
use couv.Lua.{Call, pure, ◌>>=◌, ◌>>◌}
use couv.Buffer.Mem.{Heap}
use couv.Buffer.Access.{Buffer, argcheckindex, load_bytes, store_bytes}

-- `__BYTE_ORDER` of the host.
pub data ByteOrder : Type 0 where
  little big : ByteOrder

-- `*dst++ = *src++`, `length` times.
abbrev pub forward : List ℕ → List ℕ
forward [] = []
forward (x ∷ src) = x ∷ forward src

-- `*dst++ = *src--` from the last of `n` bytes on.
abbrev pub backward : List ℕ → ℕ → List ℕ
backward src zero = []
backward src (suc n) = get_or src n 0 ∷ backward src n

unfoldable pub memcpy_le : ByteOrder → List ℕ → List ℕ
memcpy_le ByteOrder.little src = forward src
memcpy_le ByteOrder.big src = backward src (length src)

unfoldable pub memcpy_be : ByteOrder → List ℕ → List ℕ
memcpy_be ByteOrder.little src = backward src (length src)
memcpy_be ByteOrder.big src = forward src

module _ (host : ByteOrder) where
  pub read_float_le : Buffer → ℤ → Call Heap (List ℕ)
  read_float_le buf position = do
    argcheckindex 2 position (pos 1) (int_of_size buf.len -ℤ pos 3)
    src ← load_bytes buf position 0 4
    pure (memcpy_le host src)

  pub read_float_be : Buffer → ℤ → Call Heap (List ℕ)
  read_float_be buf position = do
    argcheckindex 2 position (pos 1) (int_of_size buf.len -ℤ pos 3)
    src ← load_bytes buf position 0 4
    pure (memcpy_be host src)

  pub read_double_le : Buffer → ℤ → Call Heap (List ℕ)
  read_double_le buf position = do
    argcheckindex 2 position (pos 1) (int_of_size buf.len -ℤ pos 7)
    src ← load_bytes buf position 0 8
    pure (memcpy_le host src)

  pub read_double_be : Buffer → ℤ → Call Heap (List ℕ)
  read_double_be buf position = do
    argcheckindex 2 position (pos 1) (int_of_size buf.len -ℤ pos 7)
    src ← load_bytes buf position 0 8
    pure (memcpy_be host src)

  pub write_float_le : Buffer → ℤ → List ℕ → Call Heap (Unit {0})
  write_float_le buf position value = do
    argcheckindex 2 position (pos 1) (int_of_size buf.len -ℤ pos 3)
    store_bytes buf position 0 (memcpy_le host value)

  pub write_float_be : Buffer → ℤ → List ℕ → Call Heap (Unit {0})
  write_float_be buf position value = do
    argcheckindex 2 position (pos 1) (int_of_size buf.len -ℤ pos 3)
    store_bytes buf position 0 (memcpy_be host value)

  pub write_double_le : Buffer → ℤ → List ℕ → Call Heap (Unit {0})
  write_double_le buf position value = do
    argcheckindex 2 position (pos 1) (int_of_size buf.len -ℤ pos 7)
    store_bytes buf position 0 (memcpy_le host value)

  pub write_double_be : Buffer → ℤ → List ℕ → Call Heap (Unit {0})
  write_double_be buf position value = do
    argcheckindex 2 position (pos 1) (int_of_size buf.len -ℤ pos 7)
    store_bytes buf position 0 (memcpy_be host value)
