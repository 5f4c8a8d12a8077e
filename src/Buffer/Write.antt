-- ===== src/Buffer/Write.antt =====
-- The methods of src/buffer.c that write an integer.
use couv.Prelude.{ℕ, List, [], ◌∷◌, if◌then◌else◌}
use couv.Prelude.Int.{ℤ, pos, ◌+ℤ◌, ◌-ℤ◌, ltb_ℤ}
use couv.Prelude.CInt.{to_uint, to_int, int_of_size, shr, low_byte}
use couv.Lua.{Call, ◌>>◌}
use couv.Buffer.Mem.{Heap}
use couv.Buffer.Access.{Buffer, argcheckindex, store_bytes}

unfoldable pub write_uint8 : Buffer → ℤ → ℤ → Call Heap (Unit {0})
unfolding store_bytes
write_uint8 buf position byte = do
  argcheckindex 2 position (pos 1) (int_of_size buf.len)
  store_bytes buf position 0 (low_byte (to_uint byte) ∷ [])

-- The bytes of an `unsigned int` in the order in which they are written. What `value >> 8` has
-- above a byte is lost in the store.
abbrev pub le_bytes16 : ℕ → List ℕ
le_bytes16 value = low_byte value ∷ low_byte (shr value 8) ∷ []

abbrev pub be_bytes16 : ℕ → List ℕ
be_bytes16 value = low_byte (shr value 8) ∷ low_byte value ∷ []

abbrev pub le_bytes32 : ℕ → List ℕ
le_bytes32 value =
    low_byte value ∷ low_byte (shr value 8) ∷ low_byte (shr value 16) ∷ low_byte (shr value 24) ∷ []

abbrev pub be_bytes32 : ℕ → List ℕ
be_bytes32 value =
    low_byte (shr value 24) ∷ low_byte (shr value 16) ∷ low_byte (shr value 8) ∷ low_byte value ∷ []

unfoldable pub write_uint16le : Buffer → ℤ → ℤ → Call Heap (Unit {0})
unfolding store_bytes
write_uint16le buf position value = do
  argcheckindex 2 position (pos 1) (int_of_size buf.len -ℤ pos 1)
  store_bytes buf position 0 (le_bytes16 (to_uint value))

unfoldable pub write_uint16be : Buffer → ℤ → ℤ → Call Heap (Unit {0})
unfolding store_bytes
write_uint16be buf position value = do
  argcheckindex 2 position (pos 1) (int_of_size buf.len -ℤ pos 1)
  store_bytes buf position 0 (be_bytes16 (to_uint value))

unfoldable pub write_uint32le : Buffer → ℤ → ℤ → Call Heap (Unit {0})
unfolding store_bytes
write_uint32le buf position value = do
  argcheckindex 2 position (pos 1) (int_of_size buf.len -ℤ pos 3)
  store_bytes buf position 0 (le_bytes32 (to_uint value))

unfoldable pub write_uint32be : Buffer → ℤ → ℤ → Call Heap (Unit {0})
unfolding store_bytes
write_uint32be buf position value = do
  argcheckindex 2 position (pos 1) (int_of_size buf.len -ℤ pos 3)
  store_bytes buf position 0 (be_bytes32 (to_uint value))

unfoldable pub write_int8 : Buffer → ℤ → ℤ → Call Heap (Unit {0})
unfolding store_bytes
write_int8 buf position byte = do
  argcheckindex 2 position (pos 1) (int_of_size buf.len)
  store_bytes buf position 0 (low_byte (to_uint byte) ∷ [])

-- `int value = luaL_checkinteger(L, 3); unsigned int uvalue = value < 0 ? m + value : value;`
abbrev pub uvalue : ℕ → ℤ → ℕ
uvalue m value = let v = to_int value in to_uint (if ltb_ℤ v (pos 0) then pos m +ℤ v else v)

unfoldable pub write_int16le : Buffer → ℤ → ℤ → Call Heap (Unit {0})
unfolding store_bytes ◌+ℤ◌
write_int16le buf position value = do
  argcheckindex 2 position (pos 1) (int_of_size buf.len -ℤ pos 1)
  store_bytes buf position 0 (le_bytes16 (uvalue 0x10000 value))

unfoldable pub write_int16be : Buffer → ℤ → ℤ → Call Heap (Unit {0})
unfolding store_bytes ◌+ℤ◌
write_int16be buf position value = do
  argcheckindex 2 position (pos 1) (int_of_size buf.len -ℤ pos 1)
  store_bytes buf position 0 (be_bytes16 (uvalue 0x10000 value))

unfoldable pub write_int32le : Buffer → ℤ → ℤ → Call Heap (Unit {0})
unfolding store_bytes ◌+ℤ◌
write_int32le buf position value = do
  argcheckindex 2 position (pos 1) (int_of_size buf.len -ℤ pos 3)
  store_bytes buf position 0 (le_bytes32 (uvalue 0x100000000 value))

unfoldable pub write_int32be : Buffer → ℤ → ℤ → Call Heap (Unit {0})
unfolding store_bytes ◌+ℤ◌
write_int32be buf position value = do
  argcheckindex 2 position (pos 1) (int_of_size buf.len -ℤ pos 3)
  store_bytes buf position 0 (be_bytes32 (uvalue 0x100000000 value))
