-- ===== src/Buffer/Owners.antt =====
-- A Lua program at the `Buffer` class of src/buffer.c: the buffers that are alive, each of which
-- owns one count of its block, and the calls that the program and the garbage collector make.
pub mod Shape
pub mod Counts
pub mod Access
pub mod Changes
pub mod Steps
pub mod Safe
use couv.Prelude.{ℕ, zero, suc, Option, none, some, List, [], ◌∷◌, get_elem?, length}
use couv.Prelude.Int.{ℤ, pos}
use couv.Lua.{Call, Run, ok, raised, fault, and_then, lua_error, ◌>>=◌}
use couv.Buffer.Mem.{Malloc, Heap}
use couv.Buffer.Access.{Buffer}
use couv.Buffer.Read
use couv.Buffer.Write
use couv.Buffer.Range.{
  buffer_slice, buffer_fill, buffer_to_string, buffer_copy, buffer_write, buffer_gc,
}
pub use couv.Buffer.New.{World, lift}
use couv.Buffer.New.{NewArg, buffer_new}

-- The methods that read or write one integer.
pub data Method : Type 0 where
  read_uint8 read_uint16le read_uint16be read_uint32le read_uint32be : Method
  read_int8 read_int16le read_int16be read_int32le read_int32be : Method
  write_uint8 write_uint16le write_uint16be write_uint32le write_uint32be : Method
  write_int8 write_int16le write_int16be write_int32le write_int32be : Method

-- A call, its buffers given by their places among those that are alive. `call_gc` is a call of
-- `buf:__gc()` by the program, which finds it in the metatable, and `collect` that of the collector,
-- after which the buffer is gone.
pub data Op : Type 0 where
  create : NewArg → Op
  integer : Method → (i : ℕ) → (position value : ℤ) → Op
  slice : (i : ℕ) → (first last : Option ℤ) → Op
  fill : (i : ℕ) → ℤ → (first last : Option ℤ) → Op
  to_string : (i : ℕ) → (first last : Option ℤ) → Op
  copy : (i j : ℕ) → (target_first source_first source_last : Option ℤ) → Op
  put : (i : ℕ) → List ℕ → (position length : Option ℤ) → Op
  call_gc : (i : ℕ) → Op
  collect : (i : ℕ) → Op

abbrev pub discard : {A : Type 0} → Call Heap A → Call Heap (Unit {0})
discard m = m >>= λ _. ok tt

unfoldable pub call_integer : Method → Buffer → ℤ → ℤ → Call Heap (Unit {0})
call_integer Method.read_uint8 b p v = discard (Read.read_uint8 b p)
call_integer Method.read_uint16le b p v = discard (Read.read_uint16le b p)
call_integer Method.read_uint16be b p v = discard (Read.read_uint16be b p)
call_integer Method.read_uint32le b p v = discard (Read.read_uint32le b p)
call_integer Method.read_uint32be b p v = discard (Read.read_uint32be b p)
call_integer Method.read_int8 b p v = discard (Read.read_int8 b p)
call_integer Method.read_int16le b p v = discard (Read.read_int16le b p)
call_integer Method.read_int16be b p v = discard (Read.read_int16be b p)
call_integer Method.read_int32le b p v = discard (Read.read_int32le b p)
call_integer Method.read_int32be b p v = discard (Read.read_int32be b p)
call_integer Method.write_uint8 b p v = Write.write_uint8 b p v
call_integer Method.write_uint16le b p v = Write.write_uint16le b p v
call_integer Method.write_uint16be b p v = Write.write_uint16be b p v
call_integer Method.write_uint32le b p v = Write.write_uint32le b p v
call_integer Method.write_uint32be b p v = Write.write_uint32be b p v
call_integer Method.write_int8 b p v = Write.write_int8 b p v
call_integer Method.write_int16le b p v = Write.write_int16le b p v
call_integer Method.write_int16be b p v = Write.write_int16be b p v
call_integer Method.write_int32le b p v = Write.write_int32le b p v
call_integer Method.write_int32be b p v = Write.write_int32be b p v

abbrev pub remove_at {ℓ} : {A : Type ℓ} → List A → ℕ → List A
remove_at [] i = []
remove_at (x ∷ xs) zero = xs
remove_at (x ∷ xs) (suc i) = x ∷ remove_at xs i

-- A call of a method needs a buffer; there is none at other places.
abbrev pub with_buffer : World → ℕ → (Buffer → Run World (Unit {0})) → Run World (Unit {0})
with_buffer w i k = elim (get_elem? w.live i) [
  | none ↦ raised (lua_error "no such buffer") w
  | some b ↦ k b
]

-- The program goes on after an error.
abbrev pub pcall : Run World (Unit {0}) → Call World (Unit {0}) → Run World (Unit {0})
pcall (ok _ w) k = k w
pcall (raised _ w) k = k w
pcall fault k = fault

-- What malloc answers, and what the memory of a new userdata holds.
module _ (malloc : Heap → Malloc) (raw : World → Buffer) where
  unfoldable pub step : Op → Call World (Unit {0})
  step (Op.create arg) w = buffer_new (malloc w.heap) (raw w) arg w
  step (Op.integer m i p v) w =
      with_buffer w i λ b. lift w.live (λ _. w.live) (call_integer m b p v w.heap)
  step (Op.slice i f l) w =
      with_buffer w i λ b. lift w.live (λ s. s ∷ w.live) (buffer_slice b f l w.heap)
  step (Op.fill i v f l) w =
      with_buffer w i λ b. lift w.live (λ _. w.live) (buffer_fill b v f l w.heap)
  step (Op.to_string i f l) w =
      with_buffer w i λ b. lift w.live (λ _. w.live) (buffer_to_string b f l w.heap)
  step (Op.copy i j tf sf sl) w =
      with_buffer w i
        λ b. with_buffer w j λ t. lift w.live (λ _. w.live) (buffer_copy b t tf sf sl w.heap)
  step (Op.put i str p l) w =
      with_buffer w i λ b. lift w.live (λ _. w.live) (buffer_write b str p l w.heap)
  step (Op.call_gc i) w = with_buffer w i λ b. lift w.live (λ _. w.live) (buffer_gc b w.heap)
  step (Op.collect i) w =
      with_buffer w i λ b. lift w.live (λ _. remove_at w.live i) (buffer_gc b w.heap)

  unfoldable pub run : List Op → Call World (Unit {0})
  run [] w = ok tt w
  run (o ∷ os) w = pcall (step o w) (run os)
