-- ===== src/Buffer/Tests/Ranges.antt =====
-- Two buffers over a block of eight bytes, and the theorems on ranges, floats, `new`, `concat` and
-- the reference counts at them.
use couv.Prelude.{
  true, ℕ, ◌≡◌, ◌≢◌, ◌⊎◌, refl, inl, inr, Option, none, some, List, [], ◌∷◌, arith, ◌==◌,
  if◌then◌else◌,
}
use couv.Prelude.Int.{pos, ◌+ℤ◌, ◌-ℤ◌}
use couv.Lua.{ok, fault}
use couv.Buffer.Mem.{mem_retain, BufMem, Malloc, Heap, Ptr, write}
use couv.Buffer.Access.{Buffer, store, load}
use couv.Buffer.Valid.{IsValid}
use couv.Buffer.Read.{read_uint8, read_uint32le}
use couv.Buffer.Write.{write_uint8, write_uint16le}
use couv.Buffer.ReadsBack.{ReadsBack}
use couv.Buffer.Range.{buffer_gc, buffer_slice, buffer_copy}
use couv.Buffer.Range.Copy.{copy_lem}
use couv.Buffer.Range.Slice.{slice_lem, slice_alias}
use couv.Buffer.Float.{ByteOrder, write_double_be, read_double_be}
use couv.Buffer.Codec.{Real}
use couv.Buffer.Codec.RoundTrip.{real_round_trip}
use couv.Buffer.New.{NewArg, whole, buffer_new, new_block}
use couv.Buffer.New.Fresh.{fresh_block, string_block}
use couv.Buffer.Concat.{Source, Value, buffer_concat}
use couv.Buffer.Concat.Joined.{concat_all, concat_total}
use couv.Buffer.Owners.{call_integer, step, Op, Method, World, run}
use couv.Buffer.Owners.Steps.{IsMalloc}
use couv.Buffer.Owners.Counts.{IsOwned}
use couv.Buffer.Owners.Safe.{AllServed, start, programs_are_safe, no_leak, start-IsOwned}

abbrev block : BufMem
block = record { ref_cnt = 1; mem = 1 ∷ 2 ∷ 3 ∷ 4 ∷ 5 ∷ 6 ∷ 7 ∷ 8 ∷ [] }

abbrev heap : Heap
heap q = if q == 9 then some block else none

abbrev buf : Buffer
buf = record { orig = 9; base = 0; len = 8 }

abbrev buf-IsValid : IsValid heap buf
buf-IsValid = record { block = block; holds = refl; fits = omega arith; bytes = omega arith }

abbrev after : List ℕ → Heap
after mem = write heap 9 (some (record { ref_cnt = 1; mem = mem }))

-- An overlapping copy within one buffer.
copy_lem_example :
    buffer_copy buf buf (some (pos 3)) (some (pos 1)) (some (pos 5)) heap
    ≡ ok (pos 5) (after (1 ∷ 2 ∷ 1 ∷ 2 ∷ 3 ∷ 4 ∷ 5 ∷ 8 ∷ []))
unfolding ◌+ℤ◌ ◌-ℤ◌
copy_lem_example =
    copy_lem buf-IsValid buf-IsValid (omega arith) (omega arith) (some (pos 3)) (some (pos 1))
      (some (pos 5))

slice_lem_example :
    buffer_slice buf (some (pos 3)) (some (pos 5)) heap
    ≡ ok
        (record { orig = 9; base = 2; len = 3 })
        (write heap 9 (some (record block { ref_cnt = 2 })))
unfolding ◌+ℤ◌ ◌-ℤ◌
slice_lem_example = slice_lem buf-IsValid (omega arith) (omega arith) (some (pos 3)) (some (pos 5))

slice_alias_example :
    (s : Buffer) × (h' : Heap) × (buffer_slice buf (some (pos 3)) (some (pos 5)) heap ≡ ok s h')
    × (read_uint8 s (pos 2) h' ≡ read_uint8 buf (pos 4) h')
    × (write_uint8 s (pos 2) (pos 77) h' ≡ write_uint8 buf (pos 4) (pos 77) h')
slice_alias_example =
    slice_alias buf-IsValid 2 5 1 (pos 77) (omega arith) (omega arith) (omega arith) (omega arith)

abbrev eight : List ℕ
eight = 0x40 ∷ 0x09 ∷ 0x21 ∷ 0xFB ∷ 0x54 ∷ 0x44 ∷ 0x2D ∷ 0x18 ∷ []

real_round_trip_example :
    ReadsBack
      (write_double_be ByteOrder.little buf (pos 1) eight)
      (read_double_be ByteOrder.little buf (pos 1))
      heap
      eight
real_round_trip_example =
    real_round_trip buf-IsValid (omega arith) (pos 1) ByteOrder.little Real.double_be eight
      (omega arith) refl refl

abbrev at_five : Malloc
at_five = record { ptr = 5; content = λ _. 0xAA }

five_is_real : at_five.ptr ≢ 0
five_is_real = omega arith

concat_all_example :
    buffer_concat at_five true (Value.string (72 ∷ 105 ∷ []) ∷ Value.buffer buf ∷ []) none heap
    ≡ ok
        (whole 5 10)
        (write heap 5 (some (string_block (72 ∷ 105 ∷ 1 ∷ 2 ∷ 3 ∷ 4 ∷ 5 ∷ 6 ∷ 7 ∷ 8 ∷ []))))
concat_all_example =
    concat_all at_five heap (Source.text (72 ∷ 105 ∷ []) ∷ Source.bytes buf ∷ []) five_is_real
      (
        (omega arith, omega arith),
        ((buf-IsValid, omega arith, (λ e. omega arith), (λ e. omega arith)), tt),
      )
      (omega arith)

concat_total_example :
    buffer_concat at_five true
      (Value.string (72 ∷ 105 ∷ []) ∷ Value.buffer buf ∷ [])
      (some (pos 4))
      heap
    ≡ ok (whole 5 4) (write heap 5 (some (string_block (72 ∷ 105 ∷ 1 ∷ 2 ∷ []))))
concat_total_example =
    concat_total at_five heap (Source.text (72 ∷ 105 ∷ []) ∷ Source.bytes buf ∷ []) five_is_real
      (
        (omega arith, omega arith),
        ((buf-IsValid, omega arith, (λ e. omega arith), (λ e. omega arith)), tt),
      )
      3 (omega arith)

-- Each address is used once.
abbrev address : Option BufMem → Option BufMem → Ptr
address none d = 1
address (some c) none = 2
address (some c) (some d) = 0

abbrev malloc : Heap → Malloc
malloc h = record { ptr = address (h 1) (h 2); content = λ _. 0 }

malloc-IsMalloc : IsMalloc malloc
malloc-IsMalloc h = go (h 1) (h 2) refl refl
  where
    go : (c d : Option BufMem) → h 1 ≡ c → h 2 ≡ d → (address c d ≡ 0) ⊎ (h (address c d) ≡ none)
    go none d e f = inr e
    go (some c) none e f = inr f
    go (some c) (some d) e f = inl refl

-- A string, a slice of it that is written to, and both are collected.
abbrev program : List Op
program =
    Op.create (NewArg.string (1 ∷ 2 ∷ 3 ∷ []))
    ∷ Op.slice 0 (some (pos 2)) none
    ∷ Op.integer Method.write_uint16le 0 (pos 1) (pos 0x4241)
    ∷ Op.integer Method.read_uint32le 1 (pos 1) (pos 0)
    ∷ Op.collect 1
    ∷ Op.collect 0
    ∷ []

abbrev raw : World → Buffer
raw w = record { orig = 77; base = 0; len = 0 }

programs_are_safe_example :
    (w' : World) × (run malloc raw program start ≡ ok tt w') × IsOwned w'.heap w'.live
unfolding run step buffer_new new_block store load ◌+ℤ◌ ◌-ℤ◌ buffer_gc buffer_slice mem_retain
    call_integer write_uint16le read_uint32le
programs_are_safe_example =
    programs_are_safe malloc raw malloc-IsMalloc program start
      ((omega arith, omega arith), (tt, (tt, (tt, (tt, (tt, tt)))))) served start-IsOwned
      (omega arith)
  where
    served : AllServed malloc raw program start
    served = ((λ e. absurd (omega arith)), (tt, (tt, (tt, (tt, (tt, tt))))))

abbrev short_program : List Op
short_program = Op.create (NewArg.string (7 ∷ [])) ∷ Op.collect 0 ∷ []

abbrev short_end : World
short_end = record {
  heap =
      write
        (write (write start.heap 1 (some (fresh_block (malloc start.heap) 1))) 1
          (some (string_block (7 ∷ []))))
        1 none;
  live = [];
}

no_leak_example : short_end.heap 1 ≡ none
unfolding run step buffer_new new_block store ◌+ℤ◌ ◌-ℤ◌ buffer_gc
no_leak_example =
    no_leak malloc raw malloc-IsMalloc short_program short_end
      ((omega arith, omega arith), (tt, tt)) served (omega arith) ends refl 1
  where
    served : AllServed malloc raw short_program start
    served = ((λ e. absurd (omega arith)), (tt, tt))

    ends : run malloc raw short_program start ≡ ok tt short_end
    ends = refl

-- Where malloc fails, the userdata that `Buffer.new` leaves is a fault when it is collected, unless
-- its memory happens to hold NULL.
abbrev failing : Heap → Malloc
failing h = record { ptr = 0; content = λ _. 0 }

failed_new_faults :
    run failing raw (Op.create (NewArg.number (pos 4)) ∷ Op.collect 0 ∷ []) start ≡ fault
unfolding run step buffer_new new_block ◌+ℤ◌ ◌-ℤ◌ buffer_gc
failed_new_faults = refl

-- A program that calls `__gc` itself has the block freed under a buffer that is alive.
called_gc_faults :
    run malloc raw (Op.create (NewArg.string (7 ∷ [])) ∷ Op.call_gc 0 ∷ Op.collect 0 ∷ []) start
    ≡ fault
unfolding run step buffer_new new_block store ◌+ℤ◌ ◌-ℤ◌ buffer_gc
called_gc_faults = refl
