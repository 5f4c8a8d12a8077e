-- ===== src/Buffer/Tests.antt =====
-- A buffer of eight bytes, and the theorems of the `Buffer` class at it.
mod Ranges
use couv.Prelude.{ℕ, ◌+◌, ◌*◌, ◌≡◌, refl, inr, some, none, [], ◌∷◌, arith, ◌==◌, if◌then◌else◌}
use couv.Prelude.Int.{ℤ, pos, negsuc, ◌+ℤ◌, ◌-ℤ◌}
use couv.Prelude.CInt.{signed32}
use couv.Lua.{ok, raised, arg_error}
use couv.Buffer.Mem.{BufMem, Heap}
use couv.Buffer.Access.{Buffer}
use couv.Buffer.Valid.{IsValid, byte_at}
use couv.Buffer.Read.{
  read_uint8, read_uint16le, read_uint16be, read_uint32le, read_uint32be, read_int8, read_int16le,
  read_int16be, read_int32le, read_int32be, signed8,
}
use couv.Buffer.Write.{
  write_uint8, write_uint16le, write_uint16be, write_uint32le, write_uint32be, write_int8,
  write_int16le, write_int16be, write_int32le, write_int32be,
}
use couv.Buffer.Decode.{checked, signed16, unsigned_reads, signed_reads}
use couv.Buffer.ReadsBack.{ReadsBack}
use couv.Buffer.RoundTrip.{
  uint8_round_trip, uint16_round_trip, uint32_round_trip, int8_round_trip, int16_round_trip,
  int32_round_trip,
}
use couv.Buffer.Codec.{Unsigned, Signed, Integer}
use couv.Buffer.Codec.RoundTrip.{unsigned_round_trip, signed_round_trip}
use couv.Buffer.Codec.Reads.{integers_are_read}
use couv.Buffer.Codec.Frame.{integers-Keeps}
use couv.Buffer.Frame.{Keeps, frame8, frame16, frame32}

abbrev block : BufMem
block = record { ref_cnt = 1; mem = 1 ∷ 2 ∷ 3 ∷ 0x84 ∷ 0xFF ∷ 6 ∷ 7 ∷ 8 ∷ [] }

abbrev heap : Heap
heap q = if q == 9 then some block else none

-- All of the block but its first byte.
abbrev buf : Buffer
buf = record { orig = 9; base = 1; len = 7 }

buf-IsValid : IsValid heap buf
buf-IsValid = record { block = block; holds = refl; fits = omega arith; bytes = omega arith }

abbrev at : ℤ → ℕ → ℕ
at = byte_at heap buf

reads_in_order : read_int32le buf (pos 2) heap ≡ ok (pos 0x6FF8403) heap
unfolding read_int32le ◌+ℤ◌ ◌-ℤ◌
reads_in_order = refl

reads_out_of_range : read_uint16be buf (pos 7) heap ≡ raised (arg_error 2 "index out of range") heap
unfolding read_uint16be ◌+ℤ◌ ◌-ℤ◌
reads_out_of_range = refl

integers_are_read_example :
    (read_uint32be buf (pos 3) heap ≡ checked buf (pos 3) 4 heap 0x84FF0607)
    × (read_int16le buf (pos 3) heap ≡ checked buf (pos 3) 2 heap (negsuc 123))
integers_are_read_example =
    integers_are_read buf-IsValid (omega arith) (pos 3) Unsigned.uint32be Signed.int16le

unsigned_round_trip_example :
    ReadsBack (write_uint16be buf (pos 4) (pos 0x12345)) (read_uint16be buf (pos 4)) heap 0x2345
unsigned_round_trip_example =
    unsigned_round_trip buf-IsValid (omega arith) (pos 4) Unsigned.uint16be (pos 0x12345) refl

signed_round_trip_example :
    ReadsBack
      (write_int32le buf (pos 4) (negsuc 0x7FFFFFFF))
      (read_int32le buf (pos 4))
      heap
      (negsuc 0x7FFFFFFF)
signed_round_trip_example =
    signed_round_trip buf-IsValid (omega arith) (pos 4) Signed.int32le (negsuc 0x7FFFFFFF) refl
      (omega arith) (omega arith)

integers-Keeps_example : Keeps heap 9 6 (write_uint16le buf (pos 4) (pos 0x12345) heap)
integers-Keeps_example =
    integers-Keeps buf-IsValid (omega arith) (pos 4) (pos 0x12345) 9 6
      (Integer.unsigned Unsigned.uint16le) (inr refl)
