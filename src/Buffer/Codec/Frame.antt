-- ===== src/Buffer/Codec/Frame.antt =====
-- What the integer writers of src/buffer.c leave alone, in each format.
use couv.Prelude.{ℕ, ◌≤◌, ◌≡◌, ◌≢◌, ◌⊎◌, true}
use couv.Prelude.Bytes.{outside}
use couv.Prelude.Int.{ℤ}
use couv.Prelude.CInt.{int_max}
use couv.Buffer.Mem.{Heap, Ptr}
use couv.Buffer.Access.{Buffer}
use couv.Buffer.Valid.{IsValid, offset}
use couv.Buffer.Frame.{Keeps, frame8, frame16, frame32}
use couv.Buffer.Codec.{Unsigned, Signed, Integer, integer_size, write_integer}

module _ {h : Heap} {b : Buffer} (v : IsValid h b) (small : b.len ≤ int_max) (position : ℤ) where
  module _ (value : ℤ) (q : Ptr) (j : ℕ) where
    -- In a sound buffer whose length is an `int`, none of the ten integer writers faults, at any
    -- position and for any value: it raises and leaves the heap as it is, or it keeps each byte of
    -- the heap that is not among those of its format at the position.
    pub integers-Keeps :
        (c : Integer)
        → (q ≢ b.orig) ⊎ (outside (offset b position 0) (integer_size c) j ≡ true)
        → Keeps h q j (write_integer c b position value h)
    integers-Keeps (Integer.unsigned Unsigned.uint8) apart =
        (frame8 v small position value q j apart).0
    integers-Keeps (Integer.unsigned Unsigned.uint16le) apart =
        (frame16 v small position value q j apart).0
    integers-Keeps (Integer.unsigned Unsigned.uint16be) apart =
        (frame16 v small position value q j apart).1
    integers-Keeps (Integer.unsigned Unsigned.uint32le) apart =
        (frame32 v small position value q j apart).0
    integers-Keeps (Integer.unsigned Unsigned.uint32be) apart =
        (frame32 v small position value q j apart).1
    integers-Keeps (Integer.signed Signed.int8) apart = (frame8 v small position value q j apart).1
    integers-Keeps (Integer.signed Signed.int16le) apart =
        (frame16 v small position value q j apart).2
    integers-Keeps (Integer.signed Signed.int16be) apart =
        (frame16 v small position value q j apart).3
    integers-Keeps (Integer.signed Signed.int32le) apart =
        (frame32 v small position value q j apart).2
    integers-Keeps (Integer.signed Signed.int32be) apart =
        (frame32 v small position value q j apart).3
