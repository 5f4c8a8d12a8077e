-- ===== src/Buffer/Frame.antt =====
-- What the integer writers of src/buffer.c leave alone.
use couv.Prelude.{
  ℕ, true, ◌≤◌, ◌≡◌, ◌≢◌, refl, ◌⊎◌, inl, inr, List, some, length, get_or, Bool-cases,
}
use native.Mathlib.Decide.{ℕ_discrete}
use couv.Prelude.Bytes.{get_or-blit-outside, outside}
use couv.Prelude.Int.{ℤ}
use couv.Prelude.CInt.{int_max, to_uint}
use couv.Lua.{Run, ok, raised, fault}
use couv.Buffer.Mem.{Ptr, Heap, write_same, write_other}
use couv.Buffer.Access.{Buffer}
use couv.Buffer.Valid.{IsValid, fits_at, offset, mem_of}
use couv.Buffer.Write.{
  write_uint8, write_uint16le, write_uint16be, write_uint32le, write_uint32be, write_int8,
  write_int16le, write_int16be, write_int32le, write_int32be, uvalue, le_bytes16, be_bytes16,
  le_bytes32, be_bytes32,
}
use couv.Buffer.Encode.{
  overwrite, blitted, written, byte, write_uint8_lem, write_int8_lem, write_uint16le_lem,
  write_uint16be_lem, write_uint32le_lem, write_uint32be_lem, write_int16le_lem, write_int16be_lem,
  write_int32le_lem, write_int32be_lem,
}

-- A byte of the heap; what is not allocated reads as 0.
abbrev pub peek : Heap → Ptr → ℕ → ℕ
peek h q j = get_or (mem_of (h q)) j 0

-- A run that faults nowhere, leaves the heap if it raises, and keeps one byte if it returns.
abbrev pub Keeps : {A : Type 0} → Heap → Ptr → ℕ → Run Heap A → Type 0
Keeps h q j (ok _ h') = peek h' q j ≡ peek h q j
Keeps h q j (raised _ h') = h' ≡ h
Keeps h q j fault = ⊥

peek-overwrite :
    {h : Heap} {b : Buffer} (v : IsValid h b) (position : ℤ) (xs : List ℕ) (q : Ptr) (j : ℕ)
    → (q ≢ b.orig) ⊎ (outside (offset b position 0) (length xs) j ≡ true)
    → peek (overwrite h b v.block position 0 xs) q j ≡ peek h q j
peek-overwrite {h} {b} v position xs q j (inl ne) =
    rw (write_other h b.orig q (some (blitted v.block b position 0 xs)) ne)
peek-overwrite {h} {b} v position xs q j (inr out) = elim (ℕ_discrete q b.orig) [
  | no ne ↦ rw (write_other h b.orig q (some (blitted v.block b position 0 xs)) ne)
  | yes e ↦
      rw (e, write_same h b.orig b.orig (some (blitted v.block b position 0 xs)) refl, v.holds)
        (get_or-blit-outside v.block.mem (offset b position 0) xs j out)
]

keeps :
    {h : Heap} {b : Buffer} (v : IsValid h b) (position : ℤ) (xs : List ℕ) (q : Ptr) (j : ℕ)
    (r : Run Heap (Unit {0}))
    → r ≡ written h b v.block position xs
    → (q ≢ b.orig) ⊎ (outside (offset b position 0) (length xs) j ≡ true)
    → Keeps h q j r
keeps {h} {b} v position xs q j r e apart =
    rw e (elim (Bool-cases (fits_at b position (length xs))) [
      | inl f ↦ rw f (peek-overwrite v position xs q j apart)
      | inr f ↦ rw f refl
    ])

module _ {h : Heap} {b : Buffer} (v : IsValid h b) (small : b.len ≤ int_max) (position value : ℤ)
    (q : Ptr) (j : ℕ) where
  -- In a sound buffer whose length is an `int`, the 8-bit writers fault at no position and for
  -- no value: they raise and leave the heap, or keep each byte of the heap that is not among the
  -- one byte at the position.
  pub frame8 :
      (q ≢ b.orig) ⊎ (outside (offset b position 0) 1 j ≡ true)
      → Keeps h q j (write_uint8 b position value h) × Keeps h q j (write_int8 b position value h)
  frame8 apart = (
    keeps v position (byte (to_uint value)) q j _ (write_uint8_lem v small position value) apart,
    keeps v position (byte (to_uint value)) q j _ (write_int8_lem v small position value) apart,
  )

  -- In a sound buffer whose length is an `int`, the 16-bit writers fault at no position and for
  -- no value: they raise and leave the heap, or keep each byte of the heap that is not among the
  -- two bytes at the position.
  pub frame16 :
      (q ≢ b.orig) ⊎ (outside (offset b position 0) 2 j ≡ true)
      → Keeps h q j (write_uint16le b position value h)
        × Keeps h q j (write_uint16be b position value h)
        × Keeps h q j (write_int16le b position value h)
        × Keeps h q j (write_int16be b position value h)
  frame16 apart = (
    keeps v position (le_bytes16 (to_uint value)) q j _ (write_uint16le_lem v small position value)
        apart,
    keeps v position (be_bytes16 (to_uint value)) q j _ (write_uint16be_lem v small position value)
        apart,
    keeps v position (le_bytes16 (uvalue 0x10000 value)) q j _
        (write_int16le_lem v small position value) apart,
    keeps v position (be_bytes16 (uvalue 0x10000 value)) q j _
        (write_int16be_lem v small position value) apart,
  )

  -- In a sound buffer whose length is an `int`, the 32-bit writers fault at no position and for
  -- no value: they raise and leave the heap, or keep each byte of the heap that is not among the
  -- four bytes at the position.
  pub frame32 :
      (q ≢ b.orig) ⊎ (outside (offset b position 0) 4 j ≡ true)
      → Keeps h q j (write_uint32le b position value h)
        × Keeps h q j (write_uint32be b position value h)
        × Keeps h q j (write_int32le b position value h)
        × Keeps h q j (write_int32be b position value h)
  frame32 apart = (
    keeps v position (le_bytes32 (to_uint value)) q j _ (write_uint32le_lem v small position value)
        apart,
    keeps v position (be_bytes32 (to_uint value)) q j _ (write_uint32be_lem v small position value)
        apart,
    keeps v position (le_bytes32 (uvalue 0x100000000 value)) q j _
        (write_int32le_lem v small position value) apart,
    keeps v position (be_bytes32 (uvalue 0x100000000 value)) q j _
        (write_int32be_lem v small position value) apart,
  )
