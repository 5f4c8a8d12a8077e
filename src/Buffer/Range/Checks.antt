-- ===== src/Buffer/Range/Checks.antt =====
-- The two index checks of a range of bytes, and what holds where they pass.
use couv.Prelude.{ℕ, zero, suc, true, ◌≤◌, ◌≡◌, inl, inr, arith, Bool-cases, if◌then◌else◌}
use couv.Prelude.Int.{ℤ, pos, negsuc, ◌+ℤ◌, ◌-ℤ◌}
use couv.Prelude.CInt.{int_max, int_of_size, to_size}
use couv.Lua.{Call, Run, raised, Error, arg_error, and_then}
use couv.Buffer.Mem.{Heap}
use couv.Buffer.Access.{Buffer, in_range, argcheckindex}
use couv.Buffer.Valid.{fits_at}
use couv.Buffer.Range.{span}

abbrev pub out_of_range : ℕ → Error
out_of_range arg = arg_error arg "index out of range"

pub int_of_size_small : (n : ℕ) → n ≤ int_max → int_of_size n ≡ pos n
int_of_size_small n h = ground arith

-- One check of an index, and what follows.
abbrev pub indexed : {A : Type 0} → ℕ → ℤ → ℤ → ℤ → Heap → Run Heap A → Run Heap A
indexed arg index lo hi h r = if in_range index lo hi then r else raised (out_of_range arg) h

pub indexed_by :
    {A : Type 0} (arg : ℕ) (index lo hi : ℤ) (h : Heap) (k : Call Heap A) (r : Run Heap A)
    → (in_range index lo hi ≡ true → k h ≡ r)
    → and_then (argcheckindex arg index lo hi h) (λ _. k) ≡ indexed arg index lo hi h r
indexed_by arg index lo hi h k r inside = elim (Bool-cases (in_range index lo hi)) [
  | inl f ↦ rw f (inside f)
  | inr f ↦ rw f
]

-- A range that passes its checks lies in the buffer.
pub range-fits :
    (b : Buffer) (first last : ℤ)
    → b.len ≤ int_max
    → in_range first (pos 1) (pos b.len) ≡ true
    → in_range last first (pos b.len) ≡ true
    → fits_at b first (to_size (span first last)) ≡ true
unfolding ◌+ℤ◌ ◌-ℤ◌
range-fits b (negsuc n) last s f l = ground arith
range-fits b (pos zero) last s f l = ground arith
range-fits b (pos (suc p)) (negsuc q) s f l = ground arith
range-fits b (pos (suc p)) (pos q) s f l = ground arith
