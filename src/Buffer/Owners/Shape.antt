-- ===== src/Buffer/Owners/Shape.antt =====
-- Two heaps with the same blocks, counts and sizes; only bytes may differ.
use couv.Prelude.{ℕ, ◌≡◌, refl, inl, inr, Option, none, some, List, length, Bool-cases}
use native.Mathlib.Decide.{ℕ_discrete}
use couv.Prelude.Bytes.{AllBytes, length-blit, AllBytes-blit}
use couv.Prelude.Int.{ℤ}
use couv.Lua.{Run, ok, raised, Error}
use couv.Buffer.Mem.{Ptr, BufMem, Heap, write, write_same, write_other}
use couv.Buffer.Access.{Buffer, in_range}
use couv.Buffer.Valid.{IsValid, fits_at, offset}
use couv.Buffer.Decode.{checked}
use couv.Buffer.Encode.{overwrite, written, blitted}
use couv.Buffer.Range.Checks.{indexed}

abbrev pub Like : Option BufMem → Option BufMem → Type 0
Like none none = Unit {0}
Like none (some n) = ⊥
Like (some m) none = ⊥
Like (some m) (some n) =
    (n.ref_cnt ≡ m.ref_cnt) × (length n.mem ≡ length m.mem) × (AllBytes m.mem → AllBytes n.mem)

pub Like-refl : (c : Option BufMem) → Like c c
Like-refl none = tt
Like-refl (some m) = (refl, refl, λ b. b)

pub record SameShape (h g : Heap) : Type 0 where
  pub at : (p : Ptr) → Like (h p) (g p)

pub SameShape-refl : (h : Heap) → SameShape h h
SameShape-refl h = record { at = λ p. Like-refl (h p) }

-- A run that does not fault, leaves the heap if it raises, and keeps its shape if it returns.
pub data Tame {A : Type 0} (h : Heap) : Run Heap A → Type 0 where
  returns : {a : A} {g : Heap} → SameShape h g → Tame h (ok a g)
  raises : {e : Error} → Tame h (raised e h)

pub overwrite-SameShape :
    {h : Heap} {b : Buffer} (v : IsValid h b) (position : ℤ) (i : ℕ) (xs : List ℕ)
    → AllBytes xs
    → SameShape h (overwrite h b v.block position i xs)
overwrite-SameShape {h} {b} v position i xs bs = record { at = λ p. at p (ℕ_discrete p b.orig) }
  where
    new : BufMem
    new = blitted v.block b position i xs

    there : Like (h b.orig) (write h b.orig (some new) b.orig)
    there =
        rw (v.holds, write_same h b.orig b.orig (some new) refl)
          (
            refl,
            length-blit v.block.mem (offset b position i) xs,
            AllBytes-blit v.block.mem (offset b position i) xs bs,
          )

    at : (p : Ptr) → Dec (p ≡ b.orig) → Like (h p) (write h b.orig (some new) p)
    at p (yes e) = rw e there
    at p (no ne) = rw (write_other h b.orig p (some new) ne) (Like-refl (h p))

pub checked-Tame :
    {A : Type 0} (b : Buffer) (position : ℤ) (n : ℕ) (h : Heap) (a : A)
    → Tame h (checked b position n h a)
checked-Tame b position n h a = elim (Bool-cases (fits_at b position n)) [
  | inl f ↦ rw f (returns (SameShape-refl h))
  | inr f ↦ rw f raises
]

pub written-Tame :
    {h : Heap} {b : Buffer} (v : IsValid h b) (position : ℤ) (xs : List ℕ)
    → AllBytes xs
    → Tame h (written h b v.block position xs)
written-Tame {h} {b} v position xs bs = elim (Bool-cases (fits_at b position (length xs))) [
  | inl f ↦ rw f (returns (overwrite-SameShape v position 0 xs bs))
  | inr f ↦ rw f raises
]

pub indexed-Tame :
    {A : Type 0} (arg : ℕ) (index lo hi : ℤ) (h : Heap) (r : Run Heap A)
    → Tame h r
    → Tame h (indexed arg index lo hi h r)
indexed-Tame arg index lo hi h r t = elim (Bool-cases (in_range index lo hi)) [
  | inl f ↦ rw f t
  | inr f ↦ rw f raises
]
