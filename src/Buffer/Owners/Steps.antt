-- ===== src/Buffer/Owners/Steps.antt =====
-- Each call of src/buffer.c keeps the reference counts and does not fault.
use couv.Prelude.{
  ℕ, suc, true, false, ◌+◌, ◌≤◌, ◌<◌, ◌≡◌, ◌≢◌, ◌⊎◌, refl, inl, inr, Option, none, some, List, ◌∷◌,
  length, get_elem?, arith, ◌==◌, Bool-cases, Option-cases,
}
use couv.Prelude.Bytes.{AllBytes}
use couv.Prelude.Int.{ℤ, pos, negsuc}
use couv.Prelude.CInt.{int_max}
use couv.Lua.{Call, Run, ok, raised, fault, opt}
use couv.Buffer.Mem.{Ptr, null, Malloc, BufMem, Heap, write, uninitialised}
use couv.Buffer.Access.{Buffer, in_range}
use couv.Buffer.Valid.{IsValid}
use couv.Buffer.New.{NewArg, buffer_new}
use couv.Buffer.New.Fresh.{new_string, new_number, length-uninitialised, AllBytes-uninitialised}
use couv.Buffer.Range.{buffer_slice, buffer_gc}
use couv.Buffer.Range.Checks.{indexed}
use couv.Buffer.Range.Slice.{part, slice_lem}
use couv.Buffer.Owners.{Op, World, lift, with_buffer, remove_at}
use couv.Buffer.Owners.Shape.{Tame, returns, raises}
use couv.Buffer.Owners.Counts.{
  IsOwned, Fits, AllFit-get, alive-IsValid, alive-ref_cnt, refs-le-length, SameShape-IsOwned,
}
use couv.Buffer.Owners.Changes.{
  create-IsOwned, retain-IsOwned, release-IsOwned, release_lem, recount, dropped,
  length-remove_at-le,
}

-- `malloc` gives no address at which there is a block.
abbrev pub IsMalloc : (Heap → Malloc) → Type 0
IsMalloc malloc = (h : Heap) → ((malloc h).ptr ≡ null) ⊎ (h (malloc h).ptr ≡ none)

-- Lengths fit an `int`, strings hold bytes, and the program does not call `__gc` itself.
abbrev pub IsAllowed : Op → Type 0
IsAllowed (Op.create (NewArg.number (pos n))) = n ≤ int_max
IsAllowed (Op.create (NewArg.number (negsuc n))) = ⊥
IsAllowed (Op.create (NewArg.string str)) = AllBytes str × (length str ≤ int_max)
IsAllowed (Op.create NewArg.other) = Unit {0}
IsAllowed (Op.put i str p l) = AllBytes str × (length str ≤ int_max)
IsAllowed (Op.call_gc i) = ⊥
IsAllowed _ = Unit {0}

-- A step that does not fault keeps the counts, and makes at most one buffer.
abbrev pub Sound : ℕ → Run World (Unit {0}) → Type 0
Sound n (ok _ w) = IsOwned w.heap w.live × (length w.live ≤ suc n)
Sound n (raised _ w) = IsOwned w.heap w.live × (length w.live ≤ suc n)
Sound n fault = ⊥

Tame-Sound :
    {A : Type 0} {h : Heap} {live : List Buffer} (r : Run Heap A)
    → IsOwned h live
    → Tame h r
    → Sound (length live) (lift live (λ _. live) r)
Tame-Sound _ o (returns s) = (SameShape-IsOwned s o, omega arith)
Tame-Sound _ o raises = (o, omega arith)

pub with_buffer-Sound :
    (n : ℕ) (w : World) (i : ℕ) (k : Buffer → Run World (Unit {0}))
    → IsOwned w.heap w.live
    → length w.live ≤ suc n
    → ((b : Buffer) → get_elem? w.live i ≡ some b → Sound n (k b))
    → Sound n (with_buffer w i k)
with_buffer-Sound n w i k o l s = elim (Option-cases (get_elem? w.live i)) [
  | inl e ↦ rw (e, Sound) (o, l)
  | inr (b, e) ↦ rw (e, Sound) (s b e)
]

-- A check of an index, and what follows it.
indexed-Sound :
    {A : Type 0} {h : Heap} {live : List Buffer} (arg : ℕ) (index lo hi : ℤ)
    (after : A → List Buffer) (r : Run Heap A)
    → IsOwned h live
    → (in_range index lo hi ≡ true → Sound (length live) (lift live after r))
    → Sound (length live) (lift live after (indexed arg index lo hi h r))
indexed-Sound arg index lo hi after r o k = elim (Bool-cases (in_range index lo hi)) [
  | inl f ↦ rw (f, Sound) (k f)
  | inr f ↦ rw (f, Sound) (o, omega arith)
]

part-len :
    (b : Buffer) (first last : ℤ)
    → in_range first (pos 1) (pos b.len) ≡ true
    → in_range last first (pos b.len) ≡ true
    → ((part b first last).len ≤ b.len)
      × ((part b first last).base + (part b first last).len ≤ b.base + b.len)
part-len b (negsuc p) last f l = ground arith
part-len b (pos p) (negsuc q) f l = ground arith
part-len b (pos p) (pos q) f l = ground arith

gc_lem :
    (h : Heap) (b : Buffer) (m : BufMem)
    → b.orig ≢ null
    → h b.orig ≡ some m
    → buffer_gc b h ≡ ok tt (write h b.orig (dropped m))
unfolding buffer_gc
gc_lem h b m ne e =
    let some_block : (b.orig == null) ≡ false = ground arith in
    rw (some_block) (release_lem h b.orig m e)

-- Where `malloc` answers an address, there is no block yet.
no_block : (h : Heap) (p : Ptr) → (p ≡ null) ⊎ (h p ≡ none) → p ≢ null → h p ≡ none
no_block h p (inl e) ne = absurd (ne e)
no_block h p (inr e) ne = e

module _ (w : World) (o : IsOwned w.heap w.live) where
  pub alive-small : (i : ℕ) (b : Buffer) → get_elem? w.live i ≡ some b → b.len ≤ int_max
  alive-small i b e = (AllFit-get w.heap w.live i b o.fit e).1

  -- A method of a buffer that reads or writes bytes.
  pub method-Sound :
      {A : Type 0} (i : ℕ) (m : Buffer → Call Heap A)
      → ((b : Buffer) → IsValid w.heap b → b.len ≤ int_max → Tame w.heap (m b w.heap))
      → Sound (length w.live) (with_buffer w i λ b. lift w.live (λ _. w.live) (m b w.heap))
  method-Sound i m t =
      with_buffer-Sound (length w.live) w i (λ b. lift w.live (λ _. w.live) (m b w.heap)) o
        (omega arith)
        λ b e. Tame-Sound (m b w.heap) o (t b (alive-IsValid o i b e) (alive-small i b e))

  pub slice-Sound :
      (i : ℕ) (first? last? : Option ℤ)
      → length w.live < int_max
      → Sound
          (length w.live)
          (with_buffer w i λ b. lift w.live (λ s. s ∷ w.live) (buffer_slice b first? last? w.heap))
  slice-Sound i first? last? l =
      with_buffer-Sound (length w.live) w i
        (λ b. lift w.live (λ s. s ∷ w.live) (buffer_slice b first? last? w.heap)) o (omega arith)
        λ b e. of_alive b (alive-IsValid o i b e) (AllFit-get w.heap w.live i b o.fit e)
    where
      of_alive :
          (b : Buffer) (v : IsValid w.heap b)
          → Fits w.heap b
          → Sound
              (length w.live)
              (lift w.live (λ s. s ∷ w.live) (buffer_slice b first? last? w.heap))
      of_alive b v f =
          let first = opt first? (pos 1) in
          let last = opt last? (pos b.len) in
          let few = refs-le-length b.orig w.live in
          let count = alive-ref_cnt o v in
          let result : Run Heap Buffer =
            ok (part b first last) (write w.heap b.orig (recount v.block (v.block.ref_cnt + 1))) in
          rw (slice_lem v f.1 (omega arith) first? last?) (
            indexed-Sound 2 first (pos 1) (pos b.len) (λ s. s ∷ w.live)
              (indexed 3 last first (pos b.len) w.heap result) o
              λ low.
                indexed-Sound 3 last first (pos b.len) (λ s. s ∷ w.live) result o
                  λ high.
                    let (short, inside) = part-len b first last low high in
                    (
                      retain-IsOwned v (part b first last) o refl
                          (f.0, omega arith, omega (arith, f.2)),
                      omega arith,
                    ))

  pub collect-Sound :
      (i : ℕ)
      → Sound
          (length w.live)
          (with_buffer w i λ b. lift w.live (λ _. remove_at w.live i) (buffer_gc b w.heap))
  collect-Sound i =
      with_buffer-Sound (length w.live) w i
        (λ b. lift w.live (λ _. remove_at w.live i) (buffer_gc b w.heap)) o (omega arith)
        λ b e. of_alive b (alive-IsValid o i b e) e (AllFit-get w.heap w.live i b o.fit e).0
    where
      of_alive :
          (b : Buffer) (v : IsValid w.heap b)
          → get_elem? w.live i ≡ some b
          → b.orig ≢ null
          → Sound (length w.live) (lift w.live (λ _. remove_at w.live i) (buffer_gc b w.heap))
      of_alive b v e ne =
          rw (gc_lem w.heap b v.block ne v.holds)
            (release-IsOwned i b v o e, omega (arith, length-remove_at-le w.live i))

  pub create-Sound :
      (m : Malloc) (raw : Buffer) (arg : NewArg)
      → m.ptr ≢ null
      → (m.ptr ≡ null) ⊎ (w.heap m.ptr ≡ none)
      → IsAllowed (Op.create arg)
      → Sound (length w.live) (buffer_new m raw arg w)
  unfolding buffer_new
  create-Sound m raw (NewArg.number (negsuc n)) ne a s = elim s [ ]
  create-Sound m raw (NewArg.number (pos n)) ne a s =
      rw ((new_number m n w.heap ne (omega arith)).0, Sound)
        (
          create-IsOwned m.ptr (uninitialised m.content n) n o (no_block w.heap m.ptr a ne) ne s
              (length-uninitialised m.content n) (AllBytes-uninitialised m.content n),
          omega arith,
        )
  create-Sound m raw (NewArg.string str) ne a s =
      rw ((new_string m str w.heap ne (omega arith) s.0).0, Sound)
        (
          create-IsOwned m.ptr str (length str) o (no_block w.heap m.ptr a ne) ne s.1 refl s.0,
          omega arith,
        )
  create-Sound m raw NewArg.other ne a s = (o, omega arith)
