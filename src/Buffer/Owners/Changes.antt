-- ===== src/Buffer/Owners/Changes.antt =====
-- How a new block, a new reference and a dropped one change the counts.
use couv.Prelude.{
  ℕ, zero, suc, ◌+◌, ◌-◌, ◌≤◌, ◌≡◌, ◌≢◌, ◌⊎◌, refl, sym, ap, inl, inr, Option, none, some, List, [],
  ◌∷◌, length, get_elem?, arith, ◌==◌, if◌then◌else◌,
}
use native.Mathlib.Decide.{ℕ_discrete}
use couv.Prelude.Bytes.{AllBytes}
use couv.Prelude.CInt.{int_max}
use couv.Lua.{opt, ok}
use couv.Buffer.Mem.{Ptr, null, BufMem, Heap, write, write_same, write_other, mem_release}
use couv.Buffer.Access.{Buffer}
use couv.Buffer.Valid.{IsValid, mem_of}
use couv.Buffer.New.{whole}
use couv.Buffer.Owners.{remove_at}
use couv.Buffer.Owners.Counts.{lies_in, refs, Matches, Fits, AllFit, IsOwned, alive-ref_cnt}

-- A block that is written over keeps the bytes of the buffers in it, or has no buffer.
abbrev Keeps : Heap → Ptr → Option BufMem → ℕ → Type 0
Keeps h p c n = (length (mem_of (h p)) ≤ length (mem_of c)) ⊎ (n ≡ 0)

Fits-write :
    (h : Heap) (p : Ptr) (c : Option BufMem) (b : Buffer)
    → Keeps h p c (lies_in p b)
    → Fits h b
    → Fits (write h p c) b
Fits-write h p c b k f = elim (ℕ_discrete b.orig p) [
  | yes e ↦ (f.0, f.1, rw (write_same h p b.orig c (sym e)) (bound e k))
  | no ne ↦ (f.0, f.1, rw (write_other h p b.orig c ne) f.2)
]
  where
    bound : b.orig ≡ p → Keeps h p c (lies_in p b) → b.base + b.len ≤ length (mem_of c)
    bound e (inl l) = omega (arith, f.2, ap (λ q. length (mem_of (h q))) e)
    bound e (inr n) = absurd (ground arith)

AllFit-write :
    (h : Heap) (p : Ptr) (c : Option BufMem) (bs : List Buffer)
    → Keeps h p c (refs p bs)
    → AllFit h bs
    → AllFit (write h p c) bs
AllFit-write h p c [] k f = tt
AllFit-write h p c (b ∷ bs) (inl l) f =
    (Fits-write h p c b (inl l) f.0, AllFit-write h p c bs (inl l) f.1)
AllFit-write h p c (b ∷ bs) (inr n) f =
    (Fits-write h p c b (inr (omega arith)) f.0, AllFit-write h p c bs (inr (omega arith)) f.1)

write-IsOwned :
    {h : Heap} {live : List Buffer} (p : Ptr) (c : Option BufMem) (bs : List Buffer)
    → IsOwned h live
    → Matches c (refs p bs)
    → ((q : Ptr) → q ≢ p → refs q bs ≡ refs q live)
    → AllFit (write h p c) bs
    → IsOwned (write h p c) bs
write-IsOwned {h} {live} p c bs o m same f = record {
  counted = λ q. at q (ℕ_discrete q p);
  fit = f;
}
  where
    at : (q : Ptr) → Dec (q ≡ p) → Matches (write h p c q) (refs q bs)
    at q (yes e) = rw (e, write_same h p p c refl) m
    at q (no ne) = rw (write_other h p q c ne, same q ne) (o.counted q)

Matches-none : (c : Option BufMem) (n : ℕ) → c ≡ none → Matches c n → n ≡ 0
Matches-none none n e m = m
Matches-none (some c) n e m = absurd cc

-- A new block with the one buffer over all of it.
pub create-IsOwned :
    {h : Heap} {live : List Buffer} (p : Ptr) (mem : List ℕ) (n : ℕ)
    → IsOwned h live
    → h p ≡ none
    → p ≢ null
    → n ≤ int_max
    → length mem ≡ n
    → AllBytes mem
    → IsOwned (write h p (some (record { ref_cnt = 1; mem = mem }))) (whole p n ∷ live)
create-IsOwned {h} {live} p mem n o e ne s l bs =
    write-IsOwned p (some new) (whole p n ∷ live) o
      (ground (arith, none_there), ground (arith, none_there), bs) (λ q d. ground arith)
      (
        (ne, s, rw (write_same h p p (some new) refl) (omega arith)),
        AllFit-write h p (some new) live (inr none_there) o.fit,
      )
  where
    new : BufMem
    new = record { ref_cnt = 1; mem = mem }

    none_there : refs p live ≡ 0
    none_there = Matches-none (h p) (refs p live) e (o.counted p)

abbrev pub recount : BufMem → ℕ → Option BufMem
recount m n = some (record m { ref_cnt = n })

-- One more buffer in the block of one that is alive.
pub retain-IsOwned :
    {h : Heap} {live : List Buffer} {b : Buffer} (v : IsValid h b) (c : Buffer)
    → IsOwned h live
    → c.orig ≡ b.orig
    → Fits h c
    → IsOwned (write h b.orig (recount v.block (v.block.ref_cnt + 1))) (c ∷ live)
retain-IsOwned {h} {live} {b} v c o e f =
    write-IsOwned b.orig new (c ∷ live) o (ground (arith, alive-ref_cnt o v), ground arith, v.bytes)
      (λ q d. ground arith)
      (AllFit-write h b.orig new (c ∷ live) (inl (rw v.holds (omega arith))) (f, o.fit))
  where
    new : Option BufMem
    new = recount v.block (v.block.ref_cnt + 1)

pub refs-remove_at :
    (p : Ptr) (bs : List Buffer) (i : ℕ) (b : Buffer)
    → get_elem? bs i ≡ some b
    → lies_in p b + refs p (remove_at bs i) ≡ refs p bs
refs-remove_at p [] i b e = absurd cc
refs-remove_at p (c ∷ bs) zero b e = ap (λ o. lies_in p (opt o c) + refs p bs) (sym e)
refs-remove_at p (c ∷ bs) (suc i) b e = let l = refs-remove_at p bs i b e in omega arith

AllFit-remove_at : (h : Heap) (bs : List Buffer) (i : ℕ) → AllFit h bs → AllFit h (remove_at bs i)
AllFit-remove_at h [] i f = tt
AllFit-remove_at h (b ∷ bs) zero f = f.1
AllFit-remove_at h (b ∷ bs) (suc i) f = (f.0, AllFit-remove_at h bs i f.1)

pub length-remove_at-le : (bs : List Buffer) (i : ℕ) → length (remove_at bs i) ≤ length bs
length-remove_at-le [] i = omega arith
length-remove_at-le (b ∷ bs) zero = omega arith
length-remove_at-le (b ∷ bs) (suc i) = let l = length-remove_at-le bs i in omega arith

-- The block that `mem_release` leaves.
abbrev pub dropped : BufMem → Option BufMem
dropped m = if m.ref_cnt == 1 then none else recount m (m.ref_cnt - 1)

pub release_lem :
    (h : Heap) (p : Ptr) (m : BufMem)
    → h p ≡ some m
    → mem_release p h ≡ ok tt (write h p (dropped m))
unfolding mem_release
release_lem h p m e = ground arith

-- One buffer fewer.
pub release-IsOwned :
    {h : Heap} {live : List Buffer} (i : ℕ) (b : Buffer) (v : IsValid h b)
    → IsOwned h live
    → get_elem? live i ≡ some b
    → IsOwned (write h b.orig (dropped v.block)) (remove_at live i)
release-IsOwned {h} {live} i b v o e = elim (ℕ_discrete v.block.ref_cnt 1) [
  | yes one ↦ rw (is_one one) (
      write-IsOwned b.orig none rest o (omega (arith, n, lost)) others
        (AllFit-write h b.orig none rest (inr (omega (arith, n, lost))) fits))
  | no more ↦ rw (is_more more) (
      write-IsOwned b.orig less rest o (omega (arith, n, lost), omega (arith, n, lost), v.bytes)
        others (AllFit-write h b.orig less rest (inl (rw v.holds (omega arith))) fits))
]
  where
    rest : List Buffer
    rest = remove_at live i

    less : Option BufMem
    less = recount v.block (v.block.ref_cnt - 1)

    n : v.block.ref_cnt ≡ refs b.orig live
    n = alive-ref_cnt o v

    lost : suc (refs b.orig rest) ≡ refs b.orig live
    lost = let r = refs-remove_at b.orig live i b e in ground arith

    fits : AllFit h rest
    fits = AllFit-remove_at h live i o.fit

    others : (q : Ptr) → q ≢ b.orig → refs q rest ≡ refs q live
    others q d = let r = refs-remove_at q live i b e in ground arith

    is_one : v.block.ref_cnt ≡ 1 → dropped v.block ≡ none
    is_one one = ground arith

    is_more : v.block.ref_cnt ≢ 1 → dropped v.block ≡ less
    is_more more = ground arith
