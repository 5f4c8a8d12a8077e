-- ===== src/Buffer/Owners/Counts.antt =====
-- The invariant of the reference counts of src/buffer.c: the count of a block is the number of the
-- buffers that are alive and lie in it.
use couv.Prelude.{
  ℕ, zero, suc, ◌+◌, ◌≤◌, ◌<◌, ◌≡◌, ◌≢◌, refl, ap, ◌∙◌, Option, none, some, List, [], ◌∷◌, length,
  get_elem?, arith, ◌==◌, if◌then◌else◌,
}
use couv.Lua.{opt}
use couv.Prelude.Bytes.{AllBytes}
use couv.Prelude.CInt.{int_max}
use couv.Buffer.Mem.{Ptr, null, BufMem, Heap}
use couv.Buffer.Access.{Buffer}
use couv.Buffer.Valid.{IsValid, mem_of}
use couv.Buffer.Owners.Shape.{Like, SameShape}

abbrev pub lies_in : Ptr → Buffer → ℕ
lies_in p b = if b.orig == p then 1 else 0

-- The buffers that lie in a block.
abbrev pub refs : Ptr → List Buffer → ℕ
refs p [] = 0
refs p (b ∷ bs) = lies_in p b + refs p bs

abbrev pub Matches : Option BufMem → ℕ → Type 0
Matches none n = n ≡ 0
Matches (some m) n = (m.ref_cnt ≡ n) × (0 < n) × AllBytes m.mem

abbrev pub Fits : Heap → Buffer → Type 0
Fits h b = (b.orig ≢ null) × (b.len ≤ int_max) × (b.base + b.len ≤ length (mem_of (h b.orig)))

abbrev pub AllFit : Heap → List Buffer → Type 0
AllFit h [] = Unit {0}
AllFit h (b ∷ bs) = Fits h b × AllFit h bs

pub record IsOwned (h : Heap) (live : List Buffer) : Type 0 where
  pub counted : (p : Ptr) → Matches (h p) (refs p live)
  pub fit : AllFit h live

-- Where the block at a pointer is known.
pub Matches-IsValid :
    {h : Heap} {b : Buffer} {n : ℕ} (c : Option BufMem)
    → h b.orig ≡ c
    → Matches c n
    → 0 < n
    → Fits h b
    → IsValid h b
Matches-IsValid none e m l f = absurd (omega arith)
Matches-IsValid (some c) e m l f = record {
  block = c;
  holds = e;
  fits = rw (← ap mem_of e) f.2;
  bytes = m.2;
}

Matches-ref_cnt :
    {n : ℕ} (c : Option BufMem) (m : BufMem) → c ≡ some m → Matches c n → m.ref_cnt ≡ n
Matches-ref_cnt none m e k = cc
Matches-ref_cnt (some c) m e k = cc

pub refs-pos :
    (bs : List Buffer) (i : ℕ) (b : Buffer) → get_elem? bs i ≡ some b → 0 < refs b.orig bs
refs-pos [] i b e = absurd cc
refs-pos (c ∷ bs) zero b e = ground arith
refs-pos (c ∷ bs) (suc i) b e = let l = refs-pos bs i b e in omega arith

pub AllFit-get :
    (h : Heap) (bs : List Buffer) (i : ℕ) (b : Buffer)
    → AllFit h bs
    → get_elem? bs i ≡ some b
    → Fits h b
AllFit-get h [] i b f e = absurd cc
AllFit-get h (c ∷ bs) zero b f e = rw (← ap (λ o. opt o c) e) f.0
AllFit-get h (c ∷ bs) (suc i) b f e = AllFit-get h bs i b f.1 e

pub refs-le-length : (p : Ptr) (bs : List Buffer) → refs p bs ≤ length bs
refs-le-length p [] = omega arith
refs-le-length p (b ∷ bs) = let l = refs-le-length p bs in ground arith

module _ {h : Heap} {live : List Buffer} (o : IsOwned h live) where
  pub alive-IsValid : (i : ℕ) (b : Buffer) → get_elem? live i ≡ some b → IsValid h b
  alive-IsValid i b e =
      Matches-IsValid (h b.orig) refl (o.counted b.orig) (refs-pos live i b e)
        (AllFit-get h live i b o.fit e)

  pub alive-ref_cnt : {b : Buffer} (v : IsValid h b) → v.block.ref_cnt ≡ refs b.orig live
  alive-ref_cnt {b} v = Matches-ref_cnt (h b.orig) v.block v.holds (o.counted b.orig)

Like-Matches : (n : ℕ) (c d : Option BufMem) → Like c d → Matches c n → Matches d n
Like-Matches n none none l m = m
Like-Matches n none (some d) l m = elim l [ ]
Like-Matches n (some c) none l m = elim l [ ]
Like-Matches n (some c) (some d) l m = (l.0 ∙ m.0, m.1, l.2 m.2)

Like-length : (c d : Option BufMem) → Like c d → length (mem_of d) ≡ length (mem_of c)
Like-length none none l = refl
Like-length none (some d) l = elim l [ ]
Like-length (some c) none l = elim l [ ]
Like-length (some c) (some d) l = l.1

pub SameShape-IsOwned :
    {h g : Heap} {live : List Buffer} → SameShape h g → IsOwned h live → IsOwned g live
SameShape-IsOwned {h} {g} {live} s o = record {
  counted = λ p. Like-Matches (refs p live) (h p) (g p) (s.at p) (o.counted p);
  fit = all live o.fit;
}
  where
    all : (bs : List Buffer) → AllFit h bs → AllFit g bs
    all [] f = tt
    all (b ∷ bs) f =
        ((f.0.0, f.0.1, rw (Like-length (h b.orig) (g b.orig) (s.at b.orig)) f.0.2), all bs f.1)
