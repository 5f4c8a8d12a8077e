-- ===== src/Buffer/Concat/Gather.antt =====
-- What `Buffer.concat` returns: the bytes of the sources one after another.
use couv.Prelude.{
  ℕ, zero, suc, true, ◌+◌, ◌-◌, ◌≤◌, ◌≡◌, ◌≢◌, refl, sym, ap, ◌∙◌, some, List, [], ◌∷◌, ◌++◌,
  length, length-take, set, take, min, arith, leb,
}
use couv.Prelude.Bytes.{AllBytes, blit, length-blit, AllBytes-blit}
use couv.Prelude.Int.{ℤ, pos, ◌+ℤ◌, ◌-ℤ◌, ltb_ℤ}
use couv.Prelude.CInt.{int_max, to_size}
use couv.Lua.{Run, ok}
use couv.Buffer.Mem.{Ptr, null, BufMem, Heap, write, write_same, write_other, write-write}
use couv.Buffer.Access.{Buffer}
use couv.Buffer.Valid.{IsValid, fits_at, byte_at}
use couv.Buffer.Encode.{overwrite, store_bytes_lem}
use couv.Buffer.Range.{min_ℤ}
use couv.Buffer.Range.Checks.{int_of_size_small}
use couv.Buffer.Range.Contents.{window}
use couv.Buffer.Range.Copy.{memmove_lem, length-window, AllBytes-take, AllBytes-window}
use couv.Buffer.New.{whole}
use couv.Buffer.Concat.{Source, source_len, move_to, gather}

-- The bytes of a source, and those of several, in order.
abbrev pub content : Heap → Source → List ℕ
content h (Source.text str) = str
content h (Source.bytes b) = window h b (pos 1) 0 b.len

abbrev pub contents : Heap → List Source → List ℕ
contents h [] = []
contents h (s ∷ ss) = content h s ++ contents h ss

-- A source can be read, is no longer than an `int` says, and lies in a block other than `p`.
abbrev pub Readable : Heap → Ptr → Source → Type 0
Readable h p (Source.text str) = AllBytes str × (length str ≤ int_max)
Readable h p (Source.bytes b) = IsValid h b × (b.len ≤ int_max) × (b.orig ≢ p) × (b.orig ≢ null)

abbrev pub AllReadable : Heap → Ptr → List Source → Type 0
AllReadable h p [] = Unit {0}
AllReadable h p (s ∷ ss) = Readable h p s × AllReadable h p ss

blit-append :
    (mem : List ℕ) (i : ℕ) (xs ys : List ℕ)
    → blit mem i (xs ++ ys) ≡ blit (blit mem i xs) (i + length xs) ys
blit-append mem i [] ys = ap (λ k. blit mem k ys) (omega arith)
blit-append mem i (x ∷ xs) ys =
    blit-append (set mem i x) (suc i) xs ys
    ∙ ap (λ k. blit (blit mem i (x ∷ xs)) k ys) (omega arith)

take-append :
    (n : ℕ) (xs ys : List ℕ)
    → take n (xs ++ ys) ≡ take (min (length xs) n) xs ++ take (n - min (length xs) n) ys
take-append n [] ys =
    let none_left : min 0 n ≡ 0 = omega arith in
    let all : n - 0 ≡ n = omega arith in rw (none_left, all)
take-append zero (x ∷ xs) ys =
    let none_left : min (suc (length xs)) 0 ≡ 0 = omega arith in rw none_left
take-append (suc n) (x ∷ xs) ys =
    let both : min (suc (length xs)) (suc n) ≡ suc (min (length xs) n) = omega arith in
    let left : suc n - suc (min (length xs) n) ≡ n - min (length xs) n = omega arith in
    rw (both, left) (ap (◌∷◌ x) (take-append n xs ys))

take-window :
    (h : Heap) (b : Buffer) (position : ℤ) (i k n : ℕ)
    → k ≤ n
    → take k (window h b position i n) ≡ window h b position i k
take-window h b position i zero n l = refl
take-window h b position i (suc k) zero l = absurd (omega arith)
take-window h b position i (suc k) (suc n) l =
    ap (◌∷◌ (byte_at h b position i)) (take-window h b position (i + 1) k n (omega arith))

window-same :
    (g h : Heap) (b : Buffer) (position : ℤ) (i n : ℕ)
    → g b.orig ≡ h b.orig
    → window g b position i n ≡ window h b position i n
window-same g h b position i zero e = refl
window-same g h b position i (suc n) e = rw (e, window-same g h b position (i + 1) n e)

min_ℤ-pos : (l t : ℕ) → min_ℤ (pos l) (pos t) ≡ pos (min l t)
min_ℤ-pos l t = ground arith

-- The heap with a new block of the given bytes.
abbrev pub block : List ℕ → BufMem
block mem = record { ref_cnt = 1; mem = mem }

abbrev pub with_block : Heap → Ptr → List ℕ → Heap
with_block h p mem = write h p (some (block mem))

-- One step of the loop puts the first bytes of a source into the new block.
move_to_lem :
    (h : Heap) (p : Ptr) (mem : List ℕ) (s : Source) (d k : ℕ)
    → AllBytes mem
    → Readable h p s
    → k ≤ source_len s
    → d + k ≤ length mem
    → move_to (whole p (length mem)) (pos (suc d)) s k (with_block h p mem)
      ≡ ok tt (with_block h p (blit mem d (take k (content h s))))
unfolding move_to
move_to_lem h p mem s d k bs r le fits = go s r le
  where
    target : Buffer
    target = whole p (length mem)

    v : IsValid (with_block h p mem) target
    v = record {
      block = block mem;
      holds = write_same h p p _ refl;
      fits = omega arith;
      bytes = bs;
    }

    room : fits_at target (pos (suc d)) k ≡ true
    room = ground arith

    done :
        (xs : List ℕ)
        → ◌≡◌ {A = Run Heap (Unit {0})}
            (ok tt (overwrite (with_block h p mem) target (block mem) (pos (suc d)) 0 xs))
            (ok tt (with_block h p (blit mem d xs)))
    done xs =
        ap (ok tt)
          (write-write h p _ _ ∙ ap (λ j. with_block h p (blit mem j xs)) {y = d} (omega arith))

    go :
        (s : Source)
        → Readable h p s
        → k ≤ source_len s
        → move_to target (pos (suc d)) s k (with_block h p mem)
          ≡ ok tt (with_block h p (blit mem d (take k (content h s))))
    go (Source.text str) r le =
        let enough : leb k (length str) ≡ true = ground arith in
        rw enough (
          store_bytes_lem (take k str) v (pos (suc d)) k 0 room (omega (arith, length-take k str))
            (AllBytes-take k str r.0)
          ∙ done (take k str))
    go (Source.bytes b) r le =
        memmove_lem (source b r) v (pos (suc d)) (pos 1) k room (ground arith)
        ∙ done (window (with_block h p mem) b (pos 1) 0 k)
        ∙ ap (λ xs. ok tt (with_block h p (blit mem d xs)))
            (window-same (with_block h p mem) h b (pos 1) 0 k (write_other h p b.orig _ r.2)
              ∙ sym (take-window h b (pos 1) 0 k b.len le))
      where
        source : (b : Buffer) → Readable h p (Source.bytes b) → IsValid (with_block h p mem) b
        source b r = record {
          block = r.0.block;
          holds = write_other h p b.orig _ r.2 ∙ r.0.holds;
          fits = r.0.fits;
          bytes = r.0.bytes;
        }

min-step : (d l t m : ℕ) → d + t ≤ m → (d + min l t ≤ m) × (d + min l t + (t - min l t) ≤ m)
min-step d l t m h = (omega arith, omega arith)

next_dst : (d k : ℕ) → pos (suc d) +ℤ pos k ≡ pos (suc (d + k))
unfolding ◌+ℤ◌
next_dst d k = ground arith

rest_of : (l t : ℕ) → pos t -ℤ pos (min l t) ≡ pos (t - min l t)
unfolding ◌-ℤ◌
rest_of l t = ground arith

take-nil : (n : ℕ) → take {A = ℕ} n [] ≡ []
take-nil zero = refl
take-nil (suc n) = refl

pub length-content : (h : Heap) (s : Source) → length (content h s) ≡ source_len s
length-content h (Source.text str) = refl
length-content h (Source.bytes b) = length-window h b (pos 1) 0 b.len

source_len-small : (h : Heap) (p : Ptr) (s : Source) → Readable h p s → source_len s ≤ int_max
source_len-small h p (Source.text str) r = r.1
source_len-small h p (Source.bytes b) r = r.1

AllBytes-content : (h : Heap) (p : Ptr) (s : Source) → Readable h p s → AllBytes (content h s)
AllBytes-content h p (Source.text str) r = r.0
AllBytes-content h p (Source.bytes b) r = AllBytes-window r.0 (pos 1) 0 b.len

-- What the first source and the rest put into a block, they put there together.
together :
    (mem c f : List ℕ) (d l t : ℕ)
    → length c ≡ l
    → blit (blit mem d (take (min l t) c)) (d + min l t) (take (t - min l t) f)
      ≡ blit mem d (take t (c ++ f))
together mem c f d l t e = rw (← e) (
    ap (λ k. blit (blit mem d (take (min (length c) t) c)) (d + k) (take (t - min (length c) t) f))
      {y = length (take (min (length c) t) c)} (omega (arith, length-take (min (length c) t) c))
    ∙ sym (blit-append mem d (take (min (length c) t) c) (take (t - min (length c) t) f))
    ∙ ap (blit mem d) (sym (take-append t c f)))

-- The loop fills the room with the contents of the sources, one after another.
pub gather_lem :
    (ss : List Source) (h : Heap) (p : Ptr) (mem : List ℕ) (d t n : ℕ)
    → n ≡ length mem
    → AllBytes mem
    → AllReadable h p ss
    → t ≤ int_max
    → d + t ≤ length mem
    → gather (whole p n) (pos (suc d)) (pos t) ss (with_block h p mem)
      ≡ ok tt (with_block h p (blit mem d (take t (contents h ss))))
unfolding gather
gather_lem [] h p mem d t n e bs rs small room = rw (take-nil t)
gather_lem (s ∷ ss) h p mem d zero n e bs rs small room = refl
gather_lem (s ∷ ss) h p mem d (suc t) n e bs rs small room =
    rw
      (
        go,
        int_of_size_small l (source_len-small h p s rs.0),
        min_ℤ-pos l (suc t),
        next_dst d k,
        rest_of l (suc t),
        size,
        e,
        move_to_lem h p mem s d k bs rs.0 (omega arith) (omega arith),
      )
      (gather_lem ss h p (blit mem d (take k (content h s))) (d + k) (suc t - k) n
          (e ∙ sym (length-blit mem d (take k (content h s))))
          (AllBytes-blit mem d (take k (content h s))
            (AllBytes-take k (content h s) (AllBytes-content h p s rs.0)) bs)
          rs.1 (omega arith) (omega (arith, length-blit mem d (take k (content h s))))
        ∙ ap (λ m. ok tt (with_block h p m))
            (together mem (content h s) (contents h ss) d l (suc t) (length-content h s)))
  where
    l : ℕ
    l = source_len s

    k : ℕ
    k = min l (suc t)

    go : ltb_ℤ (pos 0) (pos (suc t)) ≡ true
    go = ground arith

    size : to_size (pos k) ≡ k
    size = omega arith
