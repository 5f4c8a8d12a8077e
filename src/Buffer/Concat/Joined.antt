-- ===== src/Buffer/Concat/Joined.antt =====
-- `Buffer.concat` as a whole, with and without a total length.
use couv.Prelude.{
  ℕ, zero, suc, true, ◌+◌, ◌≤◌, ◌≡◌, ◌≢◌, refl, sym, ap, ◌∙◌, none, some, List, [], ◌∷◌, map,
  length, length-append, take, arith,
}
use couv.Prelude.Bytes.{blit, blit_all}
use couv.Prelude.Int.{pos, ◌+ℤ◌}
use couv.Prelude.CInt.{int_max, to_int}
use couv.Lua.{ok, pure, ◌>>=◌}
use couv.Buffer.Mem.{Ptr, null, Malloc, Heap, uninitialised}
use couv.Buffer.New.{NewArg, whole, new_block}
use couv.Buffer.New.Fresh.{new_number, length-uninitialised, AllBytes-uninitialised}
use couv.Buffer.Concat.{
  Value, Source, tobuforstr, checkbuforstrtable, source_len, sum_lengths, gather, buffer_concat,
}
use couv.Buffer.Concat.Gather.{
  Readable, AllReadable, contents, content, with_block, gather_lem, length-content,
}

-- The Lua value that a source stands for.
abbrev pub value_of : Source → Value
value_of (Source.text str) = Value.string str
value_of (Source.bytes b) = Value.buffer b

tobuforstr-value_of :
    (h : Heap) (p : Ptr) (s : Source) → Readable h p s → tobuforstr (value_of s) ≡ some s
unfolding tobuforstr
tobuforstr-value_of h p (Source.text str) r = refl
tobuforstr-value_of h p (Source.bytes b) r = ground (arith, r.3)

checkbuforstrtable-value_of :
    (h : Heap) (p : Ptr) (ss : List Source)
    → AllReadable h p ss
    → checkbuforstrtable true (map value_of ss) h ≡ ok ss h
unfolding checkbuforstrtable
checkbuforstrtable-value_of h p [] r = refl
checkbuforstrtable-value_of h p (s ∷ ss) r =
    ground (arith, tobuforstr-value_of h p s r.0, checkbuforstrtable-value_of h p ss r.1)

-- The sum of the lengths of several sources.
abbrev pub total_len : List Source → ℕ
total_len [] = 0
total_len (s ∷ ss) = source_len s + total_len ss

length-contents : (h : Heap) (ss : List Source) → length (contents h ss) ≡ total_len ss
length-contents h [] = refl
length-contents h (s ∷ ss) =
    omega
      (arith, length-append (content h s) (contents h ss), length-content h s, length-contents h ss)

to_int-add : (n l : ℕ) → n + l ≤ int_max → to_int (pos n +ℤ pos l) ≡ pos (n + l)
unfolding ◌+ℤ◌
to_int-add n l h = ground arith

sum_lengths-total_len :
    (n : ℕ) (ss : List Source)
    → n + total_len ss ≤ int_max
    → sum_lengths (pos n) ss ≡ pos (n + total_len ss)
unfolding sum_lengths
sum_lengths-total_len n [] h = ap pos (omega arith)
sum_lengths-total_len n (s ∷ ss) h =
    rw (to_int-add n (source_len s) (omega arith))
      (sum_lengths-total_len (n + source_len s) ss (omega arith) ∙ ap pos (omega arith))

take_all : (xs : List ℕ) (n : ℕ) → length xs ≡ n → take n xs ≡ xs
take_all [] zero e = refl
take_all [] (suc n) e = refl
take_all (x ∷ xs) zero e = absurd (omega arith)
take_all (x ∷ xs) (suc n) e = ap (◌∷◌ x) (take_all xs n (omega arith))

module _ (m : Malloc) (h : Heap) (ss : List Source) (real : m.ptr ≢ null)
    (readable : AllReadable h m.ptr ss) where
  -- A new buffer of the given length, filled by the loop.
  built :
      (n : ℕ)
      → n ≤ int_max
      → (new_block m (NewArg.number (pos n)) >>= λ target.
            gather target (pos 1) (pos n) ss >>= λ _. pure target)
          h
        ≡ ok
            (whole m.ptr n)
            (with_block h m.ptr (blit (uninitialised m.content n) 0 (take n (contents h ss))))
  built n small =
      let size : n ≡ length (uninitialised m.content n) = sym (length-uninitialised m.content n) in
      rw (
        (new_number m n h real (omega arith)).0,
        gather_lem ss h m.ptr (uninitialised m.content n) 0 n n size
            (AllBytes-uninitialised m.content n) readable small (omega (arith, size)),
      )

  -- Where malloc gives a block, `Buffer.concat` of readable strings and buffers that lie outside it
  -- and whose lengths sum up to an `int`, with no total length, returns a buffer over the new block,
  -- which holds exactly their bytes, one source after another.
  pub concat_all :
      total_len ss ≤ int_max
      → buffer_concat m true (map value_of ss) none h
        ≡ ok (whole m.ptr (total_len ss)) (with_block h m.ptr (contents h ss))
  unfolding buffer_concat
  concat_all small =
      rw (checkbuforstrtable-value_of h m.ptr ss readable, total)
        (built n small ∙ ap (λ xs. ok (whole m.ptr n) (with_block h m.ptr xs)) filled)
    where
      n : ℕ
      n = total_len ss

      total : sum_lengths (pos 0) ss ≡ pos n
      total = sum_lengths-total_len 0 ss (omega arith) ∙ ap pos (omega arith)

      filled : blit (uninitialised m.content n) 0 (take n (contents h ss)) ≡ contents h ss
      filled =
          ap (blit (uninitialised m.content n) 0)
            (take_all (contents h ss) n (length-contents h ss))
          ∙ blit_all (uninitialised m.content n) (contents h ss)
              (length-uninitialised m.content n ∙ sym (length-contents h ss))

  -- Where malloc gives a block, `Buffer.concat` of readable strings and buffers that lie outside it,
  -- with a total length that is a positive `int`, returns a buffer of that length, which begins with
  -- as many of their bytes as fit; what they do not reach is left as malloc gave it.
  pub concat_total :
      (n : ℕ)
      → suc n ≤ int_max
      → buffer_concat m true (map value_of ss) (some (pos (suc n))) h
        ≡ ok (whole m.ptr (suc n)) (
            with_block h m.ptr
              (blit (uninitialised m.content (suc n)) 0 (take (suc n) (contents h ss))))
  unfolding buffer_concat
  concat_total n small = rw (checkbuforstrtable-value_of h m.ptr ss readable) (built (suc n) small)
