-- ===== src/Buffer/Float/Turn.antt =====
-- `memcpy_le` and `memcpy_be` of src/buffer.c keep the bytes or turn them round.
use couv.Prelude.{
  ℕ, zero, suc, ◌-◌, ◌≤◌, ◌<◌, ◌≡◌, refl, ap, ◌∙◌, List, [], ◌∷◌, length, get_or, drop, sym, arith,
}
use couv.Prelude.Bytes.{AllBytes, get_or-lt}
use couv.Buffer.Float.{ByteOrder, forward, backward, memcpy_le, memcpy_be}

length-forward : (xs : List ℕ) → length (forward xs) ≡ length xs
length-forward [] = refl
length-forward (x ∷ xs) = ap suc (length-forward xs)

pub length-backward : (xs : List ℕ) (n : ℕ) → length (backward xs n) ≡ n
length-backward xs zero = refl
length-backward xs (suc n) = ap suc (length-backward xs n)

pub length-memcpy_le : (o : ByteOrder) (xs : List ℕ) → length (memcpy_le o xs) ≡ length xs
unfolding memcpy_le
length-memcpy_le ByteOrder.little xs = length-forward xs
length-memcpy_le ByteOrder.big xs = length-backward xs (length xs)

pub length-memcpy_be : (o : ByteOrder) (xs : List ℕ) → length (memcpy_be o xs) ≡ length xs
unfolding memcpy_be
length-memcpy_be ByteOrder.little xs = length-backward xs (length xs)
length-memcpy_be ByteOrder.big xs = length-forward xs

AllBytes-forward : (xs : List ℕ) → AllBytes xs → AllBytes (forward xs)
AllBytes-forward [] h = tt
AllBytes-forward (x ∷ xs) h = (h.0, AllBytes-forward xs h.1)

AllBytes-backward : (xs : List ℕ) (n : ℕ) → AllBytes xs → AllBytes (backward xs n)
AllBytes-backward xs zero h = tt
AllBytes-backward xs (suc n) h = (get_or-lt xs n h, AllBytes-backward xs n h)

pub forward_lem : (xs : List ℕ) → forward xs ≡ xs
forward_lem [] = refl
forward_lem (x ∷ xs) = ap (◌∷◌ x) (forward_lem xs)

get_or-backward :
    (xs : List ℕ) (n i : ℕ) → i < n → get_or (backward xs n) i 0 ≡ get_or xs (n - 1 - i) 0
get_or-backward xs zero i l = elim l [ ]
get_or-backward xs (suc n) zero l = ap (λ k. get_or xs k 0) (omega arith)
get_or-backward xs (suc n) (suc i) l =
    get_or-backward xs n i (omega arith) ∙ ap (λ k. get_or xs k 0) (omega arith)

drop-length : (xs : List ℕ) → drop (length xs) xs ≡ []
drop-length [] = refl
drop-length (x ∷ xs) = drop-length xs

drop-get_or : (xs : List ℕ) (k : ℕ) → k < length xs → drop k xs ≡ get_or xs k 0 ∷ drop (suc k) xs
drop-get_or [] k l = elim l [ ]
drop-get_or (x ∷ []) zero l = refl
drop-get_or (x ∷ y ∷ xs) zero l = refl
drop-get_or (x ∷ xs) (suc k) l = drop-get_or xs k (omega arith)

backward-backward_part :
    (xs : List ℕ) (m : ℕ)
    → m ≤ length xs
    → backward (backward xs (length xs)) m ≡ drop (length xs - m) xs
backward-backward_part xs zero l = sym (drop-length xs) ∙ ap (λ k. drop k xs) (omega arith)
backward-backward_part xs (suc m) l =
    rw (get_or-backward xs (length xs) m l, backward-backward_part xs m (omega arith))
      (ap (λ k. get_or xs (length xs - 1 - m) 0 ∷ drop k xs) {y = suc (length xs - 1 - m)}
          (omega arith)
        ∙ sym (drop-get_or xs (length xs - 1 - m) (omega arith))
        ∙ ap (λ k. drop k xs) (omega arith))

pub backward-backward : (xs : List ℕ) → backward (backward xs (length xs)) (length xs) ≡ xs
backward-backward xs =
    backward-backward_part xs (length xs) (omega arith) ∙ ap (λ k. drop k xs) {y = 0} (omega arith)

-- Turning the bytes twice gives them back, on either host.
pub memcpy_le-memcpy_le : (o : ByteOrder) (xs : List ℕ) → memcpy_le o (memcpy_le o xs) ≡ xs
unfolding memcpy_le
memcpy_le-memcpy_le ByteOrder.little xs = forward_lem (forward xs) ∙ forward_lem xs
memcpy_le-memcpy_le ByteOrder.big xs = rw (length-backward xs (length xs)) (backward-backward xs)

pub memcpy_be-memcpy_be : (o : ByteOrder) (xs : List ℕ) → memcpy_be o (memcpy_be o xs) ≡ xs
unfolding memcpy_be
memcpy_be-memcpy_be ByteOrder.little xs = rw (length-backward xs (length xs)) (backward-backward xs)
memcpy_be-memcpy_be ByteOrder.big xs = forward_lem (forward xs) ∙ forward_lem xs

pub AllBytes-memcpy_le : (o : ByteOrder) (xs : List ℕ) → AllBytes xs → AllBytes (memcpy_le o xs)
unfolding memcpy_le
AllBytes-memcpy_le ByteOrder.little xs h = AllBytes-forward xs h
AllBytes-memcpy_le ByteOrder.big xs h = AllBytes-backward xs (length xs) h

pub AllBytes-memcpy_be : (o : ByteOrder) (xs : List ℕ) → AllBytes xs → AllBytes (memcpy_be o xs)
unfolding memcpy_be
AllBytes-memcpy_be ByteOrder.little xs h = AllBytes-backward xs (length xs) h
AllBytes-memcpy_be ByteOrder.big xs h = AllBytes-forward xs h
