-- ===== src/Prelude/Bytes.antt =====
-- Lists of bytes.
use Prim.Native.Nat.{ℕ, zero, suc, ◌+◌, ◌≤◌, ◌<◌}
use mathlib.Core.List.{List, [], ◌∷◌, ◌++◌, append_assoc}
use native.Mathlib.Omega.{arith}
use mathlib.Core.Path.{◌≡◌, refl, sym, ap, ap₂, ◌∙◌}
use mathlib.Core.Logic.{◌≢◌}
use mathlib.Core.Bool.{Bool, true, ◌||◌}
use native.Mathlib.Nat.{add-zero}
use couv.Prelude.Tests.{ltb, leb}
use couv.Prelude.Lists.{length, length-append, get_or, set, length-set}

-- Every element is a byte.
abbrev pub AllBytes : List ℕ → Type 0
AllBytes [] = Unit {0}
AllBytes (x ∷ xs) = (x < 256) × AllBytes xs

-- What lies outside reads as 0.
pub get_or-lt : (xs : List ℕ) (i : ℕ) → AllBytes xs → get_or xs i 0 < 256
get_or-lt [] i h = omega arith
get_or-lt (x ∷ xs) zero h = h.0
get_or-lt (x ∷ xs) (suc i) h = get_or-lt xs i h.1

pub AllBytes-set : (xs : List ℕ) (i x : ℕ) → x < 256 → AllBytes xs → AllBytes (set xs i x)
AllBytes-set [] i x b h = h
AllBytes-set (y ∷ xs) zero x b h = (b, h.1)
AllBytes-set (y ∷ xs) (suc i) x b h = (h.0, AllBytes-set xs i x b h.1)

-- `xs` put over a list from an index on: `*q++ = x` for each of them.
abbrev pub blit : List ℕ → ℕ → List ℕ → List ℕ
blit mem i [] = mem
blit mem i (x ∷ xs) = blit (set mem i x) (suc i) xs

pub length-blit : (mem : List ℕ) (i : ℕ) (xs : List ℕ) → length (blit mem i xs) ≡ length mem
length-blit mem i [] = refl
length-blit mem i (x ∷ xs) = length-blit (set mem i x) (suc i) xs ∙ length-set mem i x

pub AllBytes-blit :
    (mem : List ℕ) (i : ℕ) (xs : List ℕ) → AllBytes xs → AllBytes mem → AllBytes (blit mem i xs)
AllBytes-blit mem i [] b h = h
AllBytes-blit mem i (x ∷ xs) b h =
    AllBytes-blit (set mem i x) (suc i) xs b.1 (AllBytes-set mem i x b.0 h)

get_or-set_self : (xs : List ℕ) (i v : ℕ) → i < length xs → get_or (set xs i v) i 0 ≡ v
get_or-set_self [] i v h = elim h [ ]
get_or-set_self (x ∷ xs) zero v h = refl
get_or-set_self (x ∷ xs) (suc i) v h = get_or-set_self xs i v (omega arith)

get_or-set_ne : (xs : List ℕ) (i j v : ℕ) → i ≢ j → get_or (set xs i v) j 0 ≡ get_or xs j 0
get_or-set_ne [] i j v h = refl
get_or-set_ne (x ∷ xs) zero zero v h = absurd (h refl)
get_or-set_ne (x ∷ xs) zero (suc j) v h = refl
get_or-set_ne (x ∷ xs) (suc i) zero v h = refl
get_or-set_ne (x ∷ xs) (suc i) (suc j) v h = get_or-set_ne xs i j v (λ e. h (ap suc e))

-- An index is not among those that `n` bytes from `i` on are put over.
abbrev pub outside : ℕ → ℕ → ℕ → Bool
outside i n j = ltb j i || leb (i + n) j

pub get_or-blit-outside :
    (mem : List ℕ) (i : ℕ) (xs : List ℕ) (j : ℕ)
    → outside i (length xs) j ≡ true
    → get_or (blit mem i xs) j 0 ≡ get_or mem j 0
get_or-blit-outside mem i [] j h = refl
get_or-blit-outside mem i (x ∷ xs) j h =
    get_or-blit-outside (set mem i x) (suc i) xs j (ground arith)
    ∙ get_or-set_ne mem i j x (λ e. ground arith)

pub get_or-blit :
    (mem : List ℕ) (i : ℕ) (xs : List ℕ) (k : ℕ)
    → i + length xs ≤ length mem
    → k < length xs
    → get_or (blit mem i xs) (i + k) 0 ≡ get_or xs k 0
get_or-blit mem i [] k h l = elim l [ ]
get_or-blit mem i (x ∷ xs) zero h l = rw (add-zero) (
    get_or-blit-outside (set mem i x) (suc i) xs i (ground arith)
    ∙ get_or-set_self mem i x (omega arith))
get_or-blit mem i (x ∷ xs) (suc k) h l =
    ap (λ j. get_or (blit mem i (x ∷ xs)) j 0) (step i k)
    ∙ get_or-blit (set mem i x) (suc i) xs k (omega (arith, length-set mem i x)) (omega arith)
  where
    step : (i k : ℕ) → i + suc k ≡ suc i + k
    step i k = omega arith

set-append : (pre old : List ℕ) (o x : ℕ) → set (pre ++ o ∷ old) (length pre) x ≡ pre ++ x ∷ old
set-append [] old o x = refl
set-append (p ∷ pre) old o x = ap (◌∷◌ p) (set-append pre old o x)

blit-append :
    (pre old xs : List ℕ) → length old ≡ length xs → blit (pre ++ old) (length pre) xs ≡ pre ++ xs
blit-append pre [] [] e = refl
blit-append pre [] (x ∷ xs) e = absurd (omega arith)
blit-append pre (o ∷ old) [] e = absurd (omega arith)
blit-append pre (o ∷ old) (x ∷ xs) e = rw (set-append pre old o x) (
    ap₂ (λ l n. blit l n xs) (sym (append_assoc pre (x ∷ []) old))
      (omega (arith, length-append pre (x ∷ [])))
    ∙ blit-append (pre ++ x ∷ []) old xs (omega arith)
    ∙ append_assoc pre (x ∷ []) xs)

-- Bytes put over a list of their own length replace it.
pub blit_all : (old xs : List ℕ) → length old ≡ length xs → blit old 0 xs ≡ xs
blit_all old xs e = blit-append [] old xs e
