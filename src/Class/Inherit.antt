-- ===== src/Class/Inherit.antt =====
-- Testing a class decides whether the class is among the ancestors of the userdata's metatable.
use couv.Prelude.{
  ℕ, suc, ◌==◌, ◌≡◌, ◌≢◌, refl, sym, ap, ◌∙◌, Bool, true, false, Option, none, some, arith,
}
use mathlib.Core.Path.{subst}
use couv.Lua.{opt}
use native.Mathlib.Decide.{ℕ_discrete}
use couv.Class.{Tables, walk, testudataclass}

-- A metatable is an ancestor of an object.
pub data Inherits (s : Tables) : ℕ → ℕ → Type 0 where
  direct : {object t : ℕ} → s.metatable object ≡ some t → Inherits s object t
  parent : {object m t : ℕ} → s.metatable object ≡ some m → Inherits s m t → Inherits s object t

-- The metatables over an object come to an end within `n` steps.
pub data Ends (s : Tables) : ℕ → ℕ → Type 0 where
  top : {object n : ℕ} → s.metatable object ≡ none → Ends s object n
  below : {object m n : ℕ} → s.metatable object ≡ some m → Ends s m n → Ends s object (suc n)

-- A Boolean answer to whether `t` is an ancestor.
abbrev pub Decides : Tables → ℕ → ℕ → Bool → Type 0
Decides s object t true = Inherits s object t
Decides s object t false = Inherits s object t → ⊥

some-same : {a b : ℕ} → some a ≡ some b → a ≡ b
some-same {a} e = ap (λ o. opt o a) e

no_parent : {s : Tables} {object t : ℕ} → s.metatable object ≡ none → Inherits s object t → ⊥
no_parent {t = t} e (Inherits.direct f) =
    let bad : ◌≡◌ {A = Option ℕ} none (some t) = sym e ∙ f in cc
no_parent e (Inherits.parent {m = m} f i) =
    let bad : ◌≡◌ {A = Option ℕ} none (some m) = sym e ∙ f in cc

not_yet :
    {s : Tables} {object m t : ℕ}
    → s.metatable object ≡ some m
    → m ≢ t
    → (Inherits s m t → ⊥)
    → Inherits s object t
    → ⊥
not_yet e ne above (Inherits.direct f) = ne (some-same (sym e ∙ f))
not_yet {s = s} {t = t} e ne above (Inherits.parent f i) =
    above (subst (λ k. Inherits s k t) (some-same (sym f ∙ e)) i)

walk_lem :
    (s : Tables) (object t n : ℕ)
    → Ends s object n
    → (b : Bool) × (walk (suc n) s object (some t) ≡ some b) × Decides s object t b
unfolding walk
walk_lem s object t n (Ends.top e) = (false, rw e refl, no_parent e)
walk_lem s object t (suc n) (Ends.below {m = m} e d) = go (ℕ_discrete m t) (walk_lem s m t n d)
  where
    go :
        Dec (m ≡ t)
        → (b : Bool) × (walk (suc n) s m (some t) ≡ some b) × Decides s m t b
        → (b : Bool) × (walk (suc (suc n)) s object (some t) ≡ some b) × Decides s object t b
    go (yes same) rest =
        let found : (m == t) ≡ true = ground arith in
        (true, rw (e, found) refl, Inherits.direct (e ∙ ap some same))
    go (no ne) (true, r, i) =
        let other : (m == t) ≡ false = ground arith in (true, rw (e, other) r, Inherits.parent e i)
    go (no ne) (false, r, i) =
        let other : (m == t) ≡ false = ground arith in (false, rw (e, other) r, not_yet e ne i)

-- For a userdata over which there are at most `n` metatables, and a registered class, the test
-- comes to an end within `n` steps and one, and it answers yes exactly if the class is one of the
-- metatables over the userdata.
pub class_test_answers :
    (s : Tables) (object tname t n : ℕ)
    → s.registry tname ≡ some t
    → Ends s object n
    → (b : Bool) × (testudataclass (suc n) s true object tname ≡ some b) × Decides s object t b
unfolding testudataclass
class_test_answers s object tname t n e d = rw e (walk_lem s object t n d)
