-- ===== src/Process/Freed.antt =====
-- The arrays of a process that is spawned are freed one after another.
use mathlib.Core.Path.{fun_ext}
use couv.Prelude.{
  ℕ, ◌≡◌, ◌≢◌, ◌⊎◌, inl, inr, refl, true, false, Option, none, some, List, ◌∷◌, arith,
}
use couv.Prelude.CInt.{to_uint}
use couv.Lua.{ok}
use couv.Request.{Memory, mark, free}
use couv.Process.{Options, UvOptions, Container, State, release, terminated}
use couv.Process.Start.{file_or, free_strings, free_stdio, strings_of, containers_of}
use couv.Process.Arrays.{made, made_stdio, held}

-- The program's file, which is its first argument where it is left out.
abbrev pub file_of : Option (List ℕ) → List ℕ → List ℕ
file_of none x = x
file_of (some file) x = file

-- What libuv is asked for.
abbrev pub asked :
    Options → List ℕ → List (List ℕ) → Option (List (List ℕ)) → Option (List Container) → UvOptions
asked o x xs env? stdio? = record {
  args = some (terminated (x ∷ xs));
  file = some (file_of o.file x);
  env = strings_of (made 0 env?);
  cwd = o.cwd;
  flags = to_uint o.flags;
  uid = to_uint o.uid;
  gid = to_uint o.gid;
  stdio = stdio?;
}

pub file_or_lem :
    (file? : Option (List ℕ)) (p : ℕ) (x : List ℕ) (xs : List (List ℕ)) (s : State)
    → file_or file? (made p (some (x ∷ xs))) s ≡ ok (some (file_of file? x)) s
file_or_lem none p x xs s = refl
file_or_lem (some file) p x xs s = refl

pub strings_of-made :
    (p : ℕ) (xs? : Option (List (List ℕ))) → strings_of (made p xs?) ≡ strings_of (made 0 xs?)
strings_of-made p none = refl
strings_of-made p (some xs) = refl

pub containers_of-made :
    (p : ℕ) (cs? : Option (List Container)) → containers_of (made_stdio p cs?) ≡ cs?
containers_of-made p none = refl
containers_of-made p (some cs) = refl

-- Memory after `couv_free` of an array, if there is one.
abbrev pub let_go : {A : Type 0} → ℕ → Option A → Memory → Memory
let_go p none m = m
let_go p (some x) m = mark m p false

pub free_strings_lem :
    (p : ℕ) (xs? : Option (List (List ℕ))) (s : State)
    → s.memory p ≡ true ⊎ (xs? ≡ none)
    → free_strings (made p xs?) s ≡ ok tt (record s { memory = let_go p xs? s.memory })
unfolding release free
free_strings_lem p none s h = refl
free_strings_lem p (some xs) s (inl e) = rw e refl
free_strings_lem p (some xs) s (inr e) = absurd (let bad : some xs ≡ none = e in cc)

pub free_stdio_lem :
    (p : ℕ) (cs? : Option (List Container)) (s : State)
    → s.memory p ≡ true ⊎ (cs? ≡ none)
    → free_stdio (made_stdio p cs?) s ≡ ok tt (record s { memory = let_go p cs? s.memory })
unfolding release free
free_stdio_lem p none s h = refl
free_stdio_lem p (some xs) s (inl e) = rw e refl
free_stdio_lem p (some xs) s (inr e) = absurd (let bad : some xs ≡ none = e in cc)

-- Memory with the three arrays.
abbrev pub full :
    Memory → (pa pe ps : ℕ) → Option (List (List ℕ)) → Option (List Container) → Memory
full m pa pe ps e? c? = held ps c? (held pe e? (mark m pa true))

module _ (m : Memory) (pa pe ps : ℕ) (apart_ae : pa ≢ pe) (apart_as : pa ≢ ps) (apart_es : pe ≢ ps)
    (free_a : m pa ≡ false) (free_e : m pe ≡ false) (free_s : m ps ≡ false)
    (e? : Option (List (List ℕ))) (c? : Option (List Container)) where
  pub full-args : full m pa pe ps e? c? pa ≡ true
  full-args = go e? c?
    where
      go :
          (a : Option (List (List ℕ))) (b : Option (List Container)) → full m pa pe ps a b pa ≡ true
      go none none = ground arith
      go none (some b) = ground arith
      go (some a) none = ground arith
      go (some a) (some b) = ground arith

  pub args_freed-env : (mark (full m pa pe ps e? c?) pa false pe ≡ true) ⊎ (e? ≡ none)
  args_freed-env = go e? c?
    where
      go :
          (a : Option (List (List ℕ))) (b : Option (List Container))
          → (mark (full m pa pe ps a b) pa false pe ≡ true) ⊎ (a ≡ none)
      go none b = inr refl
      go (some a) none = inl (ground arith)
      go (some a) (some b) = inl (ground arith)

  pub env_freed-stdio :
      (let_go pe e? (mark (full m pa pe ps e? c?) pa false) ps ≡ true) ⊎ (c? ≡ none)
  env_freed-stdio = go e? c?
    where
      go :
          (a : Option (List (List ℕ))) (b : Option (List Container))
          → (let_go pe a (mark (full m pa pe ps a b) pa false) ps ≡ true) ⊎ (b ≡ none)
      go a none = inr refl
      go none (some b) = inl (ground arith)
      go (some a) (some b) = inl (ground arith)

  pub all_freed : let_go ps c? (let_go pe e? (mark (full m pa pe ps e? c?) pa false)) ≡ m
  all_freed = fun_ext λ q. go e? c? q
    where
      go :
          (a : Option (List (List ℕ))) (b : Option (List Container)) (q : ℕ)
          → let_go ps b (let_go pe a (mark (full m pa pe ps a b) pa false)) q ≡ m q
      go none none q = ground arith
      go none (some b) q = ground arith
      go (some a) none q = ground arith
      go (some a) (some b) q = ground arith
