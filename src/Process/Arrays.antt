-- ===== src/Process/Arrays.antt =====
-- What the readers of arrays return, raise and leave allocated.
use couv.Prelude.{
  ℕ, ◌==◌, ◌≡◌, ◌≢◌, ◌⊎◌, inl, inr, refl, true, false, Option, none, some, List, [], ◌∷◌, length,
  arith, Option-cases,
}
use couv.Prelude.Int.{negsuc}
use couv.Prelude.CInt.{to_int}
use couv.Lua.{Call, and_then, class_error, Run, Error, ok, raised, top_error, arg_error}
use couv.Class.Open.{ClassName, name_number}
use couv.Request.{Memory, mark, alloc, free}
use couv.Request.Life.{mark-mark}
use couv.Method.{Arg, checkudataclass}
use couv.Method.Typed.{check-of}
use couv.Process.{
  Strings, Stdio, Elem, ContainerArg, Container, StrArray, StdioArray, Source, State, allocate,
  release, all_strings, terminated, tonullterminatedstrarray, number_in, source_in, container_in,
  containers_in, checkstdiocontainers, stdio_inval_elem,
}

-- The array of some strings at an address, or NULL.
abbrev pub made : ℕ → Option (List (List ℕ)) → Option StrArray
made p none = none
made p (some xs) = some (record { address = p; strings = terminated xs; count = length xs })

abbrev pub made_stdio : ℕ → Option (List Container) → Option StdioArray
made_stdio p none = none
made_stdio p (some cs) = some (record { address = p; containers = cs })

-- Memory with the array, if there is one.
abbrev pub held : {A : Type 0} → ℕ → Option A → Memory → Memory
held p none m = m
held p (some x) m = mark m p true

module _ (s : State) (p : ℕ) (real : p ≢ 0) (unused : s.memory p ≡ false) where
  not_null : (p == 0) ≡ false
  not_null = ground arith

  self : (p == p) ≡ true
  self = ground arith

  -- A table of strings becomes an array of them with a NULL behind.
  pub strings_are_copied :
      (items : List (Option (List ℕ))) (xs : List (List ℕ))
      → all_strings items ≡ some xs
      → tonullterminatedstrarray p (Strings.array items) s
        ≡ ok (made p (some xs)) (record s { memory = mark s.memory p true })
  unfolding tonullterminatedstrarray allocate alloc
  strings_are_copied items xs e = rw (not_null, e) refl

  -- A table with another value raises an error, and its array is freed.
  pub other_string_is_freed :
      (items : List (Option (List ℕ)))
      → all_strings items ≡ none
      → tonullterminatedstrarray p (Strings.array items) s
        ≡ raised (top_error "must be nil or array of strings") s
  unfolding tonullterminatedstrarray allocate alloc release free
  other_string_is_freed items e = rw (not_null, e, self, mark-mark s.memory p unused) refl

  pub strings-cases :
      (v : Strings)
      → ((e : Error) × (tonullterminatedstrarray p v s ≡ raised e s))
        ⊎ ((xs? : Option (List (List ℕ))) × (tonullterminatedstrarray p v s
              ≡ ok (made p xs?) (record s { memory = held p xs? s.memory })))
  unfolding tonullterminatedstrarray
  strings-cases Strings.nil = inr (none, refl)
  strings-cases Strings.other = inl (top_error "must be nil or array of strings", refl)
  strings-cases (Strings.array items) = elim (Option-cases (all_strings items)) [
    | inl e ↦ inl (top_error "must be nil or array of strings", other_string_is_freed items e)
    | inr (xs, e) ↦ inr (some xs, strings_are_copied items xs e)
  ]

-- A reader that changes nothing.
abbrev Same : {A : Type 0} → Run State A → State → Type 0
Same {A} r s = ((e : Error) × (r ≡ raised e s)) ⊎ ((a : A) × (r ≡ ok a s))

Same-and_then :
    {A B : Type 0} (r : Run State A) (s : State) (k : A → Call State B)
    → Same r s
    → ((a : A) → Same (k a s) s)
    → Same (and_then r k) s
Same-and_then r s k (inl (e, f)) h = inl (e, rw f refl)
Same-and_then r s k (inr (a, f)) h = rw f (h a)

module _ (classes : ℕ → Option ClassName) (s : State) where
  number_in-Same : (e : Elem) → Same (number_in e s) s
  number_in-Same (Elem.number n) = inr (n, refl)
  number_in-Same (Elem.numeral n) = inr (n, refl)
  number_in-Same (Elem.userdata k) = inl (stdio_inval_elem, refl)
  number_in-Same Elem.other = inl (stdio_inval_elem, refl)

  stream-Same : (a : Arg) → Same (checkudataclass classes (negsuc 0) a ClassName.stream s) s
  stream-Same a = elim (check-of classes (negsuc 0) a ClassName.stream s) [
    | inl (k, _, _, r) ↦ inr (k, r)
    | inr (_, r) ↦ inl (class_error (negsuc 0) (name_number ClassName.stream), r)
  ]

  source_in-Same : (e : Elem) → Same (source_in classes e s) s
  unfolding source_in
  source_in-Same (Elem.number n) = inr (Source.fd (to_int n), refl)
  source_in-Same (Elem.numeral n) = inr (Source.unset, refl)
  source_in-Same (Elem.userdata k) =
      Same-and_then _ s _ (stream-Same (Arg.userdata k)) (λ h. inr (Source.stream h, refl))
  source_in-Same Elem.other = inr (Source.unset, refl)

  container_in-Same : (c : ContainerArg) → Same (container_in classes c s) s
  unfolding container_in
  container_in-Same (ContainerArg.table (e ∷ [])) =
      Same-and_then _ s _ (number_in-Same e) (λ n. inr (_, refl))
  container_in-Same (ContainerArg.table (e ∷ f ∷ [])) =
      Same-and_then _ s _ (number_in-Same e)
        (λ n. Same-and_then _ s _ (source_in-Same f) (λ x. inr (_, refl)))
  container_in-Same (ContainerArg.table []) = inl (_, refl)
  container_in-Same (ContainerArg.table (e ∷ f ∷ g ∷ es)) = inl (_, refl)
  container_in-Same ContainerArg.other = inl (_, refl)

  containers_in-Same : (cs : List ContainerArg) → Same (containers_in classes cs s) s
  unfolding containers_in
  containers_in-Same [] = inr ([], refl)
  containers_in-Same (c ∷ cs) =
      Same-and_then _ s _ (container_in-Same c)
        (λ x. Same-and_then _ s _ (containers_in-Same cs) (λ xs. inr (x ∷ xs, refl)))

module _ (classes : ℕ → Option ClassName) (s : State) (p : ℕ) (real : p ≢ 0) where
  -- An error of an element comes after the array is allocated.
  pub stdio-cases :
      (v : Stdio)
      → ((e : Error) × (m : Memory) × ((m ≡ s.memory) ⊎ (m ≡ mark s.memory p true))
          × (checkstdiocontainers classes p v s ≡ raised e (record s { memory = m })))
        ⊎ ((cs? : Option (List Container)) × (checkstdiocontainers classes p v s
              ≡ ok (made_stdio p cs?) (record s { memory = held p cs? s.memory })))
  unfolding checkstdiocontainers allocate alloc
  stdio-cases Stdio.nil = inr (none, refl)
  stdio-cases Stdio.other =
      inl (arg_error 1 "value at \"stdio\" key must be nil or table", s.memory, inl refl, refl)
  stdio-cases (Stdio.table cs) =
      elim (containers_in-Same classes (record s { memory = mark s.memory p true }) cs) [
        | inl (e, f) ↦ inl (e, mark s.memory p true, inr refl, rw (null, f) refl)
        | inr (xs, f) ↦ inr (some xs, rw (null, f) refl)
      ]
    where
      null : (p == 0) ≡ false
      null = ground arith
