-- ===== src/Process/Wanted.antt =====
-- Environments and containers that are read, and as what.
use couv.Prelude.{ℕ, ◌==◌, ◌≡◌, ◌≢◌, refl, true, false, Option, none, some, List, [], ◌∷◌, arith}
use couv.Prelude.Int.{negsuc}
use couv.Prelude.CInt.{to_int}
use couv.Lua.{ok}
use couv.Class.Open.{ClassName}
use couv.Class.Hierarchy.{is_a, classes_nest}
use couv.Request.{mark, alloc}
use couv.Method.{Arg, checkudataclass}
use couv.Process.{
  Strings, Stdio, Elem, ContainerArg, Container, Source, State, allocate, all_strings,
  tonullterminatedstrarray, source_in, container_in, containers_in, checkstdiocontainers,
}
use couv.Process.Arrays.{made, made_stdio, held, strings_are_copied}

-- An environment is left out, or is these strings.
abbrev pub EnvIs : Strings → Option (List (List ℕ)) → Type 0
EnvIs Strings.nil none = Unit {0}
EnvIs Strings.nil (some xs) = ⊥
EnvIs (Strings.array items) none = ⊥
EnvIs (Strings.array items) (some xs) = all_strings items ≡ some xs
EnvIs Strings.other e? = ⊥

pub EnvIs-made :
    (s : State) (p : ℕ)
    → p ≢ 0
    → s.memory p ≡ false
    → (v : Strings) (e? : Option (List (List ℕ))) → EnvIs v e?
    → tonullterminatedstrarray p v s ≡ ok (made p e?) (record s { memory = held p e? s.memory })
unfolding tonullterminatedstrarray
EnvIs-made s p real unused Strings.nil none e = refl
EnvIs-made s p real unused Strings.nil (some xs) e = absurd e
EnvIs-made s p real unused (Strings.array items) none e = absurd e
EnvIs-made s p real unused (Strings.array items) (some xs) e =
    strings_are_copied s p real unused items xs e
EnvIs-made s p real unused Strings.other e? e = absurd e

-- A container is flags alone, or flags with a file descriptor or with a stream.
abbrev pub ContainerIs : (ℕ → Option ClassName) → ContainerArg → Container → Type 0
ContainerIs classes (ContainerArg.table (Elem.number n ∷ [])) c =
    c ≡ record { flags = to_int n; source = Source.unset }
ContainerIs classes (ContainerArg.table (Elem.number n ∷ Elem.number fd ∷ [])) c =
    c ≡ record { flags = to_int n; source = Source.fd (to_int fd) }
ContainerIs classes (ContainerArg.table (Elem.number n ∷ Elem.userdata k ∷ [])) c =
    (is_a (classes k) ClassName.stream ≡ true)
    × (c ≡ record { flags = to_int n; source = Source.stream k })
ContainerIs classes a c = ⊥

abbrev pub ContainersAre : (ℕ → Option ClassName) → List ContainerArg → List Container → Type 0
ContainersAre classes [] [] = Unit {0}
ContainersAre classes [] (c ∷ cs) = ⊥
ContainersAre classes (a ∷ es) [] = ⊥
ContainersAre classes (a ∷ es) (c ∷ cs) = ContainerIs classes a c × ContainersAre classes es cs

abbrev pub StdioIs : (ℕ → Option ClassName) → Stdio → Option (List Container) → Type 0
StdioIs classes Stdio.nil none = Unit {0}
StdioIs classes Stdio.nil (some cs) = ⊥
StdioIs classes (Stdio.table es) none = ⊥
StdioIs classes (Stdio.table es) (some cs) = ContainersAre classes es cs
StdioIs classes Stdio.other c? = ⊥

module _ (classes : ℕ → Option ClassName) (s : State) where
  a_stream :
      (k : ℕ)
      → is_a (classes k) ClassName.stream ≡ true
      → checkudataclass classes (negsuc 0) (Arg.userdata k) ClassName.stream s ≡ ok k s
  unfolding checkudataclass
  a_stream k e = rw (classes_nest classes k ClassName.stream, e) refl

  ContainerIs-read :
      (a : ContainerArg) (c : Container)
      → ContainerIs classes a c
      → container_in classes a s ≡ ok c s
  unfolding container_in source_in
  ContainerIs-read (ContainerArg.table (Elem.number n ∷ [])) c e = rw e refl
  ContainerIs-read (ContainerArg.table (Elem.number n ∷ Elem.number fd ∷ [])) c e = rw e refl
  ContainerIs-read (ContainerArg.table (Elem.number n ∷ Elem.userdata k ∷ [])) c (m, e) =
      rw (a_stream k m, e) refl
  ContainerIs-read _ c e = absurd e

  ContainersAre-read :
      (as' : List ContainerArg) (cs : List Container)
      → ContainersAre classes as' cs
      → containers_in classes as' s ≡ ok cs s
  unfolding containers_in
  ContainersAre-read [] [] e = refl
  ContainersAre-read [] (c ∷ cs) e = absurd e
  ContainersAre-read (a ∷ as') [] e = absurd e
  ContainersAre-read (a ∷ as') (c ∷ cs) e =
      rw (ContainerIs-read a c e.0, ContainersAre-read as' cs e.1) refl

pub StdioIs-made :
    (classes : ℕ → Option ClassName) (s : State) (p : ℕ)
    → p ≢ 0
    → (v : Stdio) (c? : Option (List Container)) → StdioIs classes v c?
    → checkstdiocontainers classes p v s
      ≡ ok (made_stdio p c?) (record s { memory = held p c? s.memory })
unfolding checkstdiocontainers allocate alloc
StdioIs-made classes s p real Stdio.nil none e = refl
StdioIs-made classes s p real Stdio.nil (some cs) e = absurd e
StdioIs-made classes s p real (Stdio.table es) none e = absurd e
StdioIs-made classes s p real (Stdio.table es) (some cs) e =
    let null : (p == 0) ≡ false = ground arith in
    rw (null, ContainersAre-read classes (record s { memory = mark s.memory p true }) es cs e) refl
StdioIs-made classes s p real Stdio.other c? e = absurd e
