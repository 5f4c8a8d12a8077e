-- ===== src/Class/Hierarchy.antt =====
-- Userdata passes the test of its class and of the super classes of that, and of no other.
use couv.Prelude.{
  ℕ, ◌-◌, ◌==◌, ◌≡◌, refl, ◌∙◌, ap, inl, inr, Bool-cases, Bool, true, false, ◌||◌, Option, none,
  some, List, [], ◌∷◌, arith,
}
use couv.Class.{Tables, go_on, newmetatable, walk, testudataclass}
use couv.Class.Open.{
  ClassName, name_number, number_of, object_at, userdata, luaopen_couv_native, luaopen_couv_buffer,
  luaopen_couv_fs, luaopen_couv_sockaddr, luaopen_couv_handle, luaopen_couv_process,
  luaopen_couv_timer, luaopen_couv_udp, luaopen_couv_stream, luaopen_couv_pipe, luaopen_couv_tcp,
  luaopen_couv_tty,
}

-- A class and the classes above it.
abbrev pub lineage : ClassName → List ClassName
lineage ClassName.buffer = ClassName.buffer ∷ []
lineage ClassName.fs_stat = ClassName.fs_stat ∷ []
lineage ClassName.sock_addr = ClassName.sock_addr ∷ []
lineage ClassName.sock_addr_v4 = ClassName.sock_addr_v4 ∷ ClassName.sock_addr ∷ []
lineage ClassName.sock_addr_v6 = ClassName.sock_addr_v6 ∷ ClassName.sock_addr ∷ []
lineage ClassName.handle = ClassName.handle ∷ []
lineage ClassName.process = ClassName.process ∷ ClassName.handle ∷ []
lineage ClassName.timer = ClassName.timer ∷ ClassName.handle ∷ []
lineage ClassName.udp = ClassName.udp ∷ ClassName.handle ∷ []
lineage ClassName.stream = ClassName.stream ∷ ClassName.handle ∷ []
lineage ClassName.pipe = ClassName.pipe ∷ ClassName.stream ∷ ClassName.handle ∷ []
lineage ClassName.tcp = ClassName.tcp ∷ ClassName.stream ∷ ClassName.handle ∷ []
lineage ClassName.tty = ClassName.tty ∷ ClassName.stream ∷ ClassName.handle ∷ []

abbrev tail : List ClassName → List ClassName
tail [] = []
tail (c ∷ cs) = cs

abbrev pub has : List ClassName → ClassName → Bool
has [] d = false
has (c ∷ cs) d = name_number c == name_number d || has cs d

-- Userdata of class `c` is a `d`.
abbrev pub is_a : Option ClassName → ClassName → Bool
is_a none d = false
is_a (some c) d = has (lineage c) d

-- The classes above `c` have `d`.
abbrev above : ClassName → ClassName → Bool
above c d = has (tail (lineage c)) d

module _ (classes : ℕ → Option ClassName) where
  abbrev pub opened : Tables
  opened = luaopen_couv_native (userdata classes)

  metatable-opened : (k : ℕ) → opened.metatable (object_at k) ≡ number_of (classes k)
  unfolding luaopen_couv_native luaopen_couv_buffer luaopen_couv_fs luaopen_couv_sockaddr
      luaopen_couv_handle luaopen_couv_process luaopen_couv_timer luaopen_couv_udp
      luaopen_couv_stream luaopen_couv_pipe luaopen_couv_tcp luaopen_couv_tty newmetatable
  metatable-opened k = let e : object_at k - 13 ≡ k = omega arith in ground arith

  registry-opened : (d : ClassName) → opened.registry (name_number d) ≡ some (name_number d)
  unfolding luaopen_couv_native luaopen_couv_buffer luaopen_couv_fs luaopen_couv_sockaddr
      luaopen_couv_handle luaopen_couv_process luaopen_couv_timer luaopen_couv_udp
      luaopen_couv_stream luaopen_couv_pipe luaopen_couv_tcp luaopen_couv_tty newmetatable
  registry-opened ClassName.buffer = refl
  registry-opened _ = refl

  walk-opened :
      (c d : ClassName) → walk 4 opened (name_number c) (some (name_number d)) ≡ some (above c d)
  unfolding luaopen_couv_native luaopen_couv_buffer luaopen_couv_fs luaopen_couv_sockaddr
      luaopen_couv_handle luaopen_couv_process luaopen_couv_timer luaopen_couv_udp
      luaopen_couv_stream luaopen_couv_pipe luaopen_couv_tcp luaopen_couv_tty newmetatable walk
  walk-opened ClassName.buffer d = ground arith
  walk-opened _ d = ground arith

  lineage-is_a : (c d : ClassName) → is_a (some c) d ≡ (name_number c == name_number d || above c d)
  lineage-is_a ClassName.buffer d = refl
  lineage-is_a _ d = refl

  from_class :
      (c? : Option ClassName) (d : ClassName)
      → go_on (number_of c?) (some (name_number d)) (λ m. walk 4 opened m (some (name_number d)))
        ≡ some (is_a c? d)
  from_class none d = refl
  from_class (some c) d = elim (Bool-cases (name_number c == name_number d)) [
    | inl e ↦ rw (lineage-is_a c d, e) refl
    | inr e ↦ rw (lineage-is_a c d, e) (walk-opened c d)
  ]

  -- After `luaopen_couv_native`, userdata of any class passes the test of a class exactly if that
  -- is its class or stands above it, userdata of no class passes none, and in each case the test
  -- ends within five steps.
  pub classes_nest :
      (k : ℕ) (d : ClassName)
      → testudataclass 5 opened true (object_at k) (name_number d) ≡ some (is_a (classes k) d)
  unfolding testudataclass walk
  classes_nest k d = rw (registry-opened d) (walk-object k d ∙ from_class (classes k) d)
    where
      walk-object :
          (k : ℕ) (d : ClassName)
          → walk 5 opened (object_at k) (some (name_number d))
            ≡ go_on
                (number_of (classes k))
                (some (name_number d))
                (λ m. walk 4 opened m (some (name_number d)))
      walk-object k d =
          ap (λ o. go_on o (some (name_number d)) (λ m. walk 4 opened m (some (name_number d))))
            (metatable-opened k)
