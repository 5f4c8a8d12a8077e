-- ===== src/Process/Spawn.antt =====
-- A process that is spawned: an error leaves an array allocated, and success leaves none.
use couv.Prelude.{
  ℕ, ◌==◌, ◌≡◌, ◌≢◌, ◌⊎◌, inl, inr, refl, true, false, Option, none, some, List, ◌∷◌, length,
  String, arith, Bool-cases, if◌then◌else◌,
}
use couv.Prelude.Int.{ℤ, pos, ltb_ℤ}
use couv.Lua.{Call, raise, ◌>>=◌, ◌>>◌, Run, ok, raised, fault, lua_error}
use couv.Class.Open.{ClassName}
use couv.Handle.{Value, put, userdata_key, callback_key}
use couv.Request.{Memory, mark}
use couv.Process.{Strings, Options, OptionsArg, UvOptions, Container, State, all_strings}
use couv.Process.Start.{
  set_exit_cb, free_strings, free_stdio, rawsetp, strings_of, containers_of, spawn,
  couv_process_spawn,
}
use couv.Process.Freed.{
  asked, file_or_lem, strings_of-made, containers_of-made, let_go, free_strings_lem, free_stdio_lem,
  full, full-args, args_freed-env, env_freed-stdio, all_freed,
}
use couv.Process.Wanted.{EnvIs, StdioIs, EnvIs-made, StdioIs-made}
use couv.Process.Arrays.{made, made_stdio, held, strings_are_copied, strings-cases, stdio-cases}

-- A spawned process has freed its arrays; an error leaves that of the args allocated.
abbrev pub FreesOrLeaks : Memory → ℕ → Run State (Unit {0}) → Type 0
FreesOrLeaks m pa (ok u t) = t.memory ≡ m
FreesOrLeaks m pa (raised e t) = t.memory pa ≡ true
FreesOrLeaks m pa fault = ⊥

-- The state when the process runs.
abbrev pub running :
    (co h : ℕ)
    → Options
    → List ℕ
    → List (List ℕ)
    → Option (List (List ℕ))
    → Option (List Container)
    → (cb : ℕ) → State
    → State
running co h o x xs e? c? cb s = record {
  memory = s.memory;
  registry =
      put (put s.registry (callback_key h) (some (Value.callback cb))) (userdata_key h)
        (some (Value.userdata h));
  owner = λ q. if q == h then co else s.owner q;
  spawned = asked o x xs e? c? ∷ s.spawned;
}

-- The state when libuv is asked.
abbrev asking :
    (pa pe ps h : ℕ)
    → Options
    → List ℕ
    → List (List ℕ)
    → Option (List (List ℕ))
    → Option (List Container)
    → (cb : ℕ) → State
    → State
asking pa pe ps h o x xs e? c? cb s = record s {
  memory = full s.memory pa pe ps e? c?;
  registry = put s.registry (callback_key h) (some (Value.callback cb));
  spawned = asked o x xs e? c? ∷ s.spawned;
}

-- A process is spawned from a table whose args are at least one string; malloc gives three
-- addresses that are not in use and differ.
module _ (classes : ℕ → Option ClassName) (errname : String) (uv_spawn : UvOptions → ℤ)
    (co h pa pe ps : ℕ) (s : State) (real_a : pa ≢ 0) (real_e : pe ≢ 0) (real_s : ps ≢ 0)
    (apart_ae : pa ≢ pe) (apart_as : pa ≢ ps) (apart_es : pe ≢ ps) (free_a : s.memory pa ≡ false)
    (free_e : s.memory pe ≡ false) (free_s : s.memory ps ≡ false) (o : Options)
    (items : List (Option (List ℕ))) (x : List ℕ) (xs : List (List ℕ))
    (is_args : o.args ≡ Strings.array items) (are_strings : all_strings items ≡ some (x ∷ xs)) where
  abbrev with_args : State
  with_args = record s { memory = mark s.memory pa true }

  not_empty : (length (x ∷ xs) == 0) ≡ false
  not_empty = ground arith

  free_e' : with_args.memory pe ≡ false
  free_e' = ground arith

  -- What is left to do once the arrays are made.
  abbrev rest_of :
      Option (List (List ℕ)) → Option (List Container) → Option ℕ → Call State (Unit {0})
  rest_of e? c? exit_cb = do
    set_exit_cb h exit_cb
    r ← spawn classes errname uv_spawn (record (asked o x xs e? c?) {
      env = strings_of (made pe e?);
      stdio = containers_of (made_stdio ps c?);
    })
    if ltb_ℤ r (pos 0) then raise (lua_error errname) else ok tt
    free_strings (made pa (some (x ∷ xs)))
    free_strings (made pe e?)
    free_stdio (made_stdio ps c?)
    λ t. ok tt (record t { owner = λ q. if q == h then co else t.owner q })
    rawsetp (userdata_key h) (Value.userdata h)

  args_held :
      (e? : Option (List (List ℕ))) (c? : Option (List Container))
      → full s.memory pa pe ps e? c? pa ≡ true
  args_held e? c? =
      full-args s.memory pa pe ps apart_ae apart_as apart_es free_a free_e free_s e? c?

  rest_of_lem :
      (e? : Option (List (List ℕ))) (c? : Option (List Container)) (cb : ℕ)
      → ltb_ℤ (uv_spawn (asked o x xs e? c?)) (pos 0) ≡ false
      → rest_of e? c? (some cb) (record s { memory = full s.memory pa pe ps e? c? })
        ≡ ok tt (running co h o x xs e? c? cb s)
  unfolding rawsetp
  rest_of_lem e? c? cb f =
      rw (strings_of-made pe e?, containers_of-made ps c?)
        (rw f (
          rw
            (
              free_strings_lem pa (some (x ∷ xs)) (asking pa pe ps h o x xs e? c? cb s)
                  (inl (args_held e? c?)),
              free_strings_lem pe e?
                  (record (asking pa pe ps h o x xs e? c? cb s) {
                    memory = mark (full s.memory pa pe ps e? c?) pa false;
                  })
                  (args_freed-env s.memory pa pe ps apart_ae apart_as apart_es free_a free_e free_s
                    e? c?),
              free_stdio_lem ps c?
                  (record (asking pa pe ps h o x xs e? c? cb s) {
                    memory = let_go pe e? (mark (full s.memory pa pe ps e? c?) pa false);
                  })
                  (env_freed-stdio s.memory pa pe ps apart_ae apart_as apart_es free_a free_e free_s
                    e? c?),
              all_freed s.memory pa pe ps apart_ae apart_as apart_es free_a free_e free_s e? c?,
            )
            refl))

  -- From the callback on, with the arrays that were made.
  rest_of-frees :
      (e? : Option (List (List ℕ))) (c? : Option (List Container)) (exit_cb : Option ℕ)
      → FreesOrLeaks s.memory pa
          (rest_of e? c? exit_cb (record s { memory = full s.memory pa pe ps e? c? }))
  unfolding rawsetp
  rest_of-frees e? c? none = args_held e? c?
  rest_of-frees e? c? (some cb) =
      elim (Bool-cases (ltb_ℤ (uv_spawn (asked o x xs e? c?)) (pos 0))) [
        | inl f ↦ rw (strings_of-made pe e?, containers_of-made ps c?) (rw f (args_held e? c?))
        | inr f ↦ rw (rest_of_lem e? c? cb f) refl
      ]

  -- A table of options whose args are at least one string, and anything else, where malloc gives
  -- three addresses that differ and are not in use, whatever libuv answers: a process that is
  -- spawned leaves memory as it was before, and every error, be it of env, stdio, exitCb or libuv,
  -- leaves the array of the args allocated, which nothing holds any more. There is no fault.
  pub frees_or_leaks :
      FreesOrLeaks s.memory pa
        (couv_process_spawn classes errname uv_spawn co h pa pe ps (OptionsArg.table o) s)
  unfolding couv_process_spawn
  frees_or_leaks = rw (is_args) (
      rw (strings_are_copied s pa real_a free_a items (x ∷ xs) are_strings) (
        rw (not_empty, file_or_lem o.file pa x xs with_args)
          (elim (strings-cases with_args pe real_e free_e' o.env) [
            | inl (e, f) ↦ rw f self
            | inr (e?, f) ↦
                rw f
                  (elim (stdio-cases classes (record s { memory = held pe e? with_args.memory }) ps
                    real_s o.stdio) [
                      | inl (e, m, k, g) ↦ rw g (kept e? m k)
                      | inr (c?, g) ↦ rw g (rest_of-frees e? c? o.exit_cb)
                    ])
          ])))
    where
      self : mark s.memory pa true pa ≡ true
      self = ground arith

      env_held : (e? : Option (List (List ℕ))) → held pe e? with_args.memory pa ≡ true
      env_held none = self
      env_held (some ys) = ground arith

      kept :
          (e? : Option (List (List ℕ))) (m : Memory)
          → (m ≡ held pe e? with_args.memory) ⊎ (m ≡ mark (held pe e? with_args.memory) ps true)
          → m pa ≡ true
      kept e? m (inl k) = rw k (env_held e?)
      kept e? m (inr k) =
          let other : (pa == ps) ≡ false = ground arith in rw (k, other) (env_held e?)

  -- Such a table whose env is nil or strings, whose stdio is nil or an array that is read as `c?`,
  -- and whose exitCb is a function: if libuv spawns the process, it was asked once, with the args
  -- and a NULL behind them, the file or else the first of the args, the environment, the
  -- containers and the rest; memory is as it was, the registry has the callback and the handle, and
  -- the handle its coroutine.
  pub spawned_as_asked :
      (e? : Option (List (List ℕ))) (c? : Option (List Container)) (cb : ℕ)
      → EnvIs o.env e?
      → StdioIs classes o.stdio c?
      → o.exit_cb ≡ some cb
      → ltb_ℤ (uv_spawn (asked o x xs e? c?)) (pos 0) ≡ false
      → couv_process_spawn classes errname uv_spawn co h pa pe ps (OptionsArg.table o) s
        ≡ ok tt (running co h o x xs e? c? cb s)
  unfolding couv_process_spawn
  spawned_as_asked e? c? cb env stdio exit f = rw (is_args) (
      rw (strings_are_copied s pa real_a free_a items (x ∷ xs) are_strings) (
        rw (not_empty, file_or_lem o.file pa x xs with_args)
          (rw (EnvIs-made with_args pe real_e free_e' o.env e? env) (
            rw
              (
                StdioIs-made classes (record s { memory = held pe e? with_args.memory }) ps real_s
                    o.stdio c? stdio,
                exit,
              )
              (rest_of_lem e? c? cb f)))))
