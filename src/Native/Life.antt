-- ===== src/Native/Life.antt =====
-- What sleeping and looking up names leave behind in memory and in the registry.
use mathlib.Core.Path.{fun_ext}
use couv.Prelude.{
  ℕ, ◌==◌, ◌≡◌, ◌≢◌, refl, ap, ◌∙◌, sym, ◌⊎◌, inl, inr, Bool-cases, Bool, true, false, Option, none,
  some, [], ◌∷◌, String, arith, if◌then◌else◌,
}
use couv.Prelude.Int.{ℤ, pos, ltb_ℤ}
use couv.Lua.{ok, raised, lua_error, arg_error, Error, ◌>>◌}
use couv.Handle.{Registry, Value, put, thread_key}
use couv.Request.{alloc, free}
use couv.Request.Life.{mark-mark}
use couv.Native.{
  Loop, Phase, Answer, HintsArg, at, any, is_some, in_coroutine, allocate, release, register,
  set_data, uv_begin, couv_sleep, sleep_cb, couv_getaddrinfo, checkaddrinfohints, AddrHints,
}
use couv.Native.Play.{on_closes, on_answers}
use couv.Native.Hints.{checkaddrinfohints-same, is_bad, is_bad-raised}
use couv.Native.Ends.{
  begun, registered, sleep_close_cb_lem, getaddrinfo_cb_lem, results_of, all_ip_in,
}

put-put : (r : Registry) (k : ℕ) (v : Value) → r k ≡ none → put (put r k (some v)) k none ≡ r
put-put r k v e = fun_ext λ j. ground arith

at-at :
    (f : ℕ → Phase) (p : ℕ) (a b : Phase)
    → f p ≡ Phase.idle
    → at (at (at f p a) p b) p Phase.idle ≡ f
at-at f p a b e = fun_ext λ j. ground arith

at-again : (f : ℕ → Phase) (p : ℕ) (a : Phase) → f p ≡ Phase.idle → at (at f p a) p Phase.idle ≡ f
at-again f p a e = fun_ext λ j. ground arith

module _ (errname : String) (p co : ℕ) (l : Loop) (real : p ≢ 0) (unused : l.memory p ≡ false)
    (unregistered : l.registry (thread_key p) ≡ none) (idle : l.phase p ≡ Phase.idle) where
  self : (p == p) ≡ true
  self = ground arith

  not_null : (p == 0) ≡ false
  not_null = ground arith

  sleep_accepted :
      (r : ℤ)
      → ltb_ℤ r (pos 0) ≡ false
      → couv_sleep errname p co false r l ≡ ok tt (begun p co Phase.armed l)
  unfolding couv_sleep allocate register set_data uv_begin in_coroutine alloc
  sleep_accepted r f = rw (not_null, f) refl

  -- A coroutine sleeps, where malloc gives an address that is not in use and libuv starts the
  -- timer; the timer fires, and the handle is closed. Then the coroutine is resumed, once and with
  -- nothing, and memory, the registry and all else are as they were before, but for the coroutine
  -- that the freed handle names.
  pub sleep_restores :
      (r : ℤ)
      → ltb_ℤ r (pos 0) ≡ false
      → (couv_sleep errname p co false r >> (sleep_cb p >> on_closes Phase.closing p)) l
        ≡ ok tt (record l { owner = at l.owner p co; resumed = (co, []) ∷ l.resumed })
  unfolding sleep_cb
  sleep_restores r f =
      rw
        (
          sleep_accepted r f,
          sleep_close_cb_lem p fired (ap (λ b. if b then true else l.memory p) self),
          mark-mark l.memory p unused,
          put-put l.registry (thread_key p) Value.thread unregistered,
          at-at l.phase p Phase.armed Phase.closing idle,
          self,
        )
        refl
    where
      fired : Loop
      fired = record (begun p co Phase.armed l) {
        phase = at (at l.phase p Phase.armed) p Phase.closing;
      }

  module _ (node service : Option String) (hints_arg : HintsArg) (hints : Option AddrHints)
      (named : any (is_some node) (is_some service) ≡ true)
      (good : checkaddrinfohints 3 hints_arg l ≡ ok hints l) where
    -- A look-up of a name with good hints, where malloc gives an address that is not in use, that
    -- libuv accepts and answers with addresses of IPv4 or IPv6 only or with an error: the coroutine
    -- is resumed once, with the addresses in their order or with nil and the name of the error, and
    -- the request and libuv's list are freed; but the coroutine stays in the registry.
    pub look_up_answers :
        (uv_getaddrinfo : Option String → Option String → Option AddrHints → ℤ) (a : Answer)
        → ltb_ℤ (uv_getaddrinfo node service hints) (pos 0) ≡ false
        → all_ip_in a ≡ true
        → let left = registered p co l in
          ((couv_getaddrinfo errname p node service hints_arg co false uv_getaddrinfo
                >> on_answers Phase.resolving p a)
              l
            ≡ ok tt (record left { resumed = (co, results_of a) ∷ l.resumed }))
          × (left.registry (thread_key p) ≡ some Value.thread)
    unfolding couv_getaddrinfo allocate release register set_data uv_begin in_coroutine alloc free
    look_up_answers uv_getaddrinfo a f ip = (
      rw
          (
            named,
            good,
            not_null,
            f,
            getaddrinfo_cb_lem p a (begun p co Phase.resolving l)
                (ap (λ b. if b then true else l.memory p) self) ip,
            mark-mark l.memory p unused,
            at-again l.phase p Phase.resolving idle,
            self,
          )
          refl,
      ground arith,
    )

    -- Such a look-up that libuv refuses raises the error and frees its request, and leaves the
    -- coroutine in the registry.
    pub look_up_refused :
        (uv_getaddrinfo : Option String → Option String → Option AddrHints → ℤ)
        → ltb_ℤ (uv_getaddrinfo node service hints) (pos 0) ≡ true
        → (couv_getaddrinfo errname p node service hints_arg co false uv_getaddrinfo l
            ≡ raised (lua_error errname) (registered p co l))
          × ((registered p co l).registry (thread_key p) ≡ some Value.thread)
    unfolding couv_getaddrinfo allocate release register set_data uv_begin in_coroutine alloc free
    look_up_refused uv_getaddrinfo f =
        (rw (named, good, not_null, f, self, mark-mark l.memory p unused) refl, ground arith)

-- A look-up with neither node nor service, with hints that are no table or have another family, or
-- in the main thread raises an error and changes nothing, whatever malloc and libuv would answer.
pub look_up_checks :
    (errname : String) (p co : ℕ) (l : Loop) (node service : Option String) (hints_arg : HintsArg)
    (is_mainthread : Bool) (uv_getaddrinfo : Option String → Option String → Option AddrHints → ℤ)
    → (any (is_some node) (is_some service) ≡ false)
      ⊎ ((is_bad hints_arg ≡ true) ⊎ (is_mainthread ≡ true))
    → (e : Error) × (couv_getaddrinfo errname p node service hints_arg co is_mainthread
          uv_getaddrinfo l
        ≡ raised e l)
unfolding couv_getaddrinfo in_coroutine
look_up_checks errname p co l node service hints_arg is_mainthread uv_getaddrinfo bad =
    elim (Bool-cases (any (is_some node) (is_some service))) [
      | inr f ↦ (arg_error 1 "node or service must not be nil", rw f refl)
      | inl f ↦ elim (checkaddrinfohints-same l 3 hints_arg) [
        | inr (e, g) ↦ (e, rw (f, g) refl)
        | inl (hints, g) ↦ (
          lua_error "getaddrinfo must be called in coroutine.",
          rw (f, g, main bad f hints g) refl,
        )
      ]
    ]
  where
    main :
        (any (is_some node) (is_some service) ≡ false)
          ⊎ ((is_bad hints_arg ≡ true) ⊎ (is_mainthread ≡ true))
        → any (is_some node) (is_some service) ≡ true
        → (hints : Option AddrHints) → checkaddrinfohints 3 hints_arg l ≡ ok hints l
        → is_mainthread ≡ true
    main (inl none_named) f hints g = cc
    main (inr (inl b)) f hints g =
        let (e, r) = is_bad-raised l 3 hints_arg b in
        let bad : ok hints l ≡ raised e l = sym g ∙ r in absurd (cc)
    main (inr (inr m)) f hints g = m
