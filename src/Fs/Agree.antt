-- ===== src/Fs/Agree.antt =====
-- A request from a coroutine gives what it gives in the main thread, and leaves nothing behind.
use mathlib.Core.Path.{fun_ext, ap₂}
use couv.Prelude.{
  ℕ, ◌==◌, ◌≡◌, ◌≢◌, refl, ap, Bool, true, false, Option, none, some, List, String, arith,
  if◌then◌else◌,
}
use couv.Prelude.Int.{pos, ltb_ℤ}
use couv.Lua.{Call, ok, pure, and_then}
use couv.Fs.{
  Uv, Value, Store, Env, mark, finish, or_fault, common_values, error_values, fs_error,
  push_common_results, common_callback, alloc_req, after_async_call, make, answered, told,
}

mark-mark : (f : ℕ → Bool) (p : ℕ) → f p ≡ false → mark (mark f p true) p false ≡ f
mark-mark f p e = fun_ext λ q. ground arith

mark_at : (f : ℕ → Bool) (p : ℕ) (v : Bool) → mark f p v p ≡ v
mark_at f p v = ground arith

-- While a request is under way.
abbrev pub waiting : Store → ℕ → Store
waiting s p = record s { allocated = mark s.allocated p true; thread = mark s.thread p true }

abbrev woken : Store → ℕ → Store
woken s p = record s {
  allocated = mark s.allocated p true;
  thread = mark (mark s.thread p true) p false;
}

module _ (errname : ℕ → String) (u : Uv) (env : Env) (s : Store) (real : env.address ≢ 0)
    (unused : s.allocated env.address ≡ false) (no_thread : s.thread env.address ≡ false) where
  finish_lem : finish (some env.address) (woken s env.address) ≡ ok tt s
  finish_lem = rw (mark_at s.allocated env.address true) (
      ap₂ (λ a t. ok tt (record s { allocated = a; thread = t }))
        (mark-mark s.allocated env.address unused) (mark-mark s.thread env.address no_thread))

  finish_only :
      finish (some env.address) (record s { allocated = mark s.allocated env.address true })
      ≡ ok tt s
  finish_only =
      rw (mark_at s.allocated env.address true)
        (ap (λ a. ok tt (record s { allocated = a })) (mark-mark s.allocated env.address unused))

  -- What a request gives, where it has values at all.
  abbrev values : Option (List Value)
  values =
      if ltb_ℤ env.result (pos 0)
      then some (error_values u (errname env.errorno))
      else common_values u env.result env.ptr

  sync_lem : push_common_results errname (answered env u none) s ≡ or_fault values s
  unfolding push_common_results fs_error
  sync_lem = go (ltb_ℤ env.result (pos 0)) refl (common_values u env.result env.ptr) refl
    where
      go :
          (b : Bool)
          → ltb_ℤ env.result (pos 0) ≡ b
          → (c : Option (List Value)) → common_values u env.result env.ptr ≡ c
          → push_common_results errname (answered env u none) s ≡ or_fault values s
      go true e c f = rw e refl
      go false e none f = rw (e, f) refl
      go false e (some vs) f = rw (e, f) refl

  callback_lem :
      common_callback errname (answered env u (some env.address)) (waiting s env.address)
      ≡ or_fault values s
  unfolding common_callback push_common_results fs_error
  callback_lem = go (ltb_ℤ env.result (pos 0)) refl (common_values u env.result env.ptr) refl
    where
      go :
          (b : Bool)
          → ltb_ℤ env.result (pos 0) ≡ b
          → (c : Option (List Value)) → common_values u env.result env.ptr ≡ c
          → common_callback errname (answered env u (some env.address)) (waiting s env.address)
            ≡ or_fault values s
      go true e c f =
          rw e (ap (λ r. and_then r (λ _. pure (error_values u (errname env.errorno)))) finish_lem)
      go false e none f = rw (e, f) refl
      go false e (some vs) f = rw (e, f) (ap (λ r. and_then r (λ _. pure vs)) finish_lem)

module _ (errname : ℕ → String) (u : Uv) (env : Env) (s : Store) (real : env.address ≢ 0)
    (unused : s.allocated env.address ≡ false) (no_thread : s.thread env.address ≡ false) where
  -- A call from the main thread or from a coroutine asks libuv once, for `u`. A call from a
  -- coroutine yields and is answered by the callback as it is in the main thread at once, an
  -- undefined read of the answer included, and the callback leaves the rest of the store as it was.
  abbrev pub Agrees : (Env → Call Store (Option (List Value))) → Type 0
  Agrees call =
      (vs : Option (List Value)) × (call (record env { is_mainthread = true }) s
        ≡ and_then (or_fault vs (told u s)) (λ v. pure (some v)))
      × (call (record env { is_mainthread = false }) s ≡ ok none (waiting (told u s) env.address))
      × (common_callback errname (answered env u (some env.address))
            (waiting (told u s) env.address)
          ≡ or_fault vs (told u s))

  pub request-Agrees :
      ltb_ℤ env.ret (pos 0) ≡ false
      → Agrees (λ e. make e u (push_common_results errname) (fs_error errname))
  unfolding make alloc_req after_async_call
  request-Agrees accepted = (
    values errname u env (told u s) real unused no_thread,
    ap (λ r. and_then r (λ v. pure (some v)))
        (sync_lem errname u env (told u s) real unused no_thread),
    yields,
    callback_lem errname u env (told u s) real unused no_thread,
  )
    where
      yields :
          make
            (record env { is_mainthread = false })
            u
            (push_common_results errname)
            (fs_error errname)
            s
          ≡ ok none (waiting (told u s) env.address)
      yields =
          let not_null : (env.address == 0) ≡ false = ground arith in rw (not_null, accepted) refl

  -- A request at such an address that libuv refuses returns the error's values at once and is freed.
  pub refused_is_freed :
      ltb_ℤ env.ret (pos 0) ≡ true
      → make
          (record env { is_mainthread = false })
          u
          (push_common_results errname)
          (fs_error errname)
          s
        ≡ ok (some (error_values u (errname env.errorno))) (told u s)
  unfolding make alloc_req after_async_call fs_error
  refused_is_freed e =
      let not_null : (env.address == 0) ≡ false = ground arith in
      rw (not_null, e)
        (ap
          (λ r.
            and_then (and_then r (λ _. pure (error_values u (errname env.errorno))))
              (λ v. pure (some v)))
          (finish_only errname u env (told u s) real unused no_thread))
