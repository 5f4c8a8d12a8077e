-- ===== src/Handle/Callbacks.antt =====
-- The callbacks that call a Lua function out of the registry: `timer_cb` of src/timer.c,
-- `connection_cb` of src/stream.c and `exit_cb` of src/process.c.
use couv.Prelude.{
  ℕ, ◌≡◌, refl, ◌∙◌, false, Option, none, some, List, [], ◌∷◌, String, if◌then◌else◌, arith,
}
use couv.Prelude.Int.{ℤ, pos, ltb_ℤ}
use couv.Lua.{Call, Run, ok, raise, lua_error}
use couv.Handle.{
  Kind, Value, Registry, Act, put, userdata_key, callback_key, acts, left_by, timer_start,
  couv_listen, process_spawn,
}
use couv.Handle.Closing.{uses, acts-outside}

-- An argument of a Lua function.
pub data Passed : Type 0 where
  handle : Option Value → Passed
  number : ℤ → Passed
  name : String → Passed

pub record Invocation : Type 0 where
  pub callback : ℕ
  pub arguments : List Passed

-- `lua_call` of what the registry holds.
abbrev pub call : Option Value → List Passed → Call Registry Invocation
call (some (Value.callback f)) arguments = ok (record { callback = f; arguments = arguments })
call (some (Value.userdata h)) arguments = raise (lua_error "attempt to call a userdata value")
call (some Value.thread) arguments = raise (lua_error "attempt to call a thread value")
call none arguments = raise (lua_error "attempt to call a nil value")

-- The name of the error follows the handle where the status is negative.
abbrev pub with_error : String → ℤ → Option Value → List Passed
with_error errname status h =
    if ltb_ℤ status (pos 0)
    then Passed.handle h ∷ Passed.name errname ∷ []
    else Passed.handle h ∷ []

module _ (errname : String) (h : ℕ) where
  unfoldable pub timer_cb : (status : ℤ) → Call Registry Invocation
  timer_cb status r = call (r (callback_key h)) (with_error errname status (r (userdata_key h))) r

  unfoldable pub connection_cb : (status : ℤ) → Call Registry Invocation
  connection_cb status r =
      call (r (callback_key h)) (with_error errname status (r (userdata_key h))) r

unfoldable pub exit_cb : (h : ℕ) → (exit_status term_signal : ℤ) → Call Registry Invocation
exit_cb h exit_status term_signal r =
    call (r (callback_key h))
      (Passed.handle (r (userdata_key h))
        ∷ Passed.number exit_status
        ∷ Passed.number term_signal
        ∷ [])
      r

abbrev pub invoked : ℕ → List Passed → Invocation
invoked cb arguments = record { callback = cb; arguments = arguments }

-- The registry after a call on `h`, and then other calls on another handle.
abbrev pub later :
    String
    → (h other : ℕ) → {k : Kind} → List (Act k)
    → Run Registry (Unit {0})
    → Registry
    → Registry
later errname h other calls first r = acts errname other calls (left_by errname h first r)

module _ (errname : String) (h cb : ℕ) (r : Registry) (k : Kind) (other : ℕ) (calls : List (Act k))
    (apart : uses k other h ≡ false) (callback_apart : uses k other (callback_key h) ≡ false) where
  abbrev given : Registry
  given =
      put (put r (callback_key h) (some (Value.callback cb))) (userdata_key h)
        (some (Value.userdata h))

  has_callback : acts errname other calls given (callback_key h) ≡ some (Value.callback cb)
  has_callback =
      acts-outside errname other calls given (callback_key h) callback_apart ∙ ground arith

  has_userdata : acts errname other calls given h ≡ some (Value.userdata h)
  has_userdata = acts-outside errname other calls given h apart ∙ ground arith

  -- A timer is started, a stream listens or a process is spawned, with a callback, where libuv
  -- accepts that; then another handle, of other keys, is made and used by any calls. When libuv
  -- calls back, that callback is called with the handle, and with the name of the error behind it
  -- if the status is negative, or for a process with its two numbers.
  pub callback_is_called :
      (n : ℕ) (status exit_status term_signal : ℤ)
      → let timer = later errname h other calls (timer_start errname h cb (pos n) r) r in
        let stream = later errname h other calls (couv_listen errname h cb (pos n) r) r in
        let process = later errname h other calls (process_spawn errname h (some cb) (pos n) r) r in
        (timer_cb errname h status timer
          ≡ ok (invoked cb (with_error errname status (some (Value.userdata h)))) timer)
        × (connection_cb errname h status stream
            ≡ ok (invoked cb (with_error errname status (some (Value.userdata h)))) stream)
        × (exit_cb h exit_status term_signal process
            ≡ ok
                (invoked cb (
                  Passed.handle (some (Value.userdata h))
                  ∷ Passed.number exit_status
                  ∷ Passed.number term_signal
                  ∷ []))
                process)
  unfolding timer_cb connection_cb exit_cb timer_start couv_listen process_spawn
  callback_is_called n status exit_status term_signal = (
    rw (accepted) (rw (has_callback, has_userdata) refl),
    rw (accepted) (rw (has_callback, has_userdata) refl),
    rw (accepted) (rw (has_callback, has_userdata) refl),
  )
    where
      accepted : ltb_ℤ (pos n) (pos 0) ≡ false
      accepted = ground arith
