-- ===== src/Method/Handles.antt =====
-- The methods of all handles, of src/handle.c, of timers, of src/timer.c, and of processes, of
-- src/process.c.
use couv.Prelude.{ℕ, Bool, not, Option, [], ◌∷◌, String, if◌then◌else◌}
use couv.Prelude.Int.{ℤ, pos, is_zero}
use couv.Lua.{Call, ok, ◌>>=◌, ◌>>◌}
use couv.Class.Open.{ClassName}
use couv.Method.{UvCall, State, Arg, Value, Reply, checkudataclass, tell, nothing, check}

module _ (classes : ℕ → Option ClassName) (uv : UvCall → ℤ) (errname : String) where
  unfoldable pub couv_close : (is_mainthread : Bool) → Arg → Call State Reply
  couv_close is_mainthread a = do
    h ← checkudataclass classes (pos 1) a ClassName.handle
    tell uv (UvCall.uv_close h)
    if is_mainthread then nothing else ok Reply.yields

  unfoldable pub couv_is_active : Arg → Call State Reply
  couv_is_active a = do
    h ← checkudataclass classes (pos 1) a ClassName.handle
    r ← tell uv (UvCall.uv_is_active h)
    ok (Reply.returns (Value.boolean (not (is_zero r)) ∷ []))

  unfoldable pub couv_is_closing : Arg → Call State Reply
  couv_is_closing a = do
    h ← checkudataclass classes (pos 1) a ClassName.handle
    r ← tell uv (UvCall.uv_is_closing h)
    ok (Reply.returns (Value.boolean (not (is_zero r)) ∷ []))

  unfoldable pub couv_ref : Arg → Call State Reply
  couv_ref a = do
    h ← checkudataclass classes (pos 1) a ClassName.handle
    tell uv (UvCall.uv_ref h)
    nothing

  unfoldable pub couv_unref : Arg → Call State Reply
  couv_unref a = do
    h ← checkudataclass classes (pos 1) a ClassName.handle
    tell uv (UvCall.uv_unref h)
    nothing

  unfoldable pub couv_handle_guess : ℤ → Call State Reply
  couv_handle_guess file = do
    type ← tell uv (UvCall.uv_guess_handle file)
    ok (Reply.returns (Value.number type ∷ []))

  unfoldable pub timer_stop : Arg → Call State Reply
  timer_stop a = do
    h ← checkudataclass classes (pos 1) a ClassName.timer
    r ← tell uv (UvCall.uv_timer_stop h)
    check errname r
    nothing

  unfoldable pub timer_again : Arg → Call State Reply
  timer_again a = do
    h ← checkudataclass classes (pos 1) a ClassName.timer
    r ← tell uv (UvCall.uv_timer_again h)
    check errname r
    nothing

  unfoldable pub timer_set_repeat : Arg → (repeat : ℤ) → Call State Reply
  timer_set_repeat a repeat = do
    h ← checkudataclass classes (pos 1) a ClassName.timer
    tell uv (UvCall.uv_timer_set_repeat h repeat)
    nothing

  unfoldable pub timer_get_repeat : Arg → Call State Reply
  timer_get_repeat a = do
    h ← checkudataclass classes (pos 1) a ClassName.timer
    repeat ← tell uv (UvCall.uv_timer_get_repeat h)
    ok (Reply.returns (Value.number repeat ∷ []))

  unfoldable pub process_kill : Arg → (signum : ℤ) → Call State Reply
  process_kill a signum = do
    h ← checkudataclass classes (pos 1) a ClassName.process
    r ← tell uv (UvCall.uv_process_kill h signum)
    check errname r
    nothing

  -- `handle->pid`.
  unfoldable pub process_get_pid : (pid : ℕ → ℤ) → Arg → Call State Reply
  process_get_pid pid a = do
    h ← checkudataclass classes (pos 1) a ClassName.process
    ok (Reply.returns (Value.number (pid h) ∷ []))
