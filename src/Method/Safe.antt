-- ===== src/Method/Safe.antt =====
-- Every method keeps the calls typed.
use couv.Prelude.{
  ℕ, ◌≡◌, refl, inl, inr, true, Option, none, some, List, [], ◌∷◌, not, String, Bool-cases,
}
use couv.Prelude.Int.{ℤ, is_zero, ◌-ℤ◌, pos}
use couv.Prelude.CInt.{to_int, to_uint}
use couv.Lua.{opt, Run, ok, raised, fault}
use couv.Class.Open.{ClassName}
use couv.Class.Hierarchy.{is_a}
use couv.Method.{UvCall, State, Reply, Value, nothing}
use couv.Method.Typed.{AllTyped, Keeps, checked-Keeps, check-Keeps}
use couv.Method.Handles.{
  couv_close, couv_is_active, couv_is_closing, couv_ref, couv_unref, couv_handle_guess, timer_stop,
  timer_again, timer_set_repeat, timer_get_repeat, process_kill, process_get_pid,
}
use couv.Method.Streams.{
  couv_accept, couv_get_write_queue_size, couv_is_readable, couv_is_writable, couv_read_start,
  couv_read_stop, tcp_open, tcp_nodelay, tcp_keepalive, tcp_simultaneous_accepts, tcp_getsockname,
  tcp_getpeername, pipe_bind, pipe_open, couv_read2_start, tty_open_fd, tty_set_mode,
  tty_reset_mode, tty_get_winsize,
}
use couv.Method.Datagrams.{
  udp_open, udp_recv_start, udp_recv_stop, udp_getsockname, udp_set_multicast_loop,
  udp_set_multicast_ttl, udp_set_broadcast, udp_set_ttl,
}
use couv.Method.Shapes.{plain-Keeps, telling-Keeps, named-Keeps}
use couv.Method.Program.{Method, invoke, run}

-- Every pipe is a stream.
pipe_is_stream :
    (c : Option ClassName) → is_a c ClassName.pipe ≡ true → is_a c ClassName.stream ≡ true
pipe_is_stream none e = cc
pipe_is_stream (some ClassName.pipe) e = refl
pipe_is_stream (some _) e = absurd (cc)

module _ (classes : ℕ → Option ClassName) (uv : UvCall → ℤ) (errname : String) where
  module _ (s : State) (typed : AllTyped classes s.calls) where
    invoke-Keeps : (m : Method) → Keeps classes (invoke classes uv errname m s)
    unfolding invoke couv_close couv_is_active couv_is_closing couv_ref couv_unref couv_handle_guess
        timer_stop timer_again timer_set_repeat timer_get_repeat process_kill process_get_pid
        couv_accept couv_get_write_queue_size couv_is_readable couv_is_writable couv_read_start
        couv_read_stop tcp_open tcp_nodelay tcp_keepalive tcp_simultaneous_accepts tcp_getsockname
        tcp_getpeername pipe_bind pipe_open couv_read2_start tty_open_fd tty_set_mode tty_reset_mode
        tty_get_winsize udp_open udp_recv_start udp_recv_stop udp_getsockname udp_set_multicast_loop
        udp_set_multicast_ttl udp_set_broadcast udp_set_ttl
    invoke-Keeps (Method.close is_mainthread a) =
        checked-Keeps classes s typed (pos 1) a ClassName.handle _ λ k e.
          elim (Bool-cases is_mainthread) [ inl m ↦ rw m (e, typed) | inr m ↦ rw m (e, typed) ]
    invoke-Keeps (Method.is_active a) =
        telling-Keeps classes uv errname s typed ClassName.handle UvCall.uv_is_active
          (λ k. Reply.returns (Value.boolean (not (is_zero (uv (UvCall.uv_is_active k)))) ∷ [])) a
          (λ k e. e)
    invoke-Keeps (Method.is_closing a) =
        telling-Keeps classes uv errname s typed ClassName.handle UvCall.uv_is_closing
          (λ k. Reply.returns (Value.boolean (not (is_zero (uv (UvCall.uv_is_closing k)))) ∷ [])) a
          (λ k e. e)
    invoke-Keeps (Method.ref a) =
        telling-Keeps classes uv errname s typed ClassName.handle UvCall.uv_ref
          (λ k. Reply.returns []) a (λ k e. e)
    invoke-Keeps (Method.unref a) =
        telling-Keeps classes uv errname s typed ClassName.handle UvCall.uv_unref
          (λ k. Reply.returns []) a (λ k e. e)
    invoke-Keeps (Method.handle_guess file) = (tt, typed)
    invoke-Keeps (Method.timer_stop a) =
        plain-Keeps classes uv errname s typed ClassName.timer UvCall.uv_timer_stop a (λ k e. e)
    invoke-Keeps (Method.timer_again a) =
        plain-Keeps classes uv errname s typed ClassName.timer UvCall.uv_timer_again a (λ k e. e)
    invoke-Keeps (Method.timer_set_repeat a repeat) =
        telling-Keeps classes uv errname s typed ClassName.timer
          (λ h. UvCall.uv_timer_set_repeat h repeat) (λ k. Reply.returns []) a (λ k e. e)
    invoke-Keeps (Method.timer_get_repeat a) =
        telling-Keeps classes uv errname s typed ClassName.timer UvCall.uv_timer_get_repeat
          (λ k. Reply.returns (Value.number (uv (UvCall.uv_timer_get_repeat k)) ∷ [])) a (λ k e. e)
    invoke-Keeps (Method.process_kill a signum) =
        plain-Keeps classes uv errname s typed ClassName.process
          (λ h. UvCall.uv_process_kill h signum) a (λ k e. e)
    invoke-Keeps (Method.process_get_pid pid a) =
        checked-Keeps classes s typed (pos 1) a ClassName.process _ λ k e. typed
    invoke-Keeps (Method.accept a b) =
        checked-Keeps classes s typed (pos 1) a ClassName.stream _ λ k e.
          checked-Keeps classes s typed (pos 2) b ClassName.stream _ λ j f.
            check-Keeps classes (record s { calls = UvCall.uv_accept k j ∷ s.calls })
              ((e, f), typed) errname (uv (UvCall.uv_accept k j)) nothing ((e, f), typed)
    invoke-Keeps (Method.get_write_queue_size size a) =
        checked-Keeps classes s typed (pos 1) a ClassName.stream _ λ k e. typed
    invoke-Keeps (Method.is_readable a) =
        telling-Keeps classes uv errname s typed ClassName.stream UvCall.uv_is_readable
          (λ k. Reply.returns (Value.boolean (not (is_zero (uv (UvCall.uv_is_readable k)))) ∷ [])) a
          (λ k e. e)
    invoke-Keeps (Method.is_writable a) =
        telling-Keeps classes uv errname s typed ClassName.stream UvCall.uv_is_writable
          (λ k. Reply.returns (Value.boolean (not (is_zero (uv (UvCall.uv_is_writable k)))) ∷ [])) a
          (λ k e. e)
    invoke-Keeps (Method.read_start a) =
        plain-Keeps classes uv errname s typed ClassName.stream UvCall.uv_read_start a (λ k e. e)
    invoke-Keeps (Method.read_stop a) =
        plain-Keeps classes uv errname s typed ClassName.stream UvCall.uv_read_stop a (λ k e. e)
    invoke-Keeps (Method.tcp_open co a sock) =
        checked-Keeps classes s typed (pos 1) a ClassName.tcp _ λ k e.
          check-Keeps classes (record s { calls = UvCall.uv_tcp_open k (to_int sock) ∷ s.calls })
            (e, typed) errname (uv (UvCall.uv_tcp_open k (to_int sock))) _ (e, typed)
    invoke-Keeps (Method.tcp_nodelay a enable) =
        plain-Keeps classes uv errname s typed ClassName.tcp (λ h. UvCall.uv_tcp_nodelay h enable) a
          (λ k e. e)
    invoke-Keeps (Method.tcp_keepalive a enable delay?) =
        plain-Keeps classes uv errname s typed ClassName.tcp
          (λ h. UvCall.uv_tcp_keepalive h enable (to_uint (opt delay? (pos 0)))) a (λ k e. e)
    invoke-Keeps (Method.tcp_simultaneous_accepts a enable) =
        plain-Keeps classes uv errname s typed ClassName.tcp
          (λ h. UvCall.uv_tcp_simultaneous_accepts h enable) a (λ k e. e)
    invoke-Keeps (Method.tcp_getsockname name a) =
        named-Keeps classes uv errname s typed ClassName.tcp UvCall.uv_tcp_getsockname name a
          (λ k e. e)
    invoke-Keeps (Method.tcp_getpeername name a) =
        named-Keeps classes uv errname s typed ClassName.tcp UvCall.uv_tcp_getpeername name a
          (λ k e. e)
    invoke-Keeps (Method.pipe_bind a name) =
        plain-Keeps classes uv errname s typed ClassName.pipe (λ h. UvCall.uv_pipe_bind h name) a
          (λ k e. e)
    invoke-Keeps (Method.pipe_open a file) =
        plain-Keeps classes uv errname s typed ClassName.pipe (λ h. UvCall.uv_pipe_open h file) a
          (λ k e. e)
    invoke-Keeps (Method.read2_start a) =
        plain-Keeps classes uv errname s typed ClassName.pipe UvCall.uv_read2_start a
          (λ k e. pipe_is_stream (classes k) e)
    invoke-Keeps (Method.tty_open_fd open_tty type) = elim (Bool-cases (is_zero type)) [
      | inl f ↦ rw f typed
      | inr f ↦ elim (Bool-cases (is_zero (type -ℤ pos 1))) [
        | inl g ↦ rw (f, g) typed
        | inr g ↦ rw (f, g) typed
      ]
    ]
    invoke-Keeps (Method.tty_set_mode a mode) =
        plain-Keeps classes uv errname s typed ClassName.tty (λ h. UvCall.uv_tty_set_mode h mode) a
          (λ k e. e)
    invoke-Keeps Method.tty_reset_mode = (tt, typed)
    invoke-Keeps (Method.tty_get_winsize width height a) =
        checked-Keeps classes s typed (pos 1) a ClassName.tty _ λ k e.
          elim (Bool-cases (is_zero (uv (UvCall.uv_tty_get_winsize k)))) [
            | inl f ↦ rw f (e, typed)
            | inr f ↦ rw f (e, typed)
          ]
    invoke-Keeps (Method.udp_open a sock) =
        plain-Keeps classes uv errname s typed ClassName.udp
          (λ h. UvCall.uv_udp_open h (to_int sock)) a (λ k e. e)
    invoke-Keeps (Method.udp_recv_start a) =
        plain-Keeps classes uv errname s typed ClassName.udp UvCall.uv_udp_recv_start a (λ k e. e)
    invoke-Keeps (Method.udp_recv_stop a) =
        plain-Keeps classes uv errname s typed ClassName.udp UvCall.uv_udp_recv_stop a (λ k e. e)
    invoke-Keeps (Method.udp_getsockname name a) =
        named-Keeps classes uv errname s typed ClassName.udp UvCall.uv_udp_getsockname name a
          (λ k e. e)
    invoke-Keeps (Method.udp_set_multicast_loop a on) =
        plain-Keeps classes uv errname s typed ClassName.udp
          (λ h. UvCall.uv_udp_set_multicast_loop h on) a (λ k e. e)
    invoke-Keeps (Method.udp_set_multicast_ttl a ttl) =
        plain-Keeps classes uv errname s typed ClassName.udp
          (λ h. UvCall.uv_udp_set_multicast_ttl h ttl) a (λ k e. e)
    invoke-Keeps (Method.udp_set_broadcast a on) =
        plain-Keeps classes uv errname s typed ClassName.udp (λ h. UvCall.uv_udp_set_broadcast h on)
          a (λ k e. e)
    invoke-Keeps (Method.udp_set_ttl a ttl) =
        plain-Keeps classes uv errname s typed ClassName.udp (λ h. UvCall.uv_udp_set_ttl h ttl) a
          (λ k e. e)

  -- Any methods, called one after another with any arguments, of any class or no userdata, and
  -- whatever libuv answers, run to their end without a fault; and if libuv was only called with
  -- handles of the classes that its functions take before, then so it was during the run.
  pub calls_are_typed :
      (ms : List Method) (s : State)
      → AllTyped classes s.calls
      → (s' : State) × (run classes uv errname ms s ≡ some s') × AllTyped classes s'.calls
  unfolding run
  calls_are_typed [] s h = (s, refl, h)
  calls_are_typed (m ∷ ms) s h =
      go (invoke classes uv errname m s) refl (invoke-Keeps s h m) (calls_are_typed ms)
    where
      go :
          (r : Run State Reply)
          → invoke classes uv errname m s ≡ r
          → Keeps classes r
          → ((t : State)
              → AllTyped classes t.calls
              → (s' : State) × (run classes uv errname ms t ≡ some s') × AllTyped classes s'.calls)
          → (s' : State) × (run classes uv errname (m ∷ ms) s ≡ some s') × AllTyped classes s'.calls
      go (ok x t) e k rest = let (s', r, a) = rest t k in (s', rw e r, a)
      go (raised x t) e k rest = let (s', r, a) = rest t k in (s', rw e r, a)
      go fault e k rest = absurd k
