-- ===== src/Method/Refused.antt =====
-- Every method refuses a handle of another class before any call of libuv.
use mathlib.Core.Path.{subst}
use couv.Prelude.{ℕ, ◌≡◌, inl, inr, sym, ◌∙◌, true, false, Option, none, some, String}
use couv.Prelude.Int.{ℤ, pos}
use couv.Lua.{Call, raised, and_then, class_error}
use couv.Class.Open.{ClassName, name_number}
use couv.Method.{UvCall, State, Arg, Reply, checkudataclass}
use couv.Method.Typed.{is_of, check-of}
use couv.Method.Handles.{
  couv_close, couv_is_active, couv_is_closing, couv_ref, couv_unref, timer_stop, timer_again,
  timer_set_repeat, timer_get_repeat, process_kill, process_get_pid,
}
use couv.Method.Streams.{
  couv_accept, couv_get_write_queue_size, couv_is_readable, couv_is_writable, couv_read_start,
  couv_read_stop, tcp_open, tcp_nodelay, tcp_keepalive, tcp_simultaneous_accepts, tcp_getsockname,
  tcp_getpeername, pipe_bind, pipe_open, couv_read2_start, tty_set_mode, tty_get_winsize,
}
use couv.Method.Datagrams.{
  udp_open, udp_recv_start, udp_recv_stop, udp_getsockname, udp_set_multicast_loop,
  udp_set_multicast_ttl, udp_set_broadcast, udp_set_ttl,
}
use couv.Method.Program.{Method, invoke, class_of, handle_of}

module _ (classes : ℕ → Option ClassName) where
  check-refused :
      (a : Arg) (c : ClassName) (s : State) (K : ℕ → Call State Reply)
      → is_of classes a c ≡ false
      → and_then (checkudataclass classes (pos 1) a c s) K
        ≡ raised (class_error (pos 1) (name_number c)) s
  check-refused a c s K f = elim (check-of classes (pos 1) a c s) [
    | inr (_, r) ↦ rw r
    | inl (_, _, e, r) ↦ absurd (let bad : true ≡ false = sym e ∙ f in cc)
  ]

module _ (classes : ℕ → Option ClassName) (uv : UvCall → ℤ) (errname : String) where
  abbrev Refuses : Option ClassName → Method → State → Type 0
  Refuses none m s = Unit {0}
  Refuses (some c) m s =
      is_of classes (handle_of m) c ≡ false
      → invoke classes uv errname m s ≡ raised (class_error (pos 1) (name_number c)) s

  invoke-refused : (m : Method) (s : State) → Refuses (class_of m) m s
  unfolding invoke couv_close couv_is_active couv_is_closing couv_ref couv_unref timer_stop
      timer_again timer_set_repeat timer_get_repeat process_kill process_get_pid couv_accept
      couv_get_write_queue_size couv_is_readable couv_is_writable couv_read_start couv_read_stop
      tcp_open tcp_nodelay tcp_keepalive tcp_simultaneous_accepts tcp_getsockname tcp_getpeername
      pipe_bind pipe_open couv_read2_start tty_set_mode tty_get_winsize udp_open udp_recv_start
      udp_recv_stop udp_getsockname udp_set_multicast_loop udp_set_multicast_ttl udp_set_broadcast
      udp_set_ttl
  invoke-refused (Method.close is_mainthread a) s = check-refused classes a ClassName.handle s _
  invoke-refused (Method.is_active a) s = check-refused classes a ClassName.handle s _
  invoke-refused (Method.is_closing a) s = check-refused classes a ClassName.handle s _
  invoke-refused (Method.ref a) s = check-refused classes a ClassName.handle s _
  invoke-refused (Method.unref a) s = check-refused classes a ClassName.handle s _
  invoke-refused (Method.handle_guess file) s = tt
  invoke-refused (Method.timer_stop a) s = check-refused classes a ClassName.timer s _
  invoke-refused (Method.timer_again a) s = check-refused classes a ClassName.timer s _
  invoke-refused (Method.timer_set_repeat a repeat) s = check-refused classes a ClassName.timer s _
  invoke-refused (Method.timer_get_repeat a) s = check-refused classes a ClassName.timer s _
  invoke-refused (Method.process_kill a signum) s = check-refused classes a ClassName.process s _
  invoke-refused (Method.process_get_pid pid a) s = check-refused classes a ClassName.process s _
  invoke-refused (Method.accept a b) s = check-refused classes a ClassName.stream s _
  invoke-refused (Method.get_write_queue_size size a) s =
      check-refused classes a ClassName.stream s _
  invoke-refused (Method.is_readable a) s = check-refused classes a ClassName.stream s _
  invoke-refused (Method.is_writable a) s = check-refused classes a ClassName.stream s _
  invoke-refused (Method.read_start a) s = check-refused classes a ClassName.stream s _
  invoke-refused (Method.read_stop a) s = check-refused classes a ClassName.stream s _
  invoke-refused (Method.tcp_open co a sock) s = check-refused classes a ClassName.tcp s _
  invoke-refused (Method.tcp_nodelay a enable) s = check-refused classes a ClassName.tcp s _
  invoke-refused (Method.tcp_keepalive a enable delay?) s =
      check-refused classes a ClassName.tcp s _
  invoke-refused (Method.tcp_simultaneous_accepts a enable) s =
      check-refused classes a ClassName.tcp s _
  invoke-refused (Method.tcp_getsockname name a) s = check-refused classes a ClassName.tcp s _
  invoke-refused (Method.tcp_getpeername name a) s = check-refused classes a ClassName.tcp s _
  invoke-refused (Method.pipe_bind a name) s = check-refused classes a ClassName.pipe s _
  invoke-refused (Method.pipe_open a file) s = check-refused classes a ClassName.pipe s _
  invoke-refused (Method.read2_start a) s = check-refused classes a ClassName.pipe s _
  invoke-refused (Method.tty_open_fd open_tty type) s = tt
  invoke-refused (Method.tty_set_mode a mode) s = check-refused classes a ClassName.tty s _
  invoke-refused Method.tty_reset_mode s = tt
  invoke-refused (Method.tty_get_winsize width height a) s =
      check-refused classes a ClassName.tty s _
  invoke-refused (Method.udp_open a sock) s = check-refused classes a ClassName.udp s _
  invoke-refused (Method.udp_recv_start a) s = check-refused classes a ClassName.udp s _
  invoke-refused (Method.udp_recv_stop a) s = check-refused classes a ClassName.udp s _
  invoke-refused (Method.udp_getsockname name a) s = check-refused classes a ClassName.udp s _
  invoke-refused (Method.udp_set_multicast_loop a on) s = check-refused classes a ClassName.udp s _
  invoke-refused (Method.udp_set_multicast_ttl a ttl) s = check-refused classes a ClassName.udp s _
  invoke-refused (Method.udp_set_broadcast a on) s = check-refused classes a ClassName.udp s _
  invoke-refused (Method.udp_set_ttl a ttl) s = check-refused classes a ClassName.udp s _

  -- Each method that takes a handle as its first argument, given userdata of another class that is
  -- not below its own, or no userdata, raises the error of the class for argument 1, and makes no
  -- call of libuv and changes nothing, whatever its other arguments are.
  pub other_class_is_refused :
      (m : Method) (c : ClassName) (s : State)
      → class_of m ≡ some c
      → is_of classes (handle_of m) c ≡ false
      → invoke classes uv errname m s ≡ raised (class_error (pos 1) (name_number c)) s
  other_class_is_refused m c s e = subst (λ o. Refuses o m s) e (invoke-refused m s)
