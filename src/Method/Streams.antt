-- ===== src/Method/Streams.antt =====
-- The methods of streams, of src/stream.c, and of TCP handles, pipes and terminals, of src/tcp.c,
-- src/pipe.c and src/tty.c.
use couv.Prelude.{ℕ, Bool, true, false, not, Option, List, [], ◌∷◌, ◌==◌, String, if◌then◌else◌}
use couv.Prelude.Int.{ℤ, pos, is_zero, ◌-ℤ◌}
use couv.Prelude.CInt.{to_int, to_uint}
use couv.Lua.{Call, ok, raise, lua_error, arg_error, opt, ◌>>=◌, ◌>>◌}
use couv.Class.Open.{ClassName}
use couv.SockAddr.{SockAddr, pushsockaddr}
use couv.Method.{UvCall, State, Arg, Value, Reply, checkudataclass, tell, nothing, check}

module _ (classes : ℕ → Option ClassName) (uv : UvCall → ℤ) (errname : String) where
  unfoldable pub couv_accept : Arg → Arg → Call State Reply
  couv_accept a b = do
    server ← checkudataclass classes (pos 1) a ClassName.stream
    client ← checkudataclass classes (pos 2) b ClassName.stream
    r ← tell uv (UvCall.uv_accept server client)
    check errname r
    nothing

  -- `handle->write_queue_size`.
  unfoldable pub couv_get_write_queue_size : (size : ℕ → ℕ) → Arg → Call State Reply
  couv_get_write_queue_size size a = do
    h ← checkudataclass classes (pos 1) a ClassName.stream
    ok (Reply.returns (Value.number (pos (size h)) ∷ []))

  unfoldable pub couv_is_readable : Arg → Call State Reply
  couv_is_readable a = do
    h ← checkudataclass classes (pos 1) a ClassName.stream
    r ← tell uv (UvCall.uv_is_readable h)
    ok (Reply.returns (Value.boolean (not (is_zero r)) ∷ []))

  unfoldable pub couv_is_writable : Arg → Call State Reply
  couv_is_writable a = do
    h ← checkudataclass classes (pos 1) a ClassName.stream
    r ← tell uv (UvCall.uv_is_writable h)
    ok (Reply.returns (Value.boolean (not (is_zero r)) ∷ []))

  unfoldable pub couv_read_start : Arg → Call State Reply
  couv_read_start a = do
    h ← checkudataclass classes (pos 1) a ClassName.stream
    r ← tell uv (UvCall.uv_read_start h)
    check errname r
    nothing

  unfoldable pub couv_read_stop : Arg → Call State Reply
  couv_read_stop a = do
    h ← checkudataclass classes (pos 1) a ClassName.stream
    r ← tell uv (UvCall.uv_read_stop h)
    check errname r
    nothing

  -- The coroutine of the handle becomes the one that opens it.
  unfoldable pub tcp_open : (co : ℕ) → Arg → (sock : ℤ) → Call State Reply
  tcp_open co a sock = do
    h ← checkudataclass classes (pos 1) a ClassName.tcp
    r ← tell uv (UvCall.uv_tcp_open h (to_int sock))
    check errname r
    λ s. nothing (record s { owner = λ q. if q == h then co else s.owner q })

  unfoldable pub tcp_nodelay : Arg → (enable : Bool) → Call State Reply
  tcp_nodelay a enable = do
    h ← checkudataclass classes (pos 1) a ClassName.tcp
    r ← tell uv (UvCall.uv_tcp_nodelay h enable)
    check errname r
    nothing

  unfoldable pub tcp_keepalive : Arg → (enable : Bool) → (delay? : Option ℤ) → Call State Reply
  tcp_keepalive a enable delay? = do
    h ← checkudataclass classes (pos 1) a ClassName.tcp
    r ← tell uv (UvCall.uv_tcp_keepalive h enable (to_uint (opt delay? (pos 0))))
    check errname r
    nothing

  unfoldable pub tcp_simultaneous_accepts : Arg → (enable : Bool) → Call State Reply
  tcp_simultaneous_accepts a enable = do
    h ← checkudataclass classes (pos 1) a ClassName.tcp
    r ← tell uv (UvCall.uv_tcp_simultaneous_accepts h enable)
    check errname r
    nothing

  -- `name` is what libuv writes to the structure that it is given.
  unfoldable pub tcp_getsockname : (name : ℕ → SockAddr) → Arg → Call State Reply
  tcp_getsockname name a = do
    h ← checkudataclass classes (pos 1) a ClassName.tcp
    r ← tell uv (UvCall.uv_tcp_getsockname h)
    check errname r
    addr ← pushsockaddr (name h)
    ok (Reply.returns (Value.address addr ∷ []))

  unfoldable pub tcp_getpeername : (name : ℕ → SockAddr) → Arg → Call State Reply
  tcp_getpeername name a = do
    h ← checkudataclass classes (pos 1) a ClassName.tcp
    r ← tell uv (UvCall.uv_tcp_getpeername h)
    check errname r
    addr ← pushsockaddr (name h)
    ok (Reply.returns (Value.address addr ∷ []))

  unfoldable pub pipe_bind : Arg → (name : List ℕ) → Call State Reply
  pipe_bind a name = do
    h ← checkudataclass classes (pos 1) a ClassName.pipe
    r ← tell uv (UvCall.uv_pipe_bind h name)
    check errname r
    nothing

  unfoldable pub pipe_open : Arg → (file : ℤ) → Call State Reply
  pipe_open a file = do
    h ← checkudataclass classes (pos 1) a ClassName.pipe
    r ← tell uv (UvCall.uv_pipe_open h file)
    check errname r
    nothing

  unfoldable pub couv_read2_start : Arg → Call State Reply
  couv_read2_start a = do
    h ← checkudataclass classes (pos 1) a ClassName.pipe
    r ← tell uv (UvCall.uv_read2_start h)
    check errname r
    nothing

  -- `open` of "/dev/tty", for reading with 0 and for writing with 1; its error is returned too.
  unfoldable pub tty_open_fd : (open_tty : (o_wronly : Bool) → ℤ) → (type : ℤ) → Call State Reply
  tty_open_fd open_tty type =
      if is_zero type
      then ok (Reply.returns (Value.number (open_tty false) ∷ []))
      else if is_zero (type -ℤ pos 1)
      then ok (Reply.returns (Value.number (open_tty true) ∷ []))
      else raise (arg_error 1 "must be 0(ttyin) or 1(ttyout)")

  unfoldable pub tty_set_mode : Arg → (mode : ℤ) → Call State Reply
  tty_set_mode a mode = do
    h ← checkudataclass classes (pos 1) a ClassName.tty
    r ← tell uv (UvCall.uv_tty_set_mode h mode)
    check errname r
    nothing

  unfoldable pub tty_reset_mode : Call State Reply
  tty_reset_mode = do tell uv UvCall.uv_tty_reset_mode; nothing

  -- Any answer but 0 is an error.
  unfoldable pub tty_get_winsize : (width height : ℕ → ℤ) → Arg → Call State Reply
  tty_get_winsize width height a = do
    h ← checkudataclass classes (pos 1) a ClassName.tty
    r ← tell uv (UvCall.uv_tty_get_winsize h)
    if is_zero r then ok tt else raise (lua_error errname)
    ok (Reply.returns (Value.number (width h) ∷ Value.number (height h) ∷ []))
