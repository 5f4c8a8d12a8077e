-- ===== src/Handle.antt =====
-- What a handle keeps in Lua's registry, from its constructor in src/tcp.c, src/udp.c, src/pipe.c,
-- src/tty.c, src/timer.c or src/process.c to `close_cb` of src/handle.c. The results of libuv's
-- calls are arguments.
pub mod Closing
pub mod Callbacks
mod Tests
use couv.Prelude.{
  ℕ, ◌+◌, ◌==◌, Bool, true, false, Option, none, some, List, [], ◌∷◌, String, if◌then◌else◌,
}
use couv.Prelude.Int.{ℤ, pos, ltb_ℤ}
use couv.Lua.{Call, Run, ok, raised, raise, fault, lua_error, arg_error, ◌>>=◌, ◌>>◌}

-- `uv_handle_type`, as far as the constructors make it.
pub data Kind : Type 0 where
  process tcp timer udp tty named_pipe : Kind

-- What the registry holds: a handle's userdata, a coroutine, or a function.
pub data Value : Type 0 where
  userdata : ℕ → Value
  thread : Value
  callback : ℕ → Value

-- Light userdata keys, by address.
abbrev pub Registry : Type 0
Registry = ℕ → Option Value

-- `COUV_USERDATA_REG_KEY`, `COUV_THREAD_REG_KEY`, and the one key of `COUV_LISTEN_CB_REG_KEY`,
-- `COUV_TIMER_CB_REG_KEY` and `COUV_EXIT_CB_REG_KEY`.
abbrev pub userdata_key : ℕ → ℕ
userdata_key h = h

abbrev pub thread_key : ℕ → ℕ
thread_key h = h + 1

abbrev pub callback_key : ℕ → ℕ
callback_key h = h + 2

abbrev pub put : Registry → ℕ → Option Value → Registry
put r k v j = if j == k then v else r j

abbrev pub rawsetp : ℕ → Option Value → Call Registry (Unit {0})
rawsetp k v r = ok tt (put r k v)

-- `if (r < 0) luaL_error(L, couvL_uv_lasterrname(...));`
abbrev pub check : String → ℤ → Call Registry (Unit {0})
check errname r = if ltb_ℤ r (pos 0) then raise (lua_error errname) else ok tt

-- In a coroutine its thread is registered; the main thread is refused.
abbrev pub in_coroutine : String → Bool → ℕ → Call Registry (Unit {0})
in_coroutine msg is_mainthread h =
    if is_mainthread then raise (lua_error msg) else rawsetp (thread_key h) (some Value.thread)

module _ (errname : String) (h : ℕ) where
  unfoldable pub tcp_new : (is_mainthread : Bool) → (init : ℤ) → Call Registry (Unit {0})
  tcp_new is_mainthread init = do
    in_coroutine "tcp handle must be created in coroutine, not in main thread." is_mainthread h
    check errname init
    rawsetp (userdata_key h) (some (Value.userdata h))

  unfoldable pub udp_new : (is_mainthread : Bool) → (init : ℤ) → Call Registry (Unit {0})
  udp_new is_mainthread init = do
    in_coroutine "udp handle must be created in coroutine, not in main thread." is_mainthread h
    check errname init
    rawsetp (userdata_key h) (some (Value.userdata h))

  unfoldable pub pipe_new : (is_mainthread : Bool) → (init : ℤ) → Call Registry (Unit {0})
  pipe_new is_mainthread init = do
    in_coroutine "pipe handle must be created in coroutine, not in main thread." is_mainthread h
    check errname init
    rawsetp (userdata_key h) (some (Value.userdata h))

  unfoldable pub tty_new : (is_mainthread : Bool) → (init : ℤ) → Call Registry (Unit {0})
  tty_new is_mainthread init = do
    if is_mainthread then ok tt else rawsetp (thread_key h) (some Value.thread)
    check errname init
    rawsetp (userdata_key h) (some (Value.userdata h))

  unfoldable pub timer_create : (init : ℤ) → Call Registry (Unit {0})
  timer_create init = check errname init

  -- The callback is registered before the call of libuv, the handle after it.
  unfoldable pub timer_start : (cb : ℕ) → (start : ℤ) → Call Registry (Unit {0})
  timer_start cb start = do
    rawsetp (callback_key h) (some (Value.callback cb))
    check errname start
    rawsetp (userdata_key h) (some (Value.userdata h))

  unfoldable pub couv_listen : (cb : ℕ) → (listen : ℤ) → Call Registry (Unit {0})
  couv_listen cb listen = do
    rawsetp (callback_key h) (some (Value.callback cb))
    check errname listen
    rawsetp (userdata_key h) (some (Value.userdata h))

  -- From the exit callback on; `none` is a value that is no function.
  unfoldable pub process_spawn : (exit_cb : Option ℕ) → (spawn : ℤ) → Call Registry (Unit {0})
  process_spawn none spawn = raise (arg_error 1 "value at \"exitCb\" key must be function")
  process_spawn (some cb) spawn = do
    rawsetp (callback_key h) (some (Value.callback cb))
    check errname spawn
    rawsetp (userdata_key h) (some (Value.userdata h))

unfoldable pub clean_process_handle : ℕ → Registry → Registry
clean_process_handle h r = put (put r (userdata_key h) none) (callback_key h) none

unfoldable pub clean_timer_handle : ℕ → Registry → Registry
clean_timer_handle h r = put (put r (callback_key h) none) (userdata_key h) none

unfoldable pub clean_udp_handle : ℕ → Registry → Registry
clean_udp_handle h r = put (put r (userdata_key h) none) (thread_key h) none

unfoldable pub clean_tcp_handle : ℕ → Registry → Registry
clean_tcp_handle h r =
    put (put (put r (userdata_key h) none) (thread_key h) none) (callback_key h) none

unfoldable pub clean_tty_handle : ℕ → Registry → Registry
clean_tty_handle h r =
    put (put (put r (userdata_key h) none) (thread_key h) none) (callback_key h) none

-- No function of the source calls it.
unfoldable pub clean_pipe_handle : ℕ → Registry → Registry
clean_pipe_handle h r =
    put (put (put r (userdata_key h) none) (thread_key h) none) (callback_key h) none

-- What `close_cb` does to the registry. A named pipe falls under `default`.
unfoldable pub close_cb : Kind → ℕ → Registry → Registry
close_cb Kind.process h r = clean_process_handle h r
close_cb Kind.tcp h r = clean_tcp_handle h r
close_cb Kind.timer h r = clean_timer_handle h r
close_cb Kind.udp h r = clean_udp_handle h r
close_cb Kind.tty h r = clean_tty_handle h r
close_cb Kind.named_pipe h r = r

-- The calls that use the registry, by the kind of handle.
pub data Act : Kind → Type 0 where
  new_tcp : (is_mainthread : Bool) → (init : ℤ) → Act Kind.tcp
  listen_tcp : (cb : ℕ) → (listen : ℤ) → Act Kind.tcp
  new_udp : (is_mainthread : Bool) → (init : ℤ) → Act Kind.udp
  new_pipe : (is_mainthread : Bool) → (init : ℤ) → Act Kind.named_pipe
  listen_pipe : (cb : ℕ) → (listen : ℤ) → Act Kind.named_pipe
  new_tty : (is_mainthread : Bool) → (init : ℤ) → Act Kind.tty
  listen_tty : (cb : ℕ) → (listen : ℤ) → Act Kind.tty
  create_timer : (init : ℤ) → Act Kind.timer
  start_timer : (cb : ℕ) → (start : ℤ) → Act Kind.timer
  spawn_process : (exit_cb : Option ℕ) → (spawn : ℤ) → Act Kind.process

module _ (errname : String) (h : ℕ) where
  unfoldable pub act : {k : Kind} → Act k → Call Registry (Unit {0})
  act (Act.new_tcp m i) = tcp_new errname h m i
  act (Act.listen_tcp cb l) = couv_listen errname h cb l
  act (Act.new_udp m i) = udp_new errname h m i
  act (Act.new_pipe m i) = pipe_new errname h m i
  act (Act.listen_pipe cb l) = couv_listen errname h cb l
  act (Act.new_tty m i) = tty_new errname h m i
  act (Act.listen_tty cb l) = couv_listen errname h cb l
  act (Act.create_timer i) = timer_create errname h i
  act (Act.start_timer cb s) = timer_start errname h cb s
  act (Act.spawn_process cb s) = process_spawn errname h cb s

  -- The registry after a call, whether it returned or raised.
  abbrev pub left_by : Run Registry (Unit {0}) → Registry → Registry
  left_by (ok _ r) before = r
  left_by (raised _ r) before = r
  left_by fault before = before

  unfoldable pub acts : {k : Kind} → List (Act k) → Registry → Registry
  acts [] r = r
  acts (a ∷ rest) r = acts rest (left_by (act a r) r)
