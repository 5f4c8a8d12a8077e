-- ===== src/Method/Program.antt =====
-- A program that calls the methods one after another.
use couv.Prelude.{ℕ, Bool, Option, none, some, List, [], ◌∷◌, String}
use couv.Prelude.Int.{ℤ}
use couv.Lua.{Call, Run, ok, raised, fault}
use couv.Class.Open.{ClassName}
use couv.SockAddr.{SockAddr}
use couv.Method.{UvCall, State, Arg, Reply}
use couv.Method.Handles
use couv.Method.Streams
use couv.Method.Datagrams

-- A method with its arguments.
pub data Method : Type 0 where
  close : (is_mainthread : Bool) → (a : Arg) → Method
  is_active : (a : Arg) → Method
  is_closing : (a : Arg) → Method
  ref : (a : Arg) → Method
  unref : (a : Arg) → Method
  handle_guess : (file : ℤ) → Method
  timer_stop : (a : Arg) → Method
  timer_again : (a : Arg) → Method
  timer_set_repeat : (a : Arg) → (repeat : ℤ) → Method
  timer_get_repeat : (a : Arg) → Method
  process_kill : (a : Arg) → (signum : ℤ) → Method
  process_get_pid : (pid : ℕ → ℤ) → (a : Arg) → Method
  accept : (a b : Arg) → Method
  get_write_queue_size : (size : ℕ → ℕ) → (a : Arg) → Method
  is_readable : (a : Arg) → Method
  is_writable : (a : Arg) → Method
  read_start : (a : Arg) → Method
  read_stop : (a : Arg) → Method
  tcp_open : (co : ℕ) → (a : Arg) → (sock : ℤ) → Method
  tcp_nodelay : (a : Arg) → (enable : Bool) → Method
  tcp_keepalive : (a : Arg) → (enable : Bool) → (delay? : Option ℤ) → Method
  tcp_simultaneous_accepts : (a : Arg) → (enable : Bool) → Method
  tcp_getsockname : (name : ℕ → SockAddr) → (a : Arg) → Method
  tcp_getpeername : (name : ℕ → SockAddr) → (a : Arg) → Method
  pipe_bind : (a : Arg) → (name : List ℕ) → Method
  pipe_open : (a : Arg) → (file : ℤ) → Method
  read2_start : (a : Arg) → Method
  tty_open_fd : (open_tty : Bool → ℤ) → (type : ℤ) → Method
  tty_set_mode : (a : Arg) → (mode : ℤ) → Method
  tty_reset_mode : Method
  tty_get_winsize : (width height : ℕ → ℤ) → (a : Arg) → Method
  udp_open : (a : Arg) → (sock : ℤ) → Method
  udp_recv_start : (a : Arg) → Method
  udp_recv_stop : (a : Arg) → Method
  udp_getsockname : (name : ℕ → SockAddr) → (a : Arg) → Method
  udp_set_multicast_loop : (a : Arg) → (on : Bool) → Method
  udp_set_multicast_ttl : (a : Arg) → (ttl : ℤ) → Method
  udp_set_broadcast : (a : Arg) → (on : Bool) → Method
  udp_set_ttl : (a : Arg) → (ttl : ℤ) → Method

module _ (classes : ℕ → Option ClassName) (uv : UvCall → ℤ) (errname : String) where
  unfoldable pub invoke : Method → Call State Reply
  invoke (Method.close is_mainthread a) = Handles.couv_close classes uv errname is_mainthread a
  invoke (Method.is_active a) = Handles.couv_is_active classes uv errname a
  invoke (Method.is_closing a) = Handles.couv_is_closing classes uv errname a
  invoke (Method.ref a) = Handles.couv_ref classes uv errname a
  invoke (Method.unref a) = Handles.couv_unref classes uv errname a
  invoke (Method.handle_guess file) = Handles.couv_handle_guess classes uv errname file
  invoke (Method.timer_stop a) = Handles.timer_stop classes uv errname a
  invoke (Method.timer_again a) = Handles.timer_again classes uv errname a
  invoke (Method.timer_set_repeat a repeat) = Handles.timer_set_repeat classes uv errname a repeat
  invoke (Method.timer_get_repeat a) = Handles.timer_get_repeat classes uv errname a
  invoke (Method.process_kill a signum) = Handles.process_kill classes uv errname a signum
  invoke (Method.process_get_pid pid a) = Handles.process_get_pid classes uv errname pid a
  invoke (Method.accept a b) = Streams.couv_accept classes uv errname a b
  invoke (Method.get_write_queue_size size a) =
      Streams.couv_get_write_queue_size classes uv errname size a
  invoke (Method.is_readable a) = Streams.couv_is_readable classes uv errname a
  invoke (Method.is_writable a) = Streams.couv_is_writable classes uv errname a
  invoke (Method.read_start a) = Streams.couv_read_start classes uv errname a
  invoke (Method.read_stop a) = Streams.couv_read_stop classes uv errname a
  invoke (Method.tcp_open co a sock) = Streams.tcp_open classes uv errname co a sock
  invoke (Method.tcp_nodelay a enable) = Streams.tcp_nodelay classes uv errname a enable
  invoke (Method.tcp_keepalive a enable delay?) =
      Streams.tcp_keepalive classes uv errname a enable delay?
  invoke (Method.tcp_simultaneous_accepts a enable) =
      Streams.tcp_simultaneous_accepts classes uv errname a enable
  invoke (Method.tcp_getsockname name a) = Streams.tcp_getsockname classes uv errname name a
  invoke (Method.tcp_getpeername name a) = Streams.tcp_getpeername classes uv errname name a
  invoke (Method.pipe_bind a name) = Streams.pipe_bind classes uv errname a name
  invoke (Method.pipe_open a file) = Streams.pipe_open classes uv errname a file
  invoke (Method.read2_start a) = Streams.couv_read2_start classes uv errname a
  invoke (Method.tty_open_fd open_tty type) = Streams.tty_open_fd classes uv errname open_tty type
  invoke (Method.tty_set_mode a mode) = Streams.tty_set_mode classes uv errname a mode
  invoke Method.tty_reset_mode = Streams.tty_reset_mode classes uv errname
  invoke (Method.tty_get_winsize width height a) =
      Streams.tty_get_winsize classes uv errname width height a
  invoke (Method.udp_open a sock) = Datagrams.udp_open classes uv errname a sock
  invoke (Method.udp_recv_start a) = Datagrams.udp_recv_start classes uv errname a
  invoke (Method.udp_recv_stop a) = Datagrams.udp_recv_stop classes uv errname a
  invoke (Method.udp_getsockname name a) = Datagrams.udp_getsockname classes uv errname name a
  invoke (Method.udp_set_multicast_loop a on) =
      Datagrams.udp_set_multicast_loop classes uv errname a on
  invoke (Method.udp_set_multicast_ttl a ttl) =
      Datagrams.udp_set_multicast_ttl classes uv errname a ttl
  invoke (Method.udp_set_broadcast a on) = Datagrams.udp_set_broadcast classes uv errname a on
  invoke (Method.udp_set_ttl a ttl) = Datagrams.udp_set_ttl classes uv errname a ttl

  -- An error ends the call that raised it; `none` is a fault.
  abbrev pub after : Run State Reply → (State → Option State) → Option State
  after (ok r s) k = k s
  after (raised e s) k = k s
  after fault k = none

  unfoldable pub run : List Method → State → Option State
  run [] s = some s
  run (m ∷ ms) s = after (invoke m s) (run ms)

-- The class of the first handle, and the argument that it is given by.
abbrev pub class_of : Method → Option ClassName
class_of (Method.close is_mainthread a) = some ClassName.handle
class_of (Method.is_active a) = some ClassName.handle
class_of (Method.is_closing a) = some ClassName.handle
class_of (Method.ref a) = some ClassName.handle
class_of (Method.unref a) = some ClassName.handle
class_of (Method.handle_guess file) = none
class_of (Method.timer_stop a) = some ClassName.timer
class_of (Method.timer_again a) = some ClassName.timer
class_of (Method.timer_set_repeat a repeat) = some ClassName.timer
class_of (Method.timer_get_repeat a) = some ClassName.timer
class_of (Method.process_kill a signum) = some ClassName.process
class_of (Method.process_get_pid pid a) = some ClassName.process
class_of (Method.accept a b) = some ClassName.stream
class_of (Method.get_write_queue_size size a) = some ClassName.stream
class_of (Method.is_readable a) = some ClassName.stream
class_of (Method.is_writable a) = some ClassName.stream
class_of (Method.read_start a) = some ClassName.stream
class_of (Method.read_stop a) = some ClassName.stream
class_of (Method.tcp_open co a sock) = some ClassName.tcp
class_of (Method.tcp_nodelay a enable) = some ClassName.tcp
class_of (Method.tcp_keepalive a enable delay?) = some ClassName.tcp
class_of (Method.tcp_simultaneous_accepts a enable) = some ClassName.tcp
class_of (Method.tcp_getsockname name a) = some ClassName.tcp
class_of (Method.tcp_getpeername name a) = some ClassName.tcp
class_of (Method.pipe_bind a name) = some ClassName.pipe
class_of (Method.pipe_open a file) = some ClassName.pipe
class_of (Method.read2_start a) = some ClassName.pipe
class_of (Method.tty_open_fd open_tty type) = none
class_of (Method.tty_set_mode a mode) = some ClassName.tty
class_of Method.tty_reset_mode = none
class_of (Method.tty_get_winsize width height a) = some ClassName.tty
class_of (Method.udp_open a sock) = some ClassName.udp
class_of (Method.udp_recv_start a) = some ClassName.udp
class_of (Method.udp_recv_stop a) = some ClassName.udp
class_of (Method.udp_getsockname name a) = some ClassName.udp
class_of (Method.udp_set_multicast_loop a on) = some ClassName.udp
class_of (Method.udp_set_multicast_ttl a ttl) = some ClassName.udp
class_of (Method.udp_set_broadcast a on) = some ClassName.udp
class_of (Method.udp_set_ttl a ttl) = some ClassName.udp

abbrev pub handle_of : Method → Arg
handle_of (Method.close is_mainthread a) = a
handle_of (Method.is_active a) = a
handle_of (Method.is_closing a) = a
handle_of (Method.ref a) = a
handle_of (Method.unref a) = a
handle_of (Method.handle_guess file) = Arg.other
handle_of (Method.timer_stop a) = a
handle_of (Method.timer_again a) = a
handle_of (Method.timer_set_repeat a repeat) = a
handle_of (Method.timer_get_repeat a) = a
handle_of (Method.process_kill a signum) = a
handle_of (Method.process_get_pid pid a) = a
handle_of (Method.accept a b) = a
handle_of (Method.get_write_queue_size size a) = a
handle_of (Method.is_readable a) = a
handle_of (Method.is_writable a) = a
handle_of (Method.read_start a) = a
handle_of (Method.read_stop a) = a
handle_of (Method.tcp_open co a sock) = a
handle_of (Method.tcp_nodelay a enable) = a
handle_of (Method.tcp_keepalive a enable delay?) = a
handle_of (Method.tcp_simultaneous_accepts a enable) = a
handle_of (Method.tcp_getsockname name a) = a
handle_of (Method.tcp_getpeername name a) = a
handle_of (Method.pipe_bind a name) = a
handle_of (Method.pipe_open a file) = a
handle_of (Method.read2_start a) = a
handle_of (Method.tty_open_fd open_tty type) = Arg.other
handle_of (Method.tty_set_mode a mode) = a
handle_of Method.tty_reset_mode = Arg.other
handle_of (Method.tty_get_winsize width height a) = a
handle_of (Method.udp_open a sock) = a
handle_of (Method.udp_recv_start a) = a
handle_of (Method.udp_recv_stop a) = a
handle_of (Method.udp_getsockname name a) = a
handle_of (Method.udp_set_multicast_loop a on) = a
handle_of (Method.udp_set_multicast_ttl a ttl) = a
handle_of (Method.udp_set_broadcast a on) = a
handle_of (Method.udp_set_ttl a ttl) = a
