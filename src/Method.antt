-- ===== src/Method.antt =====
-- The methods that check the class of their handle and then call libuv: those of src/handle.c,
-- src/tcp.c, src/udp.c, src/pipe.c, src/tty.c, src/timer.c, src/stream.c and src/process.c that
-- the other parts leave out. What libuv answers is a parameter; Lua has converted the arguments.
pub mod Handles
pub mod Streams
pub mod Datagrams
pub mod Program
pub mod Typed
pub mod Shapes
pub mod Safe
pub mod Refused
mod Tests
use couv.Prelude.{ℕ, Bool, true, false, Option, none, some, List, [], ◌∷◌, String, if◌then◌else◌}
use couv.Prelude.Int.{ℤ, pos, ltb_ℤ}
use couv.Lua.{Call, Run, ok, raised, raise, fault, lua_error, class_error, ◌>>=◌, ◌>>◌}
use couv.Class.{testudataclass}
use couv.Class.Open.{ClassName, name_number, object_at}
use couv.Class.Hierarchy.{opened}
use couv.SockAddr.{SockAddr}

-- A call of libuv with the handles that it is given, by the number of their userdata.
pub data UvCall : Type 0 where
  uv_close uv_is_active uv_is_closing uv_ref uv_unref : (handle : ℕ) → UvCall
  uv_guess_handle : (file : ℤ) → UvCall
  uv_accept : (server client : ℕ) → UvCall
  uv_is_readable uv_is_writable uv_read_start uv_read_stop uv_read2_start : (handle : ℕ) → UvCall
  uv_tcp_open : (handle : ℕ) → (sock : ℤ) → UvCall
  uv_tcp_nodelay : (handle : ℕ) → (enable : Bool) → UvCall
  uv_tcp_keepalive : (handle : ℕ) → (enable : Bool) → (delay : ℕ) → UvCall
  uv_tcp_simultaneous_accepts : (handle : ℕ) → (enable : Bool) → UvCall
  uv_tcp_getsockname uv_tcp_getpeername : (handle : ℕ) → UvCall
  uv_udp_open : (handle : ℕ) → (sock : ℤ) → UvCall
  uv_udp_recv_start uv_udp_recv_stop uv_udp_getsockname : (handle : ℕ) → UvCall
  uv_udp_set_multicast_loop uv_udp_set_broadcast : (handle : ℕ) → (on : Bool) → UvCall
  uv_udp_set_multicast_ttl uv_udp_set_ttl : (handle : ℕ) → (ttl : ℤ) → UvCall
  uv_pipe_bind : (handle : ℕ) → (name : List ℕ) → UvCall
  uv_pipe_open : (handle : ℕ) → (file : ℤ) → UvCall
  uv_tty_set_mode : (handle : ℕ) → (mode : ℤ) → UvCall
  uv_tty_reset_mode : UvCall
  uv_tty_get_winsize : (handle : ℕ) → UvCall
  uv_timer_stop uv_timer_again uv_timer_get_repeat : (handle : ℕ) → UvCall
  uv_timer_set_repeat : (handle : ℕ) → (repeat : ℤ) → UvCall
  uv_process_kill : (handle : ℕ) → (signum : ℤ) → UvCall

-- The calls of libuv, the last one first, and the coroutine in the `data` of each handle.
pub record State : Type 0 where
  pub calls : List UvCall
  pub owner : ℕ → ℕ

-- An argument: userdata by its number, or another value.
pub data Arg : Type 0 where
  userdata : ℕ → Arg
  other : Arg

pub data Value : Type 0 where
  number : ℤ → Value
  boolean : Bool → Value
  address : SockAddr → Value

pub data Reply : Type 0 where
  returns : List Value → Reply
  yields : Reply

abbrev pub is_userdata : Arg → Bool
is_userdata (Arg.userdata k) = true
is_userdata Arg.other = false

abbrev pub index_of : Arg → ℕ
index_of (Arg.userdata k) = k
index_of Arg.other = 0

-- What follows the test of a class; a test that does not end is a fault.
abbrev pub found : {S : Type 0} → ℕ → ℤ → ClassName → Option Bool → Call S ℕ
found k arg c none = λ s. fault
found k arg c (some true) = ok k
found k arg c (some false) = raise (class_error arg (name_number c))

-- The classes are those that `luaopen_couv_native` made. The test takes at most five steps.
unfoldable pub checkudataclass :
    {S : Type 0} → (ℕ → Option ClassName) → (arg : ℤ) → Arg → ClassName → Call S ℕ
checkudataclass classes arg a c =
    found (index_of a) arg c
      (testudataclass 5 (opened classes) (is_userdata a) (object_at (index_of a)) (name_number c))

-- A call of libuv.
abbrev pub tell : (UvCall → ℤ) → UvCall → Call State ℤ
tell uv call s = ok (uv call) (record s { calls = call ∷ s.calls })

abbrev pub nothing : Call State Reply
nothing = ok (Reply.returns [])

-- `if (r < 0) return luaL_error(L, couvL_uv_lasterrname(couv_loop(L)));`
abbrev pub check : String → ℤ → Call State (Unit {0})
check errname r = if ltb_ℤ r (pos 0) then raise (lua_error errname) else ok tt
