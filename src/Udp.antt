-- ===== src/Udp.antt =====
-- Binding and the membership of a UDP handle, of src/udp.c, and the binding of a TCP handle, of
-- src/tcp.c. What libuv answers to a call is a parameter.
pub mod Family
mod Tests
use couv.Prelude.{ℕ, ◌==◌, Option, none, some, List, String, if◌then◌else◌}
use couv.Prelude.Int.{ℤ, pos, ltb_ℤ}
use couv.Prelude.CInt.{to_uint}
use couv.Lua.{Call, ok, raise, arg_error, lua_error, opt, ◌>>=◌, ◌>>◌}
use couv.SockAddr.{SockAddr, af_inet}

-- A call of libuv on the handle.
pub data UvCall : Type 0 where
  uv_udp_bind uv_udp_bind6 : SockAddr → (flags : ℕ) → UvCall
  uv_tcp_bind uv_tcp_bind6 : SockAddr → UvCall
  uv_udp_set_membership : (multicast_addr : List ℕ) → Option (List ℕ) → (membership : ℤ) → UvCall

-- The third argument of setMembership, by `lua_type`.
pub data Interface : Type 0 where
  string : List ℕ → Interface
  nil : Interface
  other : Interface

module _ {S : Type 0} (uv : UvCall → ℤ) (errname : String) where
  -- `if (r < 0) return luaL_error(...); return 0;`
  abbrev pub done : UvCall → Call S (Unit {0})
  done call = if ltb_ℤ (uv call) (pos 0) then raise (lua_error errname) else ok tt

  unfoldable pub udp_bind : SockAddr → Option ℤ → Call S (Unit {0})
  udp_bind addr flags? =
      let flags = to_uint (opt flags? (pos 0)) in
      if addr.sa_family == af_inet
      then done (UvCall.uv_udp_bind addr flags)
      else done (UvCall.uv_udp_bind6 addr flags)

  unfoldable pub tcp_bind : SockAddr → Call S (Unit {0})
  tcp_bind addr =
      if addr.sa_family == af_inet
      then done (UvCall.uv_tcp_bind addr)
      else done (UvCall.uv_tcp_bind6 addr)

  -- The second `if` stands alone: what is not nil is refused, a string too.
  unfoldable pub udp_set_membership : List ℕ → Interface → ℤ → Call S (Unit {0})
  udp_set_membership multicast_addr Interface.nil membership =
      done (UvCall.uv_udp_set_membership multicast_addr none membership)
  udp_set_membership multicast_addr (Interface.string s) membership =
      raise (arg_error 3 "must be string or nil")
  udp_set_membership multicast_addr Interface.other membership =
      raise (arg_error 3 "must be string or nil")
