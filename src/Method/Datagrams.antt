-- ===== src/Method/Datagrams.antt =====
-- The methods of UDP handles, of src/udp.c.
use couv.Prelude.{ℕ, Bool, Option, [], ◌∷◌, String}
use couv.Prelude.Int.{ℤ, pos}
use couv.Prelude.CInt.{to_int}
use couv.Lua.{Call, ok, ◌>>=◌, ◌>>◌}
use couv.Class.Open.{ClassName}
use couv.SockAddr.{SockAddr, pushsockaddr}
use couv.Method.{UvCall, State, Arg, Value, Reply, checkudataclass, tell, nothing, check}

module _ (classes : ℕ → Option ClassName) (uv : UvCall → ℤ) (errname : String) where
  unfoldable pub udp_open : Arg → (sock : ℤ) → Call State Reply
  udp_open a sock = do
    h ← checkudataclass classes (pos 1) a ClassName.udp
    r ← tell uv (UvCall.uv_udp_open h (to_int sock))
    check errname r
    nothing

  unfoldable pub udp_recv_start : Arg → Call State Reply
  udp_recv_start a = do
    h ← checkudataclass classes (pos 1) a ClassName.udp
    r ← tell uv (UvCall.uv_udp_recv_start h)
    check errname r
    nothing

  unfoldable pub udp_recv_stop : Arg → Call State Reply
  udp_recv_stop a = do
    h ← checkudataclass classes (pos 1) a ClassName.udp
    r ← tell uv (UvCall.uv_udp_recv_stop h)
    check errname r
    nothing

  -- `name` is what libuv writes to the structure that it is given.
  unfoldable pub udp_getsockname : (name : ℕ → SockAddr) → Arg → Call State Reply
  udp_getsockname name a = do
    h ← checkudataclass classes (pos 1) a ClassName.udp
    r ← tell uv (UvCall.uv_udp_getsockname h)
    check errname r
    addr ← pushsockaddr (name h)
    ok (Reply.returns (Value.address addr ∷ []))

  unfoldable pub udp_set_multicast_loop : Arg → (on : Bool) → Call State Reply
  udp_set_multicast_loop a on = do
    h ← checkudataclass classes (pos 1) a ClassName.udp
    r ← tell uv (UvCall.uv_udp_set_multicast_loop h on)
    check errname r
    nothing

  unfoldable pub udp_set_multicast_ttl : Arg → (ttl : ℤ) → Call State Reply
  udp_set_multicast_ttl a ttl = do
    h ← checkudataclass classes (pos 1) a ClassName.udp
    r ← tell uv (UvCall.uv_udp_set_multicast_ttl h ttl)
    check errname r
    nothing

  unfoldable pub udp_set_broadcast : Arg → (on : Bool) → Call State Reply
  udp_set_broadcast a on = do
    h ← checkudataclass classes (pos 1) a ClassName.udp
    r ← tell uv (UvCall.uv_udp_set_broadcast h on)
    check errname r
    nothing

  unfoldable pub udp_set_ttl : Arg → (ttl : ℤ) → Call State Reply
  udp_set_ttl a ttl = do
    h ← checkudataclass classes (pos 1) a ClassName.udp
    r ← tell uv (UvCall.uv_udp_set_ttl h ttl)
    check errname r
    nothing
