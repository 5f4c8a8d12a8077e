-- ===== src/SockAddr.antt =====
-- The socket addresses of src/sockaddr.c. Reading an address from a string and naming one are
-- libuv's, and parameters.
pub mod Create
pub mod Names
mod Tests
use couv.Prelude.{
  String, ℕ, ◌+◌, ◌*◌, ◌/◌, ◌%◌, ◌≡◌, ◌&&◌, ◌||◌, ◌==◌, Bool, Option, none, some, List,
  if◌then◌else◌,
}
use couv.Prelude.Int.{ℤ, pos, negsuc, pos_part, leb_ℤ}
use couv.Lua.{Call, ok, pure, raise, lua_error, argcheck, or_error, arg_error, ◌>>=◌, ◌>>◌}
use couv.Buffer.Float.{ByteOrder}

-- Linux's numbers of the address families.
abbrev pub af_unspec : ℕ
af_unspec = 0

abbrev pub af_inet : ℕ
af_inet = 2

abbrev pub af_inet6 : ℕ
af_inet6 = 10

-- `sockaddr_in` and `sockaddr_in6`: the family, the port in network order and the address. The flow
-- and the scope of IPv6, which `memset` clears, are left out.
pub record SockAddr : Type 0 where
  pub sa_family : ℕ
  pub sin_port : ℕ
  pub sin_addr : List ℕ

-- `htons` and `ntohs`, on 16 bits.
abbrev pub htons : ByteOrder → ℕ → ℕ
htons ByteOrder.little n = (n / 256) % 256 + 256 * (n % 256)
htons ByteOrder.big n = n

-- `sa_family` and what `memcpy` leaves of the address.
abbrev pub InetPton : Type 0
InetPton = ℕ → List ℕ → Option (List ℕ)

-- A family that was read and the address in it.
pub record Ip : Type 0 where
  pub af : ℕ
  pub addr : List ℕ

abbrev pub ip_in : ℕ → Option (List ℕ) → Option Ip
ip_in af none = none
ip_in af (some a) = some (record { af = af; addr = a })

abbrev pub or_else : Option Ip → Option Ip → Option Ip
or_else none d = d
or_else (some a) d = some a

-- With `AF_UNSPEC`, IPv4 is tried before IPv6.
unfoldable pub couv_inet_pton : InetPton → ℕ → List ℕ → Option Ip
couv_inet_pton uv_inet_pton af src =
    if af == af_unspec
    then or_else (ip_in af_inet (uv_inet_pton af_inet src))
        (ip_in af_inet6 (uv_inet_pton af_inet6 src))
    else ip_in af (uv_inet_pton af src)

unfoldable pub checkip : {S : Type 0} → InetPton → ℕ → ℕ → List ℕ → Call S Ip
unfolding couv_inet_pton
checkip uv_inet_pton index af str =
    or_error (arg_error index "must be valid IP address") (couv_inet_pton uv_inet_pton af str)

abbrev pub is_port : ℤ → Bool
is_port port = leb_ℤ (pos 0) port && leb_ℤ port (pos 65535)

unfoldable pub checkport : {S : Type 0} → ℕ → ℤ → Call S ℕ
checkport index port = do
  argcheck (is_port port) index "must be integer between 0 and 65535"
  pure (pos_part port)

-- `none` for -1.
unfoldable pub tosockfamily : Option ℤ → Option ℕ
tosockfamily none = some af_unspec
tosockfamily (some (negsuc n)) = none
tosockfamily (some (pos n)) =
    if n == af_unspec || n == af_inet || n == af_inet6 then some n else none

unfoldable pub checksockfamily : {S : Type 0} → ℕ → Option ℤ → Call S ℕ
unfolding tosockfamily
checksockfamily index family? =
    or_error (arg_error index "must be AF_UNSPEC, AF_INET or AF_INET6") (tosockfamily family?)

-- An address of IPv4 or IPv6.
abbrev pub is_ip : SockAddr → Bool
is_ip addr = addr.sa_family == af_inet || addr.sa_family == af_inet6

-- Only the two families of IP are pushed to Lua.
unfoldable pub pushsockaddr : {S : Type 0} → SockAddr → Call S SockAddr
pushsockaddr addr = if is_ip addr then pure addr else raise (lua_error "ENOTSUP")

-- `uv_ip4_name` and `uv_ip6_name`, by the family and the address; `none` is an error.
abbrev pub IpName : Type 0
IpName = ℕ → List ℕ → Option (List ℕ)

module _ {S : Type 0} (uv_ip_name : IpName) (errname : String) where
  unfoldable pub sockaddrv4_host : SockAddr → Call S (List ℕ)
  sockaddrv4_host addr = or_error (lua_error errname) (uv_ip_name af_inet addr.sin_addr)

  unfoldable pub sockaddrv6_host : SockAddr → Call S (List ℕ)
  sockaddrv6_host addr = or_error (lua_error errname) (uv_ip_name af_inet6 addr.sin_addr)

module _ (host : ByteOrder) where
  unfoldable pub sockaddrv4_new_addr_port : List ℕ → ℕ → SockAddr
  sockaddrv4_new_addr_port addr port = record {
    sa_family = af_inet;
    sin_port = htons host port;
    sin_addr = addr;
  }

  unfoldable pub sockaddrv6_new_addr_port : List ℕ → ℕ → SockAddr
  sockaddrv6_new_addr_port addr port = record {
    sa_family = af_inet6;
    sin_port = htons host port;
    sin_addr = addr;
  }

  unfoldable pub sockaddrv4_port : SockAddr → ℕ
  sockaddrv4_port addr = htons host addr.sin_port

  unfoldable pub sockaddrv6_port : SockAddr → ℕ
  sockaddrv6_port addr = htons host addr.sin_port

  module _ {S : Type 0} (uv_inet_pton : InetPton) where
    unfoldable pub sockaddrv4_new : List ℕ → ℤ → Call S SockAddr
    sockaddrv4_new str port = do
      ip ← checkip uv_inet_pton 1 af_inet str
      p ← checkport 2 port
      pure (sockaddrv4_new_addr_port ip.addr p)

    unfoldable pub sockaddrv6_new : List ℕ → ℤ → Call S SockAddr
    sockaddrv6_new str port = do
      ip ← checkip uv_inet_pton 1 af_inet6 str
      p ← checkport 2 port
      pure (sockaddrv6_new_addr_port ip.addr p)

    unfoldable pub sockaddr_create : List ℕ → ℤ → Option ℤ → Call S SockAddr
    sockaddr_create str port family? = do
      p ← checkport 2 port
      af ← checksockfamily 3 family?
      ip ← checkip uv_inet_pton 1 af str
      if ip.af == af_inet
          then pure (sockaddrv4_new_addr_port ip.addr p)
          else pure (sockaddrv6_new_addr_port ip.addr p)

unfoldable pub sockaddr_is_v4 : SockAddr → Bool
sockaddr_is_v4 addr = addr.sa_family == af_inet

unfoldable pub sockaddr_is_v6 : SockAddr → Bool
sockaddr_is_v6 addr = addr.sa_family == af_inet6
