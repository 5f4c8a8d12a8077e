-- ===== src/SockAddr/Names.antt =====
-- The host and the port of an address make the address again.
use couv.Prelude.{
  ℕ, ◌<◌, ◌≤◌, ◌^◌, ◌≡◌, ◌==◌, ◌||◌, refl, inl, inr, true, some, List, String, if◌then◌else◌, arith,
  Bool-cases,
}
use mathlib.Core.Path.{subst}
use couv.Prelude.Int.{pos}
use couv.Lua.{Call, ok}
use couv.Buffer.Float.{ByteOrder}
use couv.SockAddr.{
  SockAddr, InetPton, IpName, af_inet, af_inet6, is_ip, htons, checkip, checksockfamily,
  tosockfamily, sockaddrv4_host, sockaddrv6_host, sockaddrv4_port, sockaddrv6_port, sockaddr_create,
  sockaddrv4_new_addr_port, sockaddrv6_new_addr_port,
}
use couv.SockAddr.Create.{htons-htons, port_ok}

-- `addr:host()` and `addr:port()`, of the class of the address.
abbrev pub host_of : {S : Type 0} → IpName → String → SockAddr → Call S (List ℕ)
host_of uv_ip_name errname a =
    if a.sa_family == af_inet
    then sockaddrv4_host uv_ip_name errname a
    else sockaddrv6_host uv_ip_name errname a

abbrev pub port_of : ByteOrder → SockAddr → ℕ
port_of host a = if a.sa_family == af_inet then sockaddrv4_port host a else sockaddrv6_port host a

htons-le : (host : ByteOrder) (n : ℕ) → n < 2 ^ 16 → htons host n ≤ 65535
htons-le ByteOrder.little n h = omega arith
htons-le ByteOrder.big n h = omega arith

module _ {S : Type 0} (host : ByteOrder) (uv_inet_pton : InetPton) (uv_ip_name : IpName)
    (errname : String) (s : S) (text : List ℕ) (port : ℕ) (addr : List ℕ)
    (small : port < 2 ^ 16) where
  abbrev of : ℕ → SockAddr
  of family = record { sa_family = family; sin_port = port; sin_addr = addr }

  abbrev Again : ℕ → Type 0
  Again family =
      uv_ip_name family addr ≡ some text
      → uv_inet_pton family text ≡ some addr
      → (t : List ℕ) × (host_of uv_ip_name errname (of family) s ≡ ok t s)
        × (sockaddr_create host uv_inet_pton t (pos (port_of host (of family))) (some (pos family))
              s
            ≡ ok (of family) s)

  v4-Again : Again af_inet
  unfolding sockaddrv4_host sockaddrv4_port sockaddr_create checkip checksockfamily tosockfamily
      sockaddrv4_new_addr_port
  v4-Again named reads = (
    text,
    rw (named) refl,
    rw
        (
          port_ok host uv_inet_pton text s 2 (htons host port) (htons-le host port small),
          reads,
          htons-htons host port (omega arith),
        )
        refl,
  )

  v6-Again : Again af_inet6
  unfolding sockaddrv6_host sockaddrv6_port sockaddr_create checkip checksockfamily tosockfamily
      sockaddrv6_new_addr_port
  v6-Again named reads = (
    text,
    rw (named) refl,
    rw
        (
          port_ok host uv_inet_pton text s 2 (htons host port) (htons-le host port small),
          reads,
          htons-htons host port (omega arith),
        )
        refl,
  )

  either-Again : (family : ℕ) → family == af_inet || family == af_inet6 ≡ true → Again family
  either-Again family ip = elim (Bool-cases (family == af_inet)) [
    | inl e ↦ let f : af_inet ≡ family = ground arith in subst Again f v4-Again
    | inr e ↦ let f : af_inet6 ≡ family = ground arith in subst Again f v6-Again
  ]

-- An address of IPv4 or IPv6 whose flow and scope are 0, on a host of either byte order: if libuv
-- names its bytes by a text that reads as them in its family, then that is the host, and
-- `SockAddr.create` of the host, the port and the family gives the address again.
pub named_and_made :
    {S : Type 0} (host : ByteOrder) (uv_inet_pton : InetPton) (uv_ip_name : IpName)
    (errname : String) (s : S) (a : SockAddr) (text : List ℕ)
    → is_ip a ≡ true
    → a.sin_port < 2 ^ 16
    → uv_ip_name a.sa_family a.sin_addr ≡ some text
    → uv_inet_pton a.sa_family text ≡ some a.sin_addr
    → (t : List ℕ) × (host_of uv_ip_name errname a s ≡ ok t s)
      × (sockaddr_create host uv_inet_pton t (pos (port_of host a)) (some (pos a.sa_family)) s
          ≡ ok a s)
named_and_made host uv_inet_pton uv_ip_name errname s a text ip small =
    either-Again host uv_inet_pton uv_ip_name errname s text a.sin_port a.sin_addr small a.sa_family
      ip
