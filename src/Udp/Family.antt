-- ===== src/Udp/Family.antt =====
-- Addresses reach the function of their family, and only nil is an interface.
use couv.Prelude.{
  true, ◌||◌, inl, inr, Option-cases, if◌then◌else◌, ◌≤◌, ℕ, ◌≡◌, refl, Option, none, some, List,
  String,
}
use couv.Prelude.Int.{ℤ, pos}
use couv.Prelude.CInt.{to_uint}
use couv.Lua.{ok, opt}
use couv.Buffer.Float.{ByteOrder}
use couv.SockAddr.Create.{is_read, port_ok}
use couv.SockAddr.{
  af_inet, af_inet6, sockaddr_create, checksockfamily, checkip, SockAddr, InetPton,
  sockaddrv4_new_addr_port, sockaddrv6_new_addr_port,
}
use couv.Udp.{UvCall, Interface, done, udp_bind, tcp_bind, udp_set_membership}

not_read : (r r' : Option (List ℕ)) → r ≡ none → r' ≡ none → is_read r || is_read r' ≡ true → ⊥
not_read none none e f g = cc
not_read none (some a) e f g = cc
not_read (some a) r' e f g = cc

module _ {S : Type 0} (uv : UvCall → ℤ) (errname : String) (host : ByteOrder) (s : S) where
  -- What `SockAddr.create` makes of a string and a port of 16 bits with no family is bound by
  -- libuv's function for IPv4 if the string reads as IPv4, and by that for IPv6 if it reads as IPv6
  -- only, on UDP, with any flags, and on TCP.
  pub created_address_binds :
      (uv_inet_pton : InetPton) (str : List ℕ) (port : ℕ) (flags? : Option ℤ)
      → port ≤ 65535
      → is_read (uv_inet_pton af_inet str) || is_read (uv_inet_pton af_inet6 str) ≡ true
      → (addr : SockAddr) × (sockaddr_create host uv_inet_pton str (pos port) none s ≡ ok addr s)
        × (udp_bind uv errname addr flags? s
            ≡ done uv errname
                (if is_read (uv_inet_pton af_inet str)
                  then UvCall.uv_udp_bind addr (to_uint (opt flags? (pos 0)))
                  else UvCall.uv_udp_bind6 addr (to_uint (opt flags? (pos 0))))
                s)
        × (tcp_bind uv errname addr s
            ≡ done uv errname
                (if is_read (uv_inet_pton af_inet str)
                  then UvCall.uv_tcp_bind addr
                  else UvCall.uv_tcp_bind6 addr)
                s)
  unfolding udp_bind tcp_bind sockaddr_create checksockfamily checkip sockaddrv4_new_addr_port
      sockaddrv6_new_addr_port
  created_address_binds uv_inet_pton str port flags? l good =
      elim (Option-cases (uv_inet_pton af_inet str)) [
        | inr (a, e) ↦ (
          sockaddrv4_new_addr_port host a port,
          rw (port_ok host uv_inet_pton str s 2 port l, e) refl,
          rw e refl,
          rw e refl,
        )
        | inl e ↦ elim (Option-cases (uv_inet_pton af_inet6 str)) [
          | inr (a, f) ↦ (
            sockaddrv6_new_addr_port host a port,
            rw (port_ok host uv_inet_pton str s 2 port l, e, f) refl,
            rw e refl,
            rw e refl,
          )
          | inl f ↦
              absurd (not_read (uv_inet_pton af_inet str) (uv_inet_pton af_inet6 str) e f good)
        ]
      ]

  -- If setMembership returns, its interface was nil: whatever libuv answers, no interface that is
  -- given by its address can be joined or left.
  pub membership_needs_nil :
      (multicast_addr : List ℕ) (interface : Interface) (membership : ℤ) (t : S)
      → udp_set_membership uv errname multicast_addr interface membership s ≡ ok tt t
      → interface ≡ Interface.nil
  unfolding udp_set_membership
  membership_needs_nil m Interface.nil k t e = refl
  membership_needs_nil m (Interface.string a) k t e = absurd cc
  membership_needs_nil m Interface.other k t e = absurd cc
