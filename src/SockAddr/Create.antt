-- ===== src/SockAddr/Create.antt =====
-- What an address that is made from a string, a port and a family holds.
use couv.Prelude.{
  Bool, Bool-cases, ap, ℕ, ◌≤◌, ◌<◌, ◌≢◌, ◌==◌, ◌≡◌, ◌⊎◌, inl, inr, true, false, refl, Option, none,
  some, List, arith, Option-cases,
}
use couv.Prelude.Int.{ℤ, pos, negsuc}
use couv.Lua.{Error, ok, raised, arg_error}
use couv.Buffer.Float.{ByteOrder}
use couv.SockAddr.{
  af_inet, af_inet6, htons, SockAddr, InetPton, checkip, checkport, checksockfamily, tosockfamily,
  sockaddr_create, sockaddrv4_new, sockaddrv6_new, sockaddrv4_port, sockaddrv6_port, sockaddr_is_v4,
  sockaddr_is_v6, is_port, sockaddrv4_new_addr_port, sockaddrv6_new_addr_port,
}

pub htons-htons : (host : ByteOrder) (n : ℕ) → n ≤ 65535 → htons host (htons host n) ≡ n
htons-htons ByteOrder.little n h = omega arith
htons-htons ByteOrder.big n h = refl

-- A good address: its port is the one asked for and its bytes are what the string reads as in its
-- family, which is IPv4 or IPv6.
pub record IsGood (host : ByteOrder) (uv_inet_pton : InetPton) (str : List ℕ) (port : ℕ)
    (a : SockAddr) : Type 0 where
  pub family : (sockaddr_is_v4 a ≡ true) ⊎ (sockaddr_is_v6 a ≡ true)
  pub port_v4 : sockaddrv4_port host a ≡ port
  pub port_v6 : sockaddrv6_port host a ≡ port
  pub address : uv_inet_pton a.sa_family str ≡ some a.sin_addr

-- A string that reads as an address.
abbrev pub is_read : Option (List ℕ) → Bool
is_read none = false
is_read (some a) = true

-- A port of 16 bits, another one, and a family that is not left out and is none of AF_UNSPEC,
-- AF_INET and AF_INET6.
abbrev pub IsPort : ℤ → Type 0
IsPort (pos n) = n ≤ 65535
IsPort (negsuc n) = ⊥

abbrev pub IsBadPort : ℤ → Type 0
IsBadPort (pos n) = 65535 < n
IsBadPort (negsuc n) = Unit {0}

abbrev pub IsBadFamily : Option ℤ → Type 0
IsBadFamily none = ⊥
IsBadFamily (some z) = (z ≢ pos 0) × (z ≢ pos 2) × (z ≢ pos 10)

IsPort-is_port : (port : ℤ) → IsPort port → is_port port ≡ true
IsPort-is_port (pos n) h = ground arith
IsPort-is_port (negsuc n) h = elim h [ ]

IsBadPort-is_port : (port : ℤ) → IsBadPort port → is_port port ≡ false
IsBadPort-is_port (pos n) h = ground arith
IsBadPort-is_port (negsuc n) h = ground arith

IsBadFamily-tosockfamily : (family? : Option ℤ) → IsBadFamily family? → tosockfamily family? ≡ none
unfolding tosockfamily
IsBadFamily-tosockfamily none h = elim h [ ]
IsBadFamily-tosockfamily (some (negsuc n)) h = refl
IsBadFamily-tosockfamily (some (pos n)) h =
    let zero : (n == 0) ≡ false = differ n 0 h.0 in
    let two : (n == 2) ≡ false = differ n 2 h.1 in
    let ten : (n == 10) ≡ false = differ n 10 h.2 in rw (zero, two, ten) refl
  where
    differ : (n m : ℕ) → pos n ≢ pos m → (n == m) ≡ false
    differ n m ne = elim (Bool-cases (n == m)) [
      | inl e ↦ let same : n ≡ m = ground arith in absurd (ne (ap pos same))
      | inr e ↦ e
    ]

abbrev pub bad_port : Error
bad_port = arg_error 2 "must be integer between 0 and 65535"

abbrev pub bad_family : Error
bad_family = arg_error 3 "must be AF_UNSPEC, AF_INET or AF_INET6"

-- The port is blamed before the family.
abbrev pub blamed : {P Q : Type 0} → P ⊎ Q → Error
blamed (inl h) = bad_port
blamed (inr h) = bad_family

module _ {S : Type 0} (host : ByteOrder) (uv_inet_pton : InetPton) (str : List ℕ) (s : S) where
  v4-IsGood :
      (a : List ℕ) (port : ℕ)
      → port ≤ 65535
      → uv_inet_pton af_inet str ≡ some a
      → IsGood host uv_inet_pton str port (sockaddrv4_new_addr_port host a port)
  unfolding sockaddr_is_v4 sockaddrv4_port sockaddrv6_port sockaddrv4_new_addr_port
  v4-IsGood a port l e = record {
    family = inl refl;
    port_v4 = htons-htons host port l;
    port_v6 = htons-htons host port l;
    address = e;
  }

  v6-IsGood :
      (a : List ℕ) (port : ℕ)
      → port ≤ 65535
      → uv_inet_pton af_inet6 str ≡ some a
      → IsGood host uv_inet_pton str port (sockaddrv6_new_addr_port host a port)
  unfolding sockaddr_is_v6 sockaddrv4_port sockaddrv6_port sockaddrv6_new_addr_port
  v6-IsGood a port l e = record {
    family = inr refl;
    port_v4 = htons-htons host port l;
    port_v6 = htons-htons host port l;
    address = e;
  }

  pub port_ok : (i port : ℕ) → port ≤ 65535 → checkport i (pos port) s ≡ ok port s
  unfolding checkport
  port_ok i port l = let e : is_port (pos port) ≡ true = ground arith in rw e refl

  -- For a port of 16 bits and no family, `SockAddr.create` returns a good address where the string
  -- reads as IPv4 or as IPv6, of IPv4 exactly if it reads as IPv4, and otherwise blames argument 1.
  pub create_unspec :
      (port : ℕ)
      → port ≤ 65535
      → ((a : SockAddr) × (sockaddr_create host uv_inet_pton str (pos port) none s ≡ ok a s)
          × IsGood host uv_inet_pton str port a
          × (sockaddr_is_v4 a ≡ is_read (uv_inet_pton af_inet str)))
        ⊎ ((sockaddr_create host uv_inet_pton str (pos port) none s
              ≡ raised (arg_error 1 "must be valid IP address") s)
            × (uv_inet_pton af_inet str ≡ none)
            × (uv_inet_pton af_inet6 str ≡ none))
  unfolding sockaddr_create checksockfamily checkip sockaddr_is_v4 sockaddrv4_new_addr_port
      sockaddrv6_new_addr_port
  create_unspec port l = elim (Option-cases (uv_inet_pton af_inet str)) [
    | inr (a, e) ↦ inl (
      sockaddrv4_new_addr_port host a port,
      rw (port_ok 2 port l, e) refl,
      v4-IsGood a port l e,
      rw e refl,
    )
    | inl e ↦ elim (Option-cases (uv_inet_pton af_inet6 str)) [
      | inr (a, f) ↦ inl (
        sockaddrv6_new_addr_port host a port,
        rw (port_ok 2 port l, e, f) refl,
        v6-IsGood a port l f,
        rw e refl,
      )
      | inl f ↦ inr (rw (port_ok 2 port l, e, f) refl, e, f)
    ]
  ]

  -- `SockAddr.create` with AF_INET or AF_INET6 is `SockAddrV4.new` or `SockAddrV6.new` of the same
  -- string and port, for a port of 16 bits.
  pub create_in_family :
      (port : ℕ)
      → port ≤ 65535
      → (sockaddr_create host uv_inet_pton str (pos port) (some (pos af_inet)) s
          ≡ sockaddrv4_new host uv_inet_pton str (pos port) s)
        × (sockaddr_create host uv_inet_pton str (pos port) (some (pos af_inet6)) s
            ≡ sockaddrv6_new host uv_inet_pton str (pos port) s)
  unfolding sockaddr_create sockaddrv4_new sockaddrv6_new checksockfamily checkip
  create_in_family port l =
      (in4 (uv_inet_pton af_inet str) refl, in6 (uv_inet_pton af_inet6 str) refl)
    where
      in4 :
          (r : Option (List ℕ))
          → uv_inet_pton af_inet str ≡ r
          → sockaddr_create host uv_inet_pton str (pos port) (some (pos af_inet)) s
            ≡ sockaddrv4_new host uv_inet_pton str (pos port) s
      in4 none e = rw (port_ok 2 port l, e) refl
      in4 (some a) e = rw (port_ok 2 port l, e, port_ok 2 port l) refl

      in6 :
          (r : Option (List ℕ))
          → uv_inet_pton af_inet6 str ≡ r
          → sockaddr_create host uv_inet_pton str (pos port) (some (pos af_inet6)) s
            ≡ sockaddrv6_new host uv_inet_pton str (pos port) s
      in6 none e = rw (port_ok 2 port l, e) refl
      in6 (some a) e = rw (port_ok 2 port l, e, port_ok 2 port l) refl

  -- A port outside 0 to 65535, or a port in that range with a family that is given and is none of
  -- AF_UNSPEC, AF_INET and AF_INET6, is refused, whatever the string reads as: a bad port by an error
  -- of argument 2, whatever the family, and a bad family by one of argument 3.
  pub create_refuses :
      (port : ℤ) (family? : Option ℤ)
      → (bad : IsBadPort port ⊎ (IsPort port × IsBadFamily family?))
      → sockaddr_create host uv_inet_pton str port family? s ≡ raised (blamed bad) s
  unfolding sockaddr_create checkport checksockfamily
  create_refuses port family? (inl bad) = rw (IsBadPort-is_port port bad) refl
  create_refuses port family? (inr bad) =
      rw (IsPort-is_port port bad.0, IsBadFamily-tosockfamily family? bad.1) refl
