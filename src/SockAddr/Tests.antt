-- ===== src/SockAddr/Tests.antt =====
-- A reader of two addresses, and the theorems of `SockAddr` at it.
use couv.Prelude.{
  true, ◌≢◌, ap, inr, refl, ◌&&◌, ◌==◌, if◌then◌else◌, ℕ, ◌≡◌, ◌⊎◌, none, some, List, [], ◌∷◌,
  arith,
}
use couv.Prelude.Int.{pos, pos_part}
use couv.Lua.{ok, raised, arg_error}
use couv.Buffer.Float.{ByteOrder}
use couv.SockAddr.{sockaddr_is_v4, IpName, af_inet, SockAddr, InetPton, sockaddr_create}
use couv.SockAddr.Names.{host_of, port_of, named_and_made}
use couv.SockAddr.Create.{IsGood, create_unspec, create_refuses}

abbrev one : List ℕ
one = 49 ∷ []

-- One string is 127.0.0.1, and no other is an address.
abbrev inet_pton : InetPton
inet_pton af (x ∷ []) = if af == 2 && x == 49 then some (127 ∷ 0 ∷ 0 ∷ 1 ∷ []) else none
inet_pton af [] = none
inet_pton af (x ∷ y ∷ str) = none

create_unspec_example :
    ((a : SockAddr) × (sockaddr_create ByteOrder.little inet_pton one (pos 8080) none tt ≡ ok a tt)
      × IsGood ByteOrder.little inet_pton one 8080 a
      × (sockaddr_is_v4 a ≡ true))
    ⊎ ((sockaddr_create ByteOrder.little inet_pton one (pos 8080) none tt
          ≡ raised (arg_error 1 "must be valid IP address") tt)
        × (inet_pton 2 one ≡ none)
        × (inet_pton 10 one ≡ none))
create_unspec_example =
    create_unspec {S = Unit {0}} ByteOrder.little inet_pton one tt 8080 (omega arith)

create_refuses_example :
    sockaddr_create ByteOrder.big inet_pton one (pos 80) (some (pos 3)) tt
    ≡ raised (arg_error 3 "must be AF_UNSPEC, AF_INET or AF_INET6") tt
create_refuses_example =
    create_refuses {S = Unit {0}} ByteOrder.big inet_pton one tt (pos 80) (some (pos 3)) (
      inr (
        omega arith,
        (three-ne 0 (omega arith), three-ne 2 (omega arith), three-ne 10 (omega arith)),
      ))
  where
    three-ne : (n : ℕ) → 3 ≢ n → pos 3 ≢ pos n
    three-ne n d e = d (ap pos_part e)

abbrev ip_name : IpName
ip_name af addr = if af == 2 then some one else none

abbrev local : SockAddr
local = record { sa_family = af_inet; sin_port = 8080; sin_addr = 127 ∷ 0 ∷ 0 ∷ 1 ∷ [] }

named_and_made_example :
    (text : List ℕ) × (host_of ip_name "EINVAL" local tt ≡ ok text tt)
    × (sockaddr_create ByteOrder.little inet_pton text
          (pos (port_of ByteOrder.little local))
          (some (pos 2))
          tt
        ≡ ok local tt)
named_and_made_example =
    named_and_made {S = Unit {0}} ByteOrder.little inet_pton ip_name "EINVAL" tt local one refl
      (omega arith) refl refl
