-- ===== src/Udp/Tests.antt =====
-- Loopback addresses and a group, and the theorems of `Udp` at them.
use couv.Prelude.{ℕ, ◌≡◌, refl, none, some, ◌==◌, arith, if◌then◌else◌, List, [], ◌∷◌}
use couv.Prelude.Int.{ℤ, pos}
use couv.Lua.{ok}
use couv.Buffer.Float.{ByteOrder}
use couv.SockAddr.{SockAddr, InetPton, sockaddr_create}
use couv.Udp.{UvCall, Interface, done, udp_bind, tcp_bind, udp_set_membership}
use couv.Udp.Family.{created_address_binds}

abbrev uv : UvCall → ℤ
uv call = pos 0

abbrev bytes : List ℕ
bytes = 127 ∷ 0 ∷ 0 ∷ 1 ∷ []

abbrev inet_pton : InetPton
inet_pton af str = if af == 2 then some bytes else none

created_address_binds_example :
    (addr : SockAddr) × (sockaddr_create ByteOrder.little inet_pton [] (pos 80) none tt
      ≡ ok addr tt)
    × (udp_bind uv "" addr none tt ≡ done uv "" (UvCall.uv_udp_bind addr 0) tt)
    × (tcp_bind uv "" addr tt ≡ done uv "" (UvCall.uv_tcp_bind addr) tt)
created_address_binds_example =
    created_address_binds {S = Unit {0}} uv "" ByteOrder.little tt inet_pton [] 80 none
      (omega arith) refl

joins : udp_set_membership uv "" bytes Interface.nil (pos 1) tt ≡ ok tt tt
unfolding udp_set_membership
joins = refl
