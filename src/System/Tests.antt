-- ===== src/System/Tests.antt =====
-- One processor, a loopback interface, and a loop that is set.
use couv.Prelude.{◌≡◌, refl, true, some, [], ◌∷◌}
use couv.Lua.{ok, raised, lua_error, ◌>>◌}
use couv.SockAddr.{af_inet, pushsockaddr}
use couv.System.{
  Answer, couv_cpu_info, couv_interface_addresses, push_cpu_infos, push_interfaces, make_list,
  free_list, CpuInfo, Interface, LoopValue, couv_loop, couv_set_loop, couv_get_loop,
  couv_default_loop, luaopen_couv_loop,
}

abbrev cpu : CpuInfo
cpu = record { model = 65 ∷ []; speed = 1000; user = 1; nice = 0; sys = 2; idle = 3; irq = 0 }

abbrev loopback : Interface
loopback = record {
  name = 108 ∷ 111 ∷ [];
  is_internal = true;
  address = record { sa_family = af_inet; sin_port = 0; sin_addr = 127 ∷ 0 ∷ 0 ∷ 1 ∷ [] };
}

abbrev packets : Interface
packets = record loopback { address = record { sa_family = 17; sin_port = 0; sin_addr = [] } }

processors_are_listed : couv_cpu_info (Answer.done (cpu ∷ [])) 0 ≡ ok (cpu ∷ []) 0
unfolding couv_cpu_info push_cpu_infos make_list free_list
processors_are_listed = refl

other_family_stops :
    couv_interface_addresses (Answer.done (loopback ∷ packets ∷ [])) 0
    ≡ raised (lua_error "ENOTSUP") 1
unfolding couv_interface_addresses push_interfaces make_list pushsockaddr
other_family_stops = refl

default_loop_is_used :
    (luaopen_couv_loop 5 >> couv_loop) LoopValue.nil ≡ ok (some 5) (LoopValue.lightuserdata 5)
unfolding luaopen_couv_loop couv_loop couv_set_loop couv_get_loop couv_default_loop
default_loop_is_used = refl
