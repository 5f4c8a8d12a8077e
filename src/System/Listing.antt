-- ===== src/System/Listing.antt =====
-- Lists of processors and interfaces are passed on whole and freed.
use couv.Prelude.{
  ℕ, ◌+◌, ◌-◌, ◌≡◌, refl, inl, inr, ◌&&◌, Bool, true, false, List, [], ◌∷◌, arith, Bool-cases,
  String,
}
use couv.Lua.{ok, raised, lua_error}
use couv.SockAddr.{is_ip, pushsockaddr}
use couv.System.{
  Answer, CpuInfo, Interface, Lists, make_list, free_list, push_cpu_infos, couv_cpu_info,
  push_interfaces, couv_interface_addresses,
}

push_cpu_infos_lem : (cs : List CpuInfo) (n : Lists) → push_cpu_infos cs n ≡ ok cs n
unfolding push_cpu_infos
push_cpu_infos_lem [] n = refl
push_cpu_infos_lem (c ∷ cs) n = rw (push_cpu_infos_lem cs n) refl

abbrev pub all_ip : List Interface → Bool
all_ip [] = true
all_ip (i ∷ is') = is_ip i.address && all_ip is'

push_interfaces_ok :
    (is' : List Interface) (n : Lists) → all_ip is' ≡ true → push_interfaces is' n ≡ ok is' n
unfolding push_interfaces pushsockaddr
push_interfaces_ok [] n h = refl
push_interfaces_ok (i ∷ is') n h = elim (Bool-cases (is_ip i.address)) [
  | inl e ↦ rw (e, push_interfaces_ok is' n (ground arith)) refl
  | inr e ↦ absurd (ground arith)
]

push_interfaces_raised :
    (is' : List Interface) (n : Lists)
    → all_ip is' ≡ false
    → push_interfaces is' n ≡ raised (lua_error "ENOTSUP") n
unfolding push_interfaces pushsockaddr
push_interfaces_raised [] n h = absurd (cc)
push_interfaces_raised (i ∷ is') n h = elim (Bool-cases (is_ip i.address)) [
  | inl e ↦ rw (e, push_interfaces_raised is' n (ground arith)) refl
  | inr e ↦ rw e refl
]

back : (n : ℕ) → n + 1 - 1 ≡ n
back n = omega arith

-- The processors, and the interfaces where all their addresses are of IPv4 or IPv6, are returned as
-- libuv lists them, in its order, and its lists are freed; an error of libuv is raised by its name.
pub lists_are_passed_on :
    (cpus : List CpuInfo) (interfaces : List Interface) (errname : String) (n : Lists)
    → all_ip interfaces ≡ true
    → (couv_cpu_info (Answer.done cpus) n ≡ ok cpus n)
      × (couv_cpu_info (Answer.failed errname) n ≡ raised (lua_error errname) n)
      × (couv_interface_addresses (Answer.done interfaces) n ≡ ok interfaces n)
      × (couv_interface_addresses (Answer.failed errname) n ≡ raised (lua_error errname) n)
unfolding couv_cpu_info couv_interface_addresses make_list free_list
lists_are_passed_on cpus interfaces errname n h = (
  rw (push_cpu_infos_lem cpus (n + 1), back n) refl,
  refl,
  rw (push_interfaces_ok interfaces (n + 1) h, back n) refl,
  refl,
)

-- An interface with an address of another family raises ENOTSUP and leaves libuv's list allocated.
pub other_family_leaks :
    (interfaces : List Interface) (n : Lists)
    → all_ip interfaces ≡ false
    → couv_interface_addresses (Answer.done interfaces) n ≡ raised (lua_error "ENOTSUP") (n + 1)
unfolding couv_interface_addresses make_list
other_family_leaks interfaces n h = rw (push_interfaces_raised interfaces (n + 1) h) refl
