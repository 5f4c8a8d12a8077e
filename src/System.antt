-- ===== src/System.antt =====
-- The functions of src/couv.c that ask libuv about the machine and the process, and the loop of
-- src/loop.c. What libuv answers is an argument.
pub mod Listing
mod Tests
use couv.Prelude.{
  ℕ, ◌+◌, ◌-◌, Bool, true, false, Option, none, some, List, [], ◌∷◌, String, if◌then◌else◌,
}
use couv.Prelude.Int.{ℤ, is_zero}
use couv.Lua.{Call, ok, raised, raise, pure, lua_error, ◌>>=◌, ◌>>◌}
use couv.SockAddr.{SockAddr, pushsockaddr}

-- `uv_err_t` with what was written, or the name of the error.
pub data Answer {ℓ} (A : Type ℓ) : Type ℓ where
  done : A → Answer A
  failed : String → Answer A

-- `if (err.code != UV_OK) return luaL_error(L, couvL_uv_errname(err.code));`
abbrev pub or_raise : {S A : Type 0} → Answer A → Call S A
or_raise (Answer.done a) = pure a
or_raise (Answer.failed errname) = raise (lua_error errname)

-- `uv_cpu_info_t` and the table that is made of it, which has the same fields.
pub record CpuInfo : Type 0 where
  pub model : List ℕ
  pub speed : ℕ
  pub user : ℕ
  pub nice : ℕ
  pub sys : ℕ
  pub idle : ℕ
  pub irq : ℕ

-- `uv_interface_address_t`, and its table.
pub record Interface : Type 0 where
  pub name : List ℕ
  pub is_internal : Bool
  pub address : SockAddr

-- The lists that libuv has made and that are not freed.
abbrev pub Lists : Type 0
Lists = ℕ

unfoldable pub make_list : {A : Type 0} → Answer A → Call Lists A
make_list (Answer.done a) n = ok a (n + 1)
make_list (Answer.failed errname) n = raised (lua_error errname) n

unfoldable pub free_list : Call Lists (Unit {0})
free_list n = ok tt (n - 1)

-- The loop of `couv_cpu_info` over `count` entries.
unfoldable pub push_cpu_infos : List CpuInfo → Call Lists (List CpuInfo)
push_cpu_infos [] = pure []
push_cpu_infos (c ∷ cs) = do
  rest ← push_cpu_infos cs
  pure (
      record {
        model = c.model;
        speed = c.speed;
        user = c.user;
        nice = c.nice;
        sys = c.sys;
        idle = c.idle;
        irq = c.irq;
      }
      ∷ rest)

unfoldable pub couv_cpu_info : Answer (List CpuInfo) → Call Lists (List CpuInfo)
couv_cpu_info uv_cpu_info = do
  cpu_infos ← make_list uv_cpu_info
  table ← push_cpu_infos cpu_infos
  free_list
  pure table

unfoldable pub push_interfaces : List Interface → Call Lists (List Interface)
push_interfaces [] = pure []
push_interfaces (i ∷ is') = do
  addr ← pushsockaddr i.address
  rest ← push_interfaces is'
  pure (record { name = i.name; is_internal = i.is_internal; address = addr } ∷ rest)

unfoldable pub couv_interface_addresses : Answer (List Interface) → Call Lists (List Interface)
couv_interface_addresses uv_interface_addresses = do
  addresses ← make_list uv_interface_addresses
  table ← push_interfaces addresses
  free_list
  pure table

module _ {S : Type 0} where
  unfoldable pub couv_chdir : (uv_chdir : List ℕ → Answer (Unit {0})) → List ℕ → Call S (Unit {0})
  couv_chdir uv_chdir dir = or_raise (uv_chdir dir)

  -- A string up to its NUL in a buffer of 1024 bytes.
  unfoldable pub couv_cwd : (uv_cwd : (size : ℕ) → Answer (List ℕ)) → Call S (List ℕ)
  couv_cwd uv_cwd = or_raise (uv_cwd 1024)

  -- Any result but 0 is an error.
  unfoldable pub couv_exepath : (r : ℤ) → (path : List ℕ) → Call S (List ℕ)
  couv_exepath r path = if is_zero r then pure path else raise (lua_error "exepath() failed")

  unfoldable pub couv_kill :
      (uv_kill : (pid signum : ℤ) → Answer (Unit {0})) → (pid signum : ℤ) → Call S (Unit {0})
  couv_kill uv_kill pid signum = or_raise (uv_kill pid signum)

  unfoldable pub couv_get_process_title :
      (uv_get_process_title : (size : ℕ) → Answer (List ℕ)) → Call S (List ℕ)
  couv_get_process_title uv_get_process_title = or_raise (uv_get_process_title 1024)

  unfoldable pub couv_set_process_title :
      (uv_set_process_title : List ℕ → Answer (Unit {0})) → List ℕ → Call S (Unit {0})
  couv_set_process_title uv_set_process_title title = or_raise (uv_set_process_title title)

-- The registry's value at "couv.loop".
pub data LoopValue : Type 0 where
  nil : LoopValue
  lightuserdata : ℕ → LoopValue
  other : LoopValue

unfoldable pub couv_set_loop : LoopValue → Call LoopValue (Unit {0})
couv_set_loop v r = ok tt v

unfoldable pub couv_get_loop : Call LoopValue LoopValue
couv_get_loop r = ok r r

-- `lua_touserdata`; `none` is NULL.
abbrev pub touserdata : LoopValue → Option ℕ
touserdata (LoopValue.lightuserdata p) = some p
touserdata LoopValue.nil = none
touserdata LoopValue.other = none

unfoldable pub couv_loop : Call LoopValue (Option ℕ)
couv_loop = do v ← couv_get_loop; pure (touserdata v)

unfoldable pub couv_default_loop : (uv_default_loop : ℕ) → Call LoopValue LoopValue
couv_default_loop uv_default_loop = pure (LoopValue.lightuserdata uv_default_loop)

unfoldable pub luaopen_couv_loop : (uv_default_loop : ℕ) → Call LoopValue (Unit {0})
luaopen_couv_loop uv_default_loop = do v ← couv_default_loop uv_default_loop; couv_set_loop v

-- `uv_now`, `uv_run_once`, `uv_run` and `uv_update_time` are called with the loop.
unfoldable pub couv_now : (uv_now : Option ℕ → ℤ) → Call LoopValue ℤ
couv_now uv_now = do loop ← couv_loop; pure (uv_now loop)

unfoldable pub couv_run_once : (uv_run_once : Option ℕ → ℤ) → Call LoopValue ℤ
couv_run_once uv_run_once = do loop ← couv_loop; pure (uv_run_once loop)
