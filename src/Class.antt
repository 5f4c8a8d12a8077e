-- ===== src/Class.antt =====
-- The classes of userdata: `couv_newmetatable` and `couvL_testudataclass` of src/auxlib.c.
pub mod Inherit
pub mod Open
pub mod Hierarchy
mod Tests
use couv.Prelude.{ℕ, zero, suc, ◌==◌, Bool, true, false, Option, none, some, String, if◌then◌else◌}
use couv.Lua.{opt}

-- Tables and userdata by number: the metatable of each, and the registry's metatables by the
-- number of their name.
pub record Tables : Type 0 where
  pub metatable : ℕ → Option ℕ
  pub registry : ℕ → Option ℕ

abbrev pub put : (ℕ → Option ℕ) → ℕ → Option ℕ → ℕ → Option ℕ
put f k v j = if j == k then v else f j

-- `lua_getfield(L, LUA_REGISTRYINDEX, super_tname)`, where there is a super class.
-- The metatable of a class: it is set where there is a super class, and is nil where that is not
-- registered.
abbrev pub parent_of : Tables → ℕ → Option ℕ → Option ℕ
parent_of s table none = s.metatable table
parent_of s table (some super_tname) = s.registry super_tname

-- `luaL_newmetatable` makes table `new` where the name has none.
unfoldable pub newmetatable : (new tname : ℕ) → Option ℕ → Tables → Tables
newmetatable new tname super_tname s =
    let table = opt (s.registry tname) new in
    record {
      metatable = put s.metatable table (parent_of s table super_tname);
      registry = put s.registry tname (some table);
    }

-- `lua_rawequal` of a metatable and the registry's, which may be nil.
abbrev pub rawequal : ℕ → Option ℕ → Bool
rawequal m none = false
rawequal m (some t) = m == t

-- `none` where the fuel is used up.
abbrev pub go_on : Option ℕ → Option ℕ → (ℕ → Option Bool) → Option Bool
go_on none t k = some false
go_on (some m) t k = if rawequal m t then some true else k m

-- The direct metatable, and then the `while` over the parents: one step is the same for both.
unfoldable pub walk : ℕ → Tables → ℕ → Option ℕ → Option Bool
walk zero s object t = none
walk (suc fuel) s object t = go_on (s.metatable object) t (λ m. walk fuel s m t)

-- The value is a userdata or not; the result tells whether it is returned and not NULL.
unfoldable pub testudataclass : ℕ → Tables → (is_userdata : Bool) → (object tname : ℕ) → Option Bool
testudataclass fuel s true object tname = walk fuel s object (s.registry tname)
testudataclass fuel s false object tname = some false
