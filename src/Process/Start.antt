-- ===== src/Process/Start.antt =====
-- `couv_process_spawn` of src/process.c.
use couv.Prelude.{ℕ, ◌==◌, Option, none, some, List, [], ◌∷◌, String, if◌then◌else◌}
use couv.Prelude.Int.{ℤ, pos, ltb_ℤ}
use couv.Prelude.CInt.{to_uint}
use couv.Lua.{Call, ok, raise, pure, fault, lua_error, arg_error, top_error, ◌>>=◌, ◌>>◌}
use couv.Class.Open.{ClassName}
use couv.Handle.{Value, put, userdata_key, callback_key}
use couv.Process.{
  Container, OptionsArg, State, StdioArray, StrArray, UvOptions, checkstdiocontainers, release,
  tonullterminatedstrarray,
}

abbrev pub count_of : Option StrArray → ℕ
count_of none = 0
count_of (some a) = a.count

abbrev pub strings_of : Option StrArray → Option (List (Option (List ℕ)))
strings_of none = none
strings_of (some a) = some a.strings

abbrev pub containers_of : Option StdioArray → Option (List Container)
containers_of none = none
containers_of (some a) = some a.containers

-- `args[0]`.
abbrev pub first_of : List (Option (List ℕ)) → Call State (Option (List ℕ))
first_of [] = λ s. fault
first_of (x ∷ xs) = pure x

-- `if (!options.file) options.file = options.args[0];`
abbrev pub file_or : Option (List ℕ) → Option StrArray → Call State (Option (List ℕ))
file_or (some file) args = pure (some file)
file_or none none = λ s. fault
file_or none (some a) = first_of a.strings

-- `if (options.args) couv_free(L, options.args);`
abbrev pub free_strings : Option StrArray → Call State (Unit {0})
free_strings none = ok tt
free_strings (some a) = release a.address

abbrev pub free_stdio : Option StdioArray → Call State (Unit {0})
free_stdio none = ok tt
free_stdio (some a) = release a.address

unfoldable pub rawsetp : ℕ → Value → Call State (Unit {0})
rawsetp k v s = ok tt (record s { registry = put s.registry k (some v) })

-- The callback is registered before libuv is called.
abbrev pub set_exit_cb : ℕ → Option ℕ → Call State (Unit {0})
set_exit_cb h none = raise (arg_error 1 "value at \"exitCb\" key must be function")
set_exit_cb h (some cb) = rawsetp (callback_key h) (Value.callback cb)

module _ (classes : ℕ → Option ClassName) (errname : String) (uv_spawn : UvOptions → ℤ) where
  abbrev pub spawn : UvOptions → Call State ℤ
  spawn o s = ok (uv_spawn o) (record s { spawned = o ∷ s.spawned })

  -- The handle is userdata `h`; `pa`, `pe` and `ps` are what malloc answers for the three arrays.
  unfoldable pub couv_process_spawn : (co h pa pe ps : ℕ) → OptionsArg → Call State (Unit {0})
  couv_process_spawn co h pa pe ps OptionsArg.other = raise (arg_error 1 "must be table")
  couv_process_spawn co h pa pe ps (OptionsArg.table o) = do
    args ← tonullterminatedstrarray pa o.args
    if count_of args == 0
        then raise (top_error "must have non-empty string array at key \"args\"")
        else ok tt
    file ← file_or o.file args
    env ← tonullterminatedstrarray pe o.env
    stdio ← checkstdiocontainers classes ps o.stdio
    set_exit_cb h o.exit_cb
    r ← spawn (record {
      args = strings_of args;
      file = file;
      env = strings_of env;
      cwd = o.cwd;
      flags = to_uint o.flags;
      uid = to_uint o.uid;
      gid = to_uint o.gid;
      stdio = containers_of stdio;
    })
    if ltb_ℤ r (pos 0) then raise (lua_error errname) else ok tt
    free_strings args
    free_strings env
    free_stdio stdio
    λ s. ok tt (record s { owner = λ q. if q == h then co else s.owner q })
    rawsetp (userdata_key h) (Value.userdata h)
