-- ===== src/Process.antt =====
-- Spawning a process: `couv_process_spawn` of src/process.c and the functions that read its table
-- of options. Lua has converted numbers and strings, and how long it keeps a string that C points to
-- is left out. What malloc and libuv answer are arguments.
pub mod Start
pub mod Arrays
pub mod Wanted
pub mod Freed
pub mod Spawn
mod Tests
use couv.Prelude.{ℕ, not, Option, none, some, List, [], ◌∷◌, length}
use couv.Prelude.Int.{ℤ, negsuc}
use couv.Prelude.CInt.{to_int}
use couv.Lua.{Call, Run, Error, ok, raised, raise, pure, fault, arg_error, top_error, ◌>>=◌, ◌>>◌}
use couv.Method.{Arg, checkudataclass}
use couv.Class.Open.{ClassName}
use couv.Handle.{Registry}
use couv.Request.{Memory, alloc, free}

-- The value at "args" or "env". An element is `none` where `lua_tostring` gives NULL.
pub data Strings : Type 0 where
  nil : Strings
  array : List (Option (List ℕ)) → Strings
  other : Strings

-- An element of an element of "stdio": a number, a string that reads as one, userdata or another.
pub data Elem : Type 0 where
  number : ℤ → Elem
  numeral : ℤ → Elem
  userdata : ℕ → Elem
  other : Elem

pub data ContainerArg : Type 0 where
  table : List Elem → ContainerArg
  other : ContainerArg

-- The value at "stdio".
pub data Stdio : Type 0 where
  nil : Stdio
  table : List ContainerArg → Stdio
  other : Stdio

-- The table of options; `exit_cb` is `none` where that is no function.
pub record Options : Type 0 where
  pub args : Strings
  pub file : Option (List ℕ)
  pub env : Strings
  pub cwd : Option (List ℕ)
  pub flags : ℤ
  pub uid : ℤ
  pub gid : ℤ
  pub stdio : Stdio
  pub exit_cb : Option ℕ

pub data OptionsArg : Type 0 where
  table : Options → OptionsArg
  other : OptionsArg

-- An array of strings that `couv_alloc` gave, with the NULL at its end, and the count without it.
pub record StrArray : Type 0 where
  pub address : ℕ
  pub strings : List (Option (List ℕ))
  pub count : ℕ

-- The union of a container; `unset` is what `memset` left.
pub data Source : Type 0 where
  unset : Source
  fd : ℤ → Source
  stream : ℕ → Source

-- `uv_stdio_container_t`.
pub record Container : Type 0 where
  pub flags : ℤ
  pub source : Source

pub record StdioArray : Type 0 where
  pub address : ℕ
  pub containers : List Container

-- `uv_process_options_t`, by what its pointers point to.
pub record UvOptions : Type 0 where
  pub args : Option (List (Option (List ℕ)))
  pub file : Option (List ℕ)
  pub env : Option (List (Option (List ℕ)))
  pub cwd : Option (List ℕ)
  pub flags : ℕ
  pub uid : ℕ
  pub gid : ℕ
  pub stdio : Option (List Container)

-- Memory, the registry, the coroutine in the `data` of each handle, and what libuv was asked to
-- spawn, the last first.
pub record State : Type 0 where
  pub memory : Memory
  pub registry : Registry
  pub owner : ℕ → ℕ
  pub spawned : List UvOptions

abbrev pub in_memory : {A : Type 0} → State → Run Memory A → Run State A
in_memory s (ok a m) = ok a (record s { memory = m })
in_memory s (raised e m) = raised e (record s { memory = m })
in_memory s fault = fault

-- `couv_alloc` and `couv_free`.
unfoldable pub allocate : ℕ → Call State ℕ
allocate p s = in_memory s (alloc p s.memory)

unfoldable pub release : ℕ → Call State (Unit {0})
release p s = in_memory s (free p s.memory)

abbrev pub cons : List ℕ → Option (List (List ℕ)) → Option (List (List ℕ))
cons x none = none
cons x (some xs) = some (x ∷ xs)

-- Strings all of them, or `none`.
unfoldable pub all_strings : List (Option (List ℕ)) → Option (List (List ℕ))
all_strings [] = some []
all_strings (none ∷ items) = none
all_strings (some x ∷ items) = cons x (all_strings items)

-- With `args[n] = NULL`.
abbrev pub terminated : List (List ℕ) → List (Option (List ℕ))
terminated [] = none ∷ []
terminated (x ∷ xs) = some x ∷ terminated xs

abbrev pub filled : ℕ → Option (List (List ℕ)) → Call State (Option StrArray)
filled p none = do release p; raise (top_error "must be nil or array of strings")
filled p (some xs) =
    pure (some (record { address = p; strings = terminated xs; count = length xs }))

-- `index` is -1.
unfoldable pub tonullterminatedstrarray : (malloc : ℕ) → Strings → Call State (Option StrArray)
tonullterminatedstrarray malloc Strings.nil = pure none
tonullterminatedstrarray malloc Strings.other = raise (top_error "must be nil or array of strings")
tonullterminatedstrarray malloc (Strings.array items) = do
  p ← allocate malloc
  filled p (all_strings items)

-- `STDIO_INVAL_ELEM`.
abbrev pub stdio_inval_elem : Error
stdio_inval_elem = arg_error 1 "invalid array element value at \"stdio\" key"

-- `lua_isnumber` and `lua_tointeger`.
abbrev pub number_in : Elem → Call State ℤ
number_in (Elem.number n) = pure n
number_in (Elem.numeral n) = pure n
number_in (Elem.userdata k) = raise stdio_inval_elem
number_in Elem.other = raise stdio_inval_elem

module _ (classes : ℕ → Option ClassName) where
  -- By `lua_type`: a string that reads as a number is passed over too.
  unfoldable pub source_in : Elem → Call State Source
  source_in (Elem.number n) = pure (Source.fd (to_int n))
  source_in (Elem.numeral n) = pure Source.unset
  source_in (Elem.userdata k) = do
    h ← checkudataclass classes (negsuc 0) (Arg.userdata k) ClassName.stream
    pure (Source.stream h)
  source_in Elem.other = pure Source.unset

  -- Tables of one or of two elements.
  unfoldable pub container_in : ContainerArg → Call State Container
  container_in (ContainerArg.table (e ∷ [])) = do
    n ← number_in e
    pure (record { flags = to_int n; source = Source.unset })
  container_in (ContainerArg.table (e ∷ f ∷ [])) = do
    n ← number_in e
    x ← source_in f
    pure (record { flags = to_int n; source = x })
  container_in (ContainerArg.table []) = raise stdio_inval_elem
  container_in (ContainerArg.table (e ∷ f ∷ g ∷ es)) = raise stdio_inval_elem
  container_in ContainerArg.other = raise stdio_inval_elem

  unfoldable pub containers_in : List ContainerArg → Call State (List Container)
  containers_in [] = pure []
  containers_in (a ∷ as') = do c ← container_in a; cs ← containers_in as'; pure (c ∷ cs)

  -- The array is not freed where an element raises an error.
  unfoldable pub checkstdiocontainers : (malloc : ℕ) → Stdio → Call State (Option StdioArray)
  checkstdiocontainers malloc Stdio.nil = pure none
  checkstdiocontainers malloc Stdio.other =
      raise (arg_error 1 "value at \"stdio\" key must be nil or table")
  checkstdiocontainers malloc (Stdio.table elems) = do
    p ← allocate malloc
    cs ← containers_in elems
    pure (some (record { address = p; containers = cs }))
