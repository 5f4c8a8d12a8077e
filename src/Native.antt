-- ===== src/Native.antt =====
-- Sleeping and looking up names, of src/couv.c: `couv_sleep` with its two callbacks, and
-- `couv_getaddrinfo` with its own. A coroutine yields in them and libuv's loop resumes it later.
-- What malloc and libuv answer are arguments.
pub mod Play
pub mod Hints
pub mod Ends
pub mod Steps
pub mod Own
pub mod Wakes
pub mod Balance
pub mod Life
mod Tests
use couv.Prelude.{
  ℕ, ◌-◌, ◌==◌, Bool, true, false, Option, none, some, List, [], ◌∷◌, String, if◌then◌else◌,
}
use couv.Prelude.Int.{ℤ, pos, ltb_ℤ}
use couv.Lua.{
  Call, Run, ok, raised, raise, pure, fault, lua_error, arg_error, argcheck, opt, or_error, ◌>>=◌,
  ◌>>◌,
}
use couv.Handle.{Registry, put, thread_key}
use couv.Handle
use couv.Request.{Memory, alloc, free}
use couv.SockAddr.{SockAddr, tosockfamily, pushsockaddr}

-- `struct addrinfo`, without its link to the next.
pub record AddrInfo : Type 0 where
  pub ai_family : ℤ
  pub ai_socktype : ℤ
  pub ai_protocol : ℤ
  pub ai_addr : SockAddr

-- The hints; what `memset` has cleared stays 0.
pub record AddrHints : Type 0 where
  pub ai_family : ℕ
  pub ai_socktype : ℤ
  pub ai_protocol : ℤ
  pub ai_flags : ℤ

-- The third argument of getaddrinfo, with the fields of a table that are not nil.
pub data HintsArg : Type 0 where
  fields : (family? socktype? protocol? flags? : Option ℤ) → HintsArg
  nil : HintsArg
  other : HintsArg

-- What a coroutine is resumed with.
pub data Result : Type 0 where
  nil : Result
  name : String → Result
  table : List AddrInfo → Result

-- What libuv does with an address: nothing, a timer runs, a handle is closed, a name is looked up.
pub data Phase : Type 0 where
  idle armed closing resolving : Phase

-- Memory, Lua's registry, the coroutine in the `data` of each handle or request, libuv's part,
-- lists of `addrinfo` that libuv has made and that are not freed, and the coroutines that were
-- resumed, the last one first.
pub record Loop : Type 0 where
  pub memory : Memory
  pub registry : Registry
  pub owner : ℕ → ℕ
  pub phase : ℕ → Phase
  pub lists : ℕ
  pub resumed : List (ℕ × List Result)

abbrev pub at {ℓ} : {A : Type ℓ} → (ℕ → A) → ℕ → A → ℕ → A
at f p a q = if q == p then a else f q

abbrev pub in_memory : {A : Type 0} → Loop → Run Memory A → Run Loop A
in_memory l (ok a m) = ok a (record l { memory = m })
in_memory l (raised e m) = raised e (record l { memory = m })
in_memory l fault = fault

-- `couv_alloc`, `couv_free`, `couv_rawsetp` of a coroutine, and `couv_resume`.
unfoldable pub allocate : ℕ → Call Loop ℕ
allocate p l = in_memory l (alloc p l.memory)

unfoldable pub release : ℕ → Call Loop (Unit {0})
release p l = in_memory l (free p l.memory)

unfoldable pub register : ℕ → Option Handle.Value → Call Loop (Unit {0})
register p v l = ok tt (record l { registry = put l.registry (thread_key p) v })

unfoldable pub resume : ℕ → List Result → Call Loop (Unit {0})
resume co results l = ok tt (record l { resumed = (co, results) ∷ l.resumed })

-- `handle->data = L`, or `req->data = L`.
unfoldable pub set_data : ℕ → ℕ → Call Loop (Unit {0})
set_data p co l = ok tt (record l { owner = at l.owner p co })

-- A call of libuv that answers `r`, and what is under way then if that is no error.
unfoldable pub uv_begin : ℕ → Phase → ℤ → Call Loop (Unit {0})
uv_begin p phase r l =
    if ltb_ℤ r (pos 0) then ok tt l else ok tt (record l { phase = at l.phase p phase })

unfoldable pub uv_end : ℕ → Call Loop (Unit {0})
uv_end p l = ok tt (record l { phase = at l.phase p Phase.idle })

unfoldable pub in_coroutine : String → Bool → Call Loop (Unit {0})
in_coroutine msg is_mainthread = if is_mainthread then raise (lua_error msg) else ok tt

unfoldable pub uv_freeaddrinfo : Call Loop (Unit {0})
uv_freeaddrinfo l = ok tt (record l { lists = l.lists - 1 })

module _ (errname : String) (p : ℕ) where
  unfoldable pub couv_sleep : (co : ℕ) → (is_mainthread : Bool) → (r : ℤ) → Call Loop (Unit {0})
  couv_sleep co is_mainthread r = do
    in_coroutine "sleep must be called in coroutine." is_mainthread
    allocate p
    set_data p co
    register p (some Handle.Value.thread)
    uv_begin p Phase.armed r
    if ltb_ℤ r (pos 0) then raise (lua_error errname) else ok tt

-- `uv_close`.
unfoldable pub sleep_cb : ℕ → Call Loop (Unit {0})
sleep_cb p l = ok tt (record l { phase = at l.phase p Phase.closing })

-- Libuv has let go of the handle before it calls back.
unfoldable pub sleep_close_cb : ℕ → Call Loop (Unit {0})
sleep_close_cb p l = (do register p none; release p; resume (l.owner p) []) l

abbrev pub is_some {ℓ} : {A : Type ℓ} → Option A → Bool
is_some none = false
is_some (some a) = true

abbrev pub any : Bool → Bool → Bool
any true b = true
any false b = b

-- The hints are passed on if a field of the table is not nil.
abbrev pub given : Option ℤ → Option ℤ → Option ℤ → Option ℤ → ℕ → Option AddrHints
given family? socktype? protocol? flags? family =
    if any (is_some family?) (any (is_some socktype?) (any (is_some protocol?) (is_some flags?)))
    then some (record {
      ai_family = family;
      ai_socktype = opt socktype? (pos 0);
      ai_protocol = opt protocol? (pos 0);
      ai_flags = opt flags? (pos 0);
    })
    else none

unfoldable pub checkaddrinfohints : {S : Type 0} → ℕ → HintsArg → Call S (Option AddrHints)
checkaddrinfohints index (HintsArg.fields family? socktype? protocol? flags?) = do
  family ←
      or_error (arg_error index "value at \"family\" key must be AF_UNSPEC, AF_INET or AF_INET6")
        (tosockfamily family?)
  pure (given family? socktype? protocol? flags? family)
checkaddrinfohints index HintsArg.nil = pure none
checkaddrinfohints index HintsArg.other = raise (arg_error index "must be table or nil")

module _ (errname : String) (p : ℕ) where
  -- Libuv's answer may depend on what it is called with. A refused request is freed.
  unfoldable pub couv_getaddrinfo :
      (node service : Option String)
      → HintsArg
      → (co : ℕ) → (is_mainthread : Bool)
      → (uv_getaddrinfo : Option String → Option String → Option AddrHints → ℤ)
      → Call Loop (Unit {0})
  couv_getaddrinfo node service hints_arg co is_mainthread uv_getaddrinfo = do
    argcheck (any (is_some node) (is_some service)) 1 "node or service must not be nil"
    hints ← checkaddrinfohints 3 hints_arg
    in_coroutine "getaddrinfo must be called in coroutine." is_mainthread
    allocate p
    register p (some Handle.Value.thread)
    set_data p co
    uv_begin p Phase.resolving (uv_getaddrinfo node service hints)
    if ltb_ℤ (uv_getaddrinfo node service hints) (pos 0)
        then (do release p; raise (lua_error errname))
        else ok tt

-- The `for` over the list of addresses.
unfoldable pub push_addrinfos : List AddrInfo → Call Loop (List AddrInfo)
push_addrinfos [] = pure []
push_addrinfos (p ∷ ps) = do
  addr ← pushsockaddr p.ai_addr
  rest ← push_addrinfos ps
  pure (record p { ai_addr = addr } ∷ rest)

-- What the look-up answers: a list of addresses, or an error by its name.
pub data Answer : Type 0 where
  found : List AddrInfo → Answer
  failed : String → Answer

-- The coroutine stays in the registry.
unfoldable pub getaddrinfo_cb : ℕ → Answer → Call Loop (Unit {0})
getaddrinfo_cb p (Answer.found res) l =
    (do
      addresses ← push_addrinfos res
      uv_freeaddrinfo
      release p
      resume (l.owner p) (Result.table addresses ∷ []))
      l
getaddrinfo_cb p (Answer.failed errname) l =
    (do release p; resume (l.owner p) (Result.nil ∷ Result.name errname ∷ [])) l
