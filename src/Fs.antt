-- ===== src/Fs.antt =====
-- Requests of src/fs.c: their results, the life of an asynchronous one, and the arguments that are
-- checked first. What libuv answers is an argument; names of errors and `strtoul` are parameters.
pub mod Calls
pub mod Agree
pub mod AllCalls
pub mod Entries
pub mod Parts
pub mod Stat
mod Tests
use couv.Prelude.{
  ℕ, zero, suc, ◌==◌, Bool, true, false, Option, none, some, List, [], ◌∷◌, String, if◌then◌else◌,
}
use couv.Prelude.Int.{ℤ, pos, ltb_ℤ, pos_part, is_zero}
use couv.Lua.{Call, Run, ok, raised, raise, pure, fault, lua_error, ◌>>=◌, ◌>>◌}

-- A request as it is given to libuv. A buffer's bytes are given by their place in a block.
pub data Uv : Type 0 where
  chown : (path : List ℕ) → (uid gid : ℤ) → Uv
  chmod : (path : List ℕ) → (mode : ℤ) → Uv
  close : (fd : ℤ) → Uv
  fchmod : (fd mode : ℤ) → Uv
  fchown : (fd uid gid : ℤ) → Uv
  fstat : (fd : ℤ) → Uv
  fsync : (fd : ℤ) → Uv
  ftruncate : (fd len : ℤ) → Uv
  futime : (fd atime mtime : ℤ) → Uv
  link : (path new_path : List ℕ) → Uv
  lstat : (path : List ℕ) → Uv
  mkdir : (path : List ℕ) → (mode : ℤ) → Uv
  open_file : (path : List ℕ) → (flags mode : ℤ) → Uv
  readlink : (path : List ℕ) → Uv
  rename : (old_path new_path : List ℕ) → Uv
  rmdir : (path : List ℕ) → Uv
  stat : (path : List ℕ) → Uv
  symlink : (path new_path : List ℕ) → (flags : ℤ) → Uv
  unlink : (path : List ℕ) → Uv
  utime : (path : List ℕ) → (atime mtime : ℤ) → Uv
  read : (fd : ℤ) → (first length : ℕ) → (file_offset : ℤ) → Uv
  readdir : (path : List ℕ) → (flags : ℤ) → Uv
  write : (fd : ℤ) → (first length : ℕ) → (file_offset : ℤ) → Uv

-- What `req->ptr` points to: the text of a link or a directory, or the numbers of a stat.
pub data Payload : Type 0 where
  nothing : Payload
  text : List ℕ → Payload
  statbuf : List ℕ → Payload

-- `uv_fs_t` once libuv has answered, `errorno` being `uv_last_error` of the loop for a call from
-- the main thread; `async` is its address where it is allocated, and `none`
-- where it has no callback and lies on the stack.
pub record Req : Type 0 where
  pub request : Uv
  pub result : ℤ
  pub errorno : ℕ
  pub ptr : Payload
  pub async : Option ℕ

-- What is pushed for Lua.
pub data Value : Type 0 where
  nil : Value
  number : ℤ → Value
  boolean : Bool → Value
  name : String → Value
  string : List ℕ → Value
  stat_data : List ℕ → Value
  table : List (List ℕ) → Value

-- The requests that are allocated, the coroutines in the registry under
-- `COUV_THREAD_REG_KEY(req)`, and what libuv was asked, the last first.
pub record Store : Type 0 where
  pub allocated : ℕ → Bool
  pub thread : ℕ → Bool
  pub asked : List Uv

abbrev pub mark : (ℕ → Bool) → ℕ → Bool → ℕ → Bool
mark f p v q = if q == p then v else f q

abbrev pub free_at : Bool → ℕ → Call Store (Unit {0})
free_at true p s = ok tt (record s { allocated = mark s.allocated p false })
free_at false p s = fault

-- `couv_free(L, req)`; a second one is a fault.
abbrev pub free : ℕ → Call Store (Unit {0})
free p s = free_at (s.allocated p) p s

-- `if (is_async) couv_free(L, req);`
abbrev pub finish : Option ℕ → Call Store (Unit {0})
finish none = ok tt
finish (some p) = free p

abbrev pub or_fault : {A : Type 0} → Option A → Call Store A
or_fault none = λ _. fault
or_fault (some a) = ok a

-- A string up to its NUL, and what follows; `none` where `strchr` would leave the memory.
abbrev pub to_nul : List ℕ → Option (List ℕ × List ℕ)
to_nul [] = none
to_nul (zero ∷ p) = some ([], p)
to_nul (suc x ∷ p) = elim (to_nul p) [ none ↦ none | some r ↦ some (suc x ∷ r.0, r.1) ]

abbrev pub cons_name : List ℕ → Option (List (List ℕ)) → Option (List (List ℕ))
cons_name s none = none
cons_name s (some names) = some (s ∷ names)

abbrev pub then_names :
    Option (List ℕ × List ℕ) → (List ℕ → Option (List (List ℕ))) → Option (List (List ℕ))
then_names none k = none
then_names (some r) k = cons_name r.0 (k r.1)

-- The names of `entry_count` entries.
unfoldable pub readdir_results : ℕ → List ℕ → Option (List (List ℕ))
readdir_results zero p = some []
readdir_results (suc n) p = then_names (to_nul p) (readdir_results n)

abbrev pub text_of : Payload → Option (List ℕ)
text_of (Payload.text bytes) = some bytes
text_of Payload.nothing = none
text_of (Payload.statbuf s) = none

abbrev pub stat_of : Payload → Option (List ℕ)
stat_of (Payload.statbuf s) = some s
stat_of Payload.nothing = none
stat_of (Payload.text bytes) = none

abbrev pub one : {A : Type 0} → (A → Value) → Option A → Option (List Value)
one f none = none
one f (some a) = some (f a ∷ [])

abbrev pub entries : ℕ → Option (List ℕ) → Option (List (List ℕ))
entries n none = none
entries n (some p) = readdir_results n p

-- The switch of `fs_push_common_results`.
unfoldable pub common_values : Uv → ℤ → Payload → Option (List Value)
common_values (Uv.open_file p f m) result ptr = some (Value.number result ∷ [])
common_values (Uv.read fd i n o) result ptr = some (Value.number result ∷ [])
common_values (Uv.write fd i n o) result ptr = some (Value.number result ∷ [])
common_values (Uv.lstat p) result ptr = one Value.stat_data (stat_of ptr)
common_values (Uv.fstat fd) result ptr = one Value.stat_data (stat_of ptr)
common_values (Uv.stat p) result ptr = one Value.stat_data (stat_of ptr)
common_values (Uv.readlink p) result ptr = one Value.string (text_of ptr)
common_values (Uv.readdir p f) result ptr =
    one Value.table (entries (pos_part result) (text_of ptr))
common_values _ result ptr = some []

-- The switch of `fs_error`: nil comes before the name where a call has a result.
unfoldable pub error_values : Uv → String → List Value
error_values (Uv.open_file p f m) errname = Value.nil ∷ Value.name errname ∷ []
error_values (Uv.read fd i n o) errname = Value.nil ∷ Value.name errname ∷ []
error_values (Uv.write fd i n o) errname = Value.nil ∷ Value.name errname ∷ []
error_values (Uv.lstat p) errname = Value.nil ∷ Value.name errname ∷ []
error_values (Uv.fstat fd) errname = Value.nil ∷ Value.name errname ∷ []
error_values (Uv.stat p) errname = Value.nil ∷ Value.name errname ∷ []
error_values (Uv.readlink p) errname = Value.nil ∷ Value.name errname ∷ []
error_values (Uv.readdir p f) errname = Value.nil ∷ Value.name errname ∷ []
error_values _ errname = Value.name errname ∷ []

module _ (errname : ℕ → String) where
  unfoldable pub fs_error : Req → Call Store (List Value)
  fs_error req = do finish req.async; pure (error_values req.request (errname req.errorno))

  unfoldable pub push_common_results : Req → Call Store (List Value)
  unfolding fs_error
  push_common_results req = if ltb_ℤ req.result (pos 0) then fs_error req else (do
    vs ← or_fault (common_values req.request req.result req.ptr)
    finish req.async
    pure vs)

  unfoldable pub push_exists_results : Req → Call Store (List Value)
  push_exists_results req = do finish req.async; pure (Value.boolean (is_zero req.result) ∷ [])

  abbrev pub clear_thread : Option ℕ → Call Store (Unit {0})
  clear_thread none s = ok tt s
  clear_thread (some p) s = ok tt (record s { thread = mark s.thread p false })

  -- Both callbacks resume the coroutine with the values.
  unfoldable pub common_callback : Req → Call Store (List Value)
  common_callback req = do clear_thread req.async; push_common_results req

  unfoldable pub exists_callback : Req → Call Store (List Value)
  exists_callback req = do clear_thread req.async; push_exists_results req

-- A call of libuv.
abbrev pub told : Uv → Store → Store
told u s = record s { asked = u ∷ s.asked }

abbrev pub tell : Uv → Call Store (Unit {0})
tell u s = ok tt (told u s)

-- `malloc`'s address, 0 for NULL.
unfoldable pub alloc_req : ℕ → Call Store ℕ
alloc_req p s =
    if p == 0
    then raised (lua_error "ENOMEM") s
    else ok p (record s { allocated = mark s.allocated p true })

-- `none` is `lua_yield`.
unfoldable pub after_async_call :
    ℕ → Req → (ret : ℤ) → (Req → Call Store (List Value)) → Call Store (Option (List Value))
after_async_call p req ret push_func =
    if ltb_ℤ ret (pos 0)
    then (do vs ← push_func req; pure (some vs))
    else (λ s. ok none (record s { thread = mark s.thread p true }))

-- Where a call is made, and what libuv answers: at once to a call from the main thread, and
-- otherwise later, `ret` telling whether the request could be made.
pub record Env : Type 0 where
  pub is_mainthread : Bool
  pub address : ℕ
  pub ret : ℤ
  pub result : ℤ
  pub errorno : ℕ
  pub ptr : Payload

abbrev pub answered : Env → Uv → Option ℕ → Req
answered env u async = record {
  request = u;
  result = env.result;
  errorno = env.errorno;
  ptr = env.ptr;
  async = async;
}

-- The body that every call of src/fs.c has, with what it pushes at once and on a failed request.
unfoldable pub make :
    Env → Uv → (push failed : Req → Call Store (List Value)) → Call Store (Option (List Value))
make env u push failed =
    if env.is_mainthread then (do tell u; vs ← push (answered env u none); pure (some vs)) else (do
      p ← alloc_req env.address
      tell u
      after_async_call p (answered env u (some p)) env.ret failed)
