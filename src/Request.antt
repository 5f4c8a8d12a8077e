-- ===== src/Request.antt =====
-- Requests that a coroutine waits for: write, write2 and shutdown of src/stream.c, the connects of
-- src/tcp.c and src/pipe.c and send of src/udp.c, with their callbacks. Each allocates a request,
-- and those that send an array of buffers too. What malloc and libuv answer are arguments.
pub mod Life
mod Tests
use couv.Prelude.{ℕ, ◌==◌, Bool, true, false, Option, List, [], ◌∷◌, String, if◌then◌else◌}
use couv.Prelude.Int.{ℤ, pos, ltb_ℤ}
use couv.Lua.{Call, Run, ok, raised, raise, pure, fault, lua_error, and_then, ◌>>=◌, ◌>>◌}
use couv.Buffer.Concat.{Value, Source, collect_sources}
use couv.SockAddr.{SockAddr, af_inet}
use couv.Class.Open.{ClassName}
use couv.Method.{Arg, checkudataclass}

-- Which addresses are allocated.
abbrev pub Memory : Type 0
Memory = ℕ → Bool

abbrev pub mark : Memory → ℕ → Bool → Memory
mark s p v q = if q == p then v else s q

-- `couv_alloc` of what malloc answers, 0 for NULL.
unfoldable pub alloc : ℕ → Call Memory ℕ
alloc p s = if p == 0 then raised (lua_error "ENOMEM") s else ok p (mark s p true)

-- `couv_free`; of what is not allocated it is a fault.
unfoldable pub free : ℕ → Call Memory (Unit {0})
free p s = if s p then ok tt (mark s p false) else fault

-- The array is freed before the error of a value that is no buffer and no string.
abbrev pub conclude : ℕ → Run Memory (List Source) → Run Memory ℕ
conclude p (ok buffers s) = ok p s
conclude p (raised e s) = and_then (free p s) (λ _. raised e)
conclude p fault = fault

-- `couv_checkbuforstrtable`, as far as it allocates.
unfoldable pub checktable : ℕ → List Value → Call Memory ℕ
checktable array vs = do p ← alloc array; λ s. conclude p (collect_sources vs s)

-- Which addresses are allocated, and the address of the array that is stored in the request at an
-- address: `req->data` of a write and `holder->bufs` of a send.
pub record Store : Type 0 where
  pub memory : Memory
  pub bufs : ℕ → ℕ

abbrev pub store_bufs : (ℕ → ℕ) → ℕ → ℕ → ℕ → ℕ
store_bufs f p array q = if q == p then array else f q

abbrev pub with_memory : {A : Type 0} → Store → Run Memory A → Run Store A
with_memory s (ok a m) = ok a (record s { memory = m })
with_memory s (raised e m) = raised e (record s { memory = m })
with_memory s fault = fault

abbrev pub in_memory : {A : Type 0} → Call Memory A → Call Store A
in_memory f s = with_memory s (f s.memory)

-- `req->data = bufs`; a request that is not allocated is not written.
abbrev pub put_bufs : ℕ → ℕ → Call Store (Unit {0})
put_bufs p array s =
    if s.memory p then ok tt (record s { bufs = store_bufs s.bufs p array }) else fault

-- `req->data`; a request that is not allocated is not read.
abbrev pub get_bufs : ℕ → Call Store ℕ
get_bufs p s = if s.memory p then ok (s.bufs p) s else fault

module _ (errname : String) where
  -- `if (r < 0) luaL_error(...)`, and `lua_yield`.
  abbrev pub yield_unless : {S : Type 0} → ℤ → Call S (Unit {0})
  yield_unless r = if ltb_ℤ r (pos 0) then raise (lua_error errname) else ok tt

  -- What the coroutine is resumed with.
  abbrev pub resumed : ℤ → List String
  resumed status = if ltb_ℤ status (pos 0) then errname ∷ [] else []

  -- Libuv is called by the family of the address.
  abbrev pub by_family : SockAddr → ℤ → ℤ → ℤ
  by_family addr r4 r6 = if addr.sa_family == af_inet then r4 else r6

  unfoldable pub couv_write : (array address : ℕ) → (r : ℤ) → List Value → Call Store (Unit {0})
  couv_write array address r vs = do
    bufs ← in_memory (checktable array vs)
    req ← in_memory (alloc address)
    put_bufs req bufs
    yield_unless r

  -- The array is allocated when the class of argument 3 is checked.
  unfoldable pub couv_write2 :
      (ℕ → Option ClassName)
      → (array address : ℕ) → (r : ℤ) → List Value
      → (send_handle : Arg) → Call Store (Unit {0})
  couv_write2 classes array address r vs send_handle = do
    bufs ← in_memory (checktable array vs)
    checkudataclass classes (pos 3) send_handle ClassName.stream
    req ← in_memory (alloc address)
    put_bufs req bufs
    yield_unless r

  -- The array is read out of the request.
  unfoldable pub write_cb : (req : ℕ) → (status : ℤ) → Call Store (List String)
  write_cb req status = do
    bufs ← get_bufs req
    in_memory (free bufs)
    in_memory (free req)
    pure (resumed status)

  -- `addr_at` has the addresses that userdata hold.
  unfoldable pub udp_send :
      (ℕ → Option ClassName)
      → (addr_at : ℕ → SockAddr) → (array address : ℕ) → (r4 r6 : ℤ) → List Value
      → (addr : Arg) → Call Store (Unit {0})
  udp_send classes addr_at array address r4 r6 vs addr = do
    bufs ← in_memory (checktable array vs)
    k ← checkudataclass classes (pos 3) addr ClassName.sock_addr
    holder ← in_memory (alloc address)
    put_bufs holder bufs
    yield_unless (by_family (addr_at k) r4 r6)

  unfoldable pub udp_send_cb : (holder : ℕ) → (status : ℤ) → Call Store (List String)
  udp_send_cb holder status = do
    bufs ← get_bufs holder
    in_memory (free bufs)
    in_memory (free holder)
    pure (resumed status)

  unfoldable pub couv_shutdown : (address : ℕ) → (r : ℤ) → Call Memory (Unit {0})
  couv_shutdown address r = do alloc address; yield_unless r

  unfoldable pub shutdown_cb : (address : ℕ) → (status : ℤ) → Call Memory (List String)
  shutdown_cb address status = do free address; pure (resumed status)

  unfoldable pub tcp_connect : (address : ℕ) → SockAddr → (r4 r6 : ℤ) → Call Memory (Unit {0})
  tcp_connect address addr r4 r6 = do alloc address; yield_unless (by_family addr r4 r6)

  unfoldable pub connect_cb : (address : ℕ) → (status : ℤ) → Call Memory (List String)
  connect_cb address status = do free address; pure (resumed status)

-- `uv_pipe_connect` has no result.
unfoldable pub pipe_connect : (address : ℕ) → Call Memory (Unit {0})
pipe_connect address = do alloc address; ok tt
