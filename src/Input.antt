-- ===== src/Input.antt =====
-- What a handle has received and Lua has not read yet: `read_cb` and `couv_prim_read` of
-- src/stream.c, `udp_recv_cb` and `udp_prim_recv` of src/udp.c, and `read2_cb` and
-- `couv_prim_read2` of src/pipe.c, which keep it in a queue of allocated inputs. The error of a
-- callback whose allocation fails is raised outside every protected call; what Lua does with it, and
-- with libuv's loop under it, is left out.
pub mod Fifo
mod Tests
use couv.Prelude.{ℕ, ◌==◌, ◌≡◌, Option, none, some, List, [], ◌∷◌, take, if◌then◌else◌}
use couv.Prelude.Int.{ℤ}
use couv.Lua.{Call, Run, ok, raised, fault, lua_error}
use couv.Buffer.Mem.{Ptr}
use couv.Buffer.Access.{Buffer}
use couv.Buffer.New.{whole}
use couv.Queue.{Node, QueueOps}

-- `couv_stream_input_t`, without its links.
pub record StreamInput : Type 0 where
  pub nread : ℤ
  pub w_buf : Buffer

-- `couv_udp_input_t`, with the bytes of the address; they are left as they were where libuv gives
-- none.
pub record UdpInput : Type 0 where
  pub nread : ℤ
  pub w_buf : Buffer
  pub addr : Option (List ℕ)

-- `couv_pipe_input_t`.
pub record PipeInput : Type 0 where
  pub nread : ℤ
  pub w_buf : Buffer
  pub pending : ℕ

-- `lua_status` of the coroutine that made the handle.
pub data Status : Type 0 where
  running yielded : Status

-- The links of the queues, the inputs that are allocated, and the coroutine.
pub record State (S A : Type 0) : Type 0 where
  pub links : S
  pub input : Node → Option A
  pub status : Status

-- `lua_yield`, or the results.
pub data Reply (A : Type 0) : Type 0 where
  yields : Reply A
  returns : A → Reply A

abbrev pub store_input : {A : Type 0} → (Node → Option A) → Node → A → Node → Option A
store_input f p a q = if q == p then some a else f q

-- `if (lua_status(L) == LUA_YIELD) couv_resume(L, L, 0);`
abbrev pub wake : {S A : Type 0} → Status → Call (State S A) (Unit {0})
wake Status.running s = ok tt s
wake Status.yielded s = ok tt (record s { status = Status.running })

module _ {S A : Type 0} (q : QueueOps S) (queue : Node) where
  -- An input is allocated at `p`, which is 0 where `malloc` fails, and put behind the others.
  unfoldable pub receive : Node → A → Call (State S A) (Unit {0})
  receive p a s =
      if p == 0
      then raised (lua_error "ENOMEM") s
      else wake s.status
          (record s { links = q.insert_tail queue p s.links; input = store_input s.input p a })

  -- The first input is unlinked and its contents returned.
  unfoldable pub prim_receive : Call (State S A) (Reply A)
  prim_receive s =
      if q.is_empty queue s.links
      then ok Reply.yields (record s { status = Status.yielded })
      else elim (s.input (q.head queue s.links)) [
        | none ↦ fault
        | some a ↦
            ok (Reply.returns a) (record s { links = q.remove (q.head queue s.links) s.links })
      ]

-- What befalls a handle: libuv calls back with an input, or the coroutine reads.
pub data Event (A : Type 0) : Type 0 where
  arrives : A → Event A
  reads : Event A

-- The inputs that were queued and those that were read, in order, and how it ends.
pub record Log (S A : Type 0) : Type 0 where
  pub queued : List A
  pub read : List A
  pub final : Option (State S A)

module _ {S A : Type 0} where
  -- A callback whose allocation fails leaves nothing behind.
  abbrev pub after_arrival : A → Run (State S A) (Unit {0}) → (State S A → Log S A) → Log S A
  after_arrival a (ok _ s) k = record (k s) { queued = a ∷ (k s).queued }
  after_arrival a (raised _ s) k = k s
  after_arrival a fault k = record { queued = []; read = []; final = none }

  abbrev pub after_read : Run (State S A) (Reply A) → (State S A → Log S A) → Log S A
  after_read (ok (Reply.returns a) s) k = record (k s) { read = a ∷ (k s).read }
  after_read (ok Reply.yields s) k = k s
  after_read (raised _ s) k = k s
  after_read fault k = record { queued = []; read = []; final = none }

  -- A coroutine that waits makes no call.
  abbrev pub unless_waiting : State S A → Run (State S A) (Reply A) → Run (State S A) (Reply A)
  unless_waiting s r = elim s.status [ Status.running ↦ r | Status.yielded ↦ ok Reply.yields s ]

  module _ (q : QueueOps S) (queue : Node) (malloc : (Node → Option A) → Node) where
    unfoldable pub play : List (Event A) → State S A → Log S A
    play [] s = record { queued = []; read = []; final = some s }
    play (Event.arrives a ∷ es) s = after_arrival a (receive q queue (malloc s.input) a s) (play es)
    play (Event.reads ∷ es) s = after_read (unless_waiting s (prim_receive q queue s)) (play es)

-- `*(struct sockaddr_in *)addr` is 16 bytes, whatever the family.
abbrev pub sockaddr_in_of : Option (List ℕ) → Option (List ℕ)
sockaddr_in_of none = none
sockaddr_in_of (some addr) = some (take 16 addr)

module _ {S : Type 0} (q : QueueOps S) (queue p : Node) where
  unfoldable pub read_cb : ℤ → (base : Ptr) → (len : ℕ) → Call (State S StreamInput) (Unit {0})
  read_cb nread base len = receive q queue p (record { nread = nread; w_buf = whole base len })

  unfoldable pub udp_recv_cb :
      ℤ → (base : Ptr) → (len : ℕ) → Option (List ℕ) → Call (State S UdpInput) (Unit {0})
  udp_recv_cb nread base len addr =
      receive q queue p
        (record { nread = nread; w_buf = whole base len; addr = sockaddr_in_of addr })

  unfoldable pub read2_cb :
      ℤ → (base : Ptr) → (len : ℕ) → (pending : ℕ) → Call (State S PipeInput) (Unit {0})
  read2_cb nread base len pending =
      receive q queue p (record { nread = nread; w_buf = whole base len; pending = pending })

module _ {S : Type 0} (q : QueueOps S) (queue : Node) where
  unfoldable pub prim_read : Call (State S StreamInput) (Reply StreamInput)
  prim_read = prim_receive q queue

  unfoldable pub udp_prim_recv : Call (State S UdpInput) (Reply UdpInput)
  udp_prim_recv = prim_receive q queue

  unfoldable pub prim_read2 : Call (State S PipeInput) (Reply PipeInput)
  prim_read2 = prim_receive q queue
