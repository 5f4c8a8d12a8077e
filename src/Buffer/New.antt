-- ===== src/Buffer/New.antt =====
-- `Buffer.new` and `Buffer.isBuffer` of src/buffer.c, and `couv_buf_alloc_cb` of src/buf_alloc.c.
pub mod Fresh
use couv.Prelude.{ℕ, zero, suc, List, ◌∷◌, length}
use couv.Prelude.Int.{ℤ, pos}
use couv.Prelude.CInt.{to_size}
use couv.Lua.{Call, Run, ok, raised, fault, raise, pure, arg_error, ◌>>=◌, ◌>>◌}
use couv.Buffer.Mem.{Ptr, Malloc, Heap, mem_alloc}
use couv.Buffer.Access.{Buffer, store_bytes}

-- The first argument, by `lua_type`. A Lua number is one without a fraction here.
pub data NewArg : Type 0 where
  number : ℤ → NewArg
  string : List ℕ → NewArg
  other : NewArg

-- A buffer over a whole block.
abbrev pub whole : Ptr → ℕ → Buffer
whole p n = record { orig = p; base = 0; len = n }

-- From the allocation on. `couv_alloc` raises where `malloc` fails, so that the test of its result
-- never passes.
unfoldable pub new_block : Malloc → NewArg → Call Heap Buffer
unfolding mem_alloc store_bytes
new_block m (NewArg.number n) = do p ← mem_alloc m (to_size n); pure (whole p (to_size n))
new_block m (NewArg.string str) = do
  p ← mem_alloc m (length str)
  store_bytes (whole p (length str)) (pos 1) 0 str
  pure (whole p (length str))
new_block m NewArg.other = raise (arg_error 1 "must be integer or string")

-- The heap, and the userdata with the metatable of buffers that are not collected yet.
pub record World : Type 0 where
  pub heap : Heap
  pub live : List Buffer

-- A call on the heap as a step of the world; the userdata are those before it if it raises.
abbrev pub lift : {A : Type 0} → List Buffer → (A → List Buffer) → Run Heap A → Run World (Unit {0})
lift before after (ok a h) = ok tt (record { heap = h; live = after a })
lift before after (raised e h) = raised e (record { heap = h; live = before })
lift before after fault = fault

-- The userdata has its metatable, and with it `__gc`, before the block is allocated: where that
-- raises, the userdata stays for the collector with `raw` in it, what its memory held.
unfoldable pub buffer_new : Malloc → (raw : Buffer) → NewArg → Call World (Unit {0})
buffer_new m raw NewArg.other w = raised (arg_error 1 "must be integer or string") w
buffer_new m raw (NewArg.number n) w =
    lift (raw ∷ w.live) (λ b. b ∷ w.live) (new_block m (NewArg.number n) w.heap)
buffer_new m raw (NewArg.string str) w =
    lift (raw ∷ w.live) (λ b. b ∷ w.live) (new_block m (NewArg.string str) w.heap)

-- What libuv is given to read into: the block and its size.
unfoldable pub buf_alloc_cb : Malloc → ℕ → Call Heap Buffer
unfolding mem_alloc
buf_alloc_cb m suggested_size = do p ← mem_alloc m suggested_size; pure (whole p suggested_size)
