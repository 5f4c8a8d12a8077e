-- ===== src/Request/Life.antt =====
-- A request is freed once, when it is answered, and what a refused one leaves.
use mathlib.Core.Path.{fun_ext}
use couv.Prelude.{
  ℕ, ◌==◌, ◌≡◌, ◌≢◌, ◌&&◌, refl, sym, inl, inr, ◌∙◌, Bool, true, false, Option, none, some, List,
  [], ◌∷◌, String, arith,
}
use couv.Prelude.Int.{ℤ, pos, ltb_ℤ}
use couv.Lua.{ok, raised, lua_error, arg_error, class_error}
use couv.Buffer.Concat.{Value, Source, tobuforstr, collect_sources}
use couv.SockAddr.{SockAddr}
use couv.Class.Open.{ClassName, name_number}
use couv.Class.Hierarchy.{is_a, classes_nest}
use couv.Method.{Arg, checkudataclass}
use couv.Method.Typed.{is_of, check-of}
use couv.Request.{
  Store, store_bufs, put_bufs, Memory, mark, alloc, free, checktable, yield_unless, resumed,
  couv_write, couv_write2, write_cb, by_family, udp_send, udp_send_cb, couv_shutdown, shutdown_cb,
  tcp_connect, connect_cb, pipe_connect,
}

-- A value that `couv_tobuforstr` takes.
abbrev pub is_source : Option Source → Bool
is_source none = false
is_source (some s) = true

abbrev pub all_sources : List Value → Bool
all_sources [] = true
all_sources (v ∷ vs) = is_source (tobuforstr v) && all_sources vs

pub mark-mark : (s : Memory) (p : ℕ) → s p ≡ false → mark (mark s p true) p false ≡ s
mark-mark s p e = fun_ext λ q. ground arith

mark-swap :
    (s : Memory) (p q : ℕ)
    → p ≢ q
    → s p ≡ false
    → mark (mark (mark s p true) q true) p false ≡ mark s q true
mark-swap s p q ne e = fun_ext λ i. ground arith

pub alloc_lem : (s : Memory) (p : ℕ) → p ≢ 0 → alloc p s ≡ ok p (mark s p true)
unfolding alloc
alloc_lem s p ne = let e : (p == 0) ≡ false = ground arith in rw e refl

pub free_lem : (s : Memory) (p : ℕ) → s p ≡ true → free p s ≡ ok tt (mark s p false)
unfolding free
free_lem s p e = rw e refl

pub marked : (s : Memory) (p : ℕ) → mark s p true p ≡ true
marked s p = ground arith

marked_before : (s : Memory) (p q : ℕ) → p ≢ q → mark (mark s p true) q true p ≡ true
marked_before s p q ne = ground arith

collect_sources-ok :
    (vs : List Value) (s : Memory)
    → all_sources vs ≡ true
    → (ss : List Source) × (collect_sources vs s ≡ ok ss s)
unfolding collect_sources
collect_sources-ok [] s e = ([], refl)
collect_sources-ok (v ∷ vs) s e = go (tobuforstr v) refl (λ h. collect_sources-ok vs s h)
  where
    go :
        (o : Option Source)
        → tobuforstr v ≡ o
        → (all_sources vs ≡ true → (ss : List Source) × (collect_sources vs s ≡ ok ss s))
        → (ss : List Source) × (collect_sources (v ∷ vs) s ≡ ok ss s)
    go none f rest = absurd (ground arith)
    go (some x) f rest = let (ss, r) = rest (ground arith) in (x ∷ ss, rw (f, r) refl)

collect_sources-raised :
    (vs : List Value) (s : Memory)
    → all_sources vs ≡ false
    → collect_sources vs s ≡ raised (arg_error 1 "must be an array (table) of buffers or strings") s
unfolding collect_sources
collect_sources-raised [] s e = absurd cc
collect_sources-raised (v ∷ vs) s e = go (tobuforstr v) refl (λ h. collect_sources-raised vs s h)
  where
    go :
        (o : Option Source)
        → tobuforstr v ≡ o
        → (all_sources vs ≡ false
            → collect_sources vs s
              ≡ raised (arg_error 1 "must be an array (table) of buffers or strings") s)
        → collect_sources (v ∷ vs) s
          ≡ raised (arg_error 1 "must be an array (table) of buffers or strings") s
    go none f rest = rw f refl
    go (some x) f rest = rw (f, rest (ground arith)) refl

module _ (s : Memory) (array : ℕ) (real_array : array ≢ 0) (free_array : s array ≡ false) where
  checktable_lem :
      (vs : List Value)
      → all_sources vs ≡ true
      → checktable array vs s ≡ ok array (mark s array true)
  unfolding checktable
  checktable_lem vs good =
      let (ss, e) = collect_sources-ok vs (mark s array true) good in
      rw (alloc_lem s array real_array, e) refl

  checktable_raised :
      (vs : List Value)
      → all_sources vs ≡ false
      → checktable array vs s
        ≡ raised (arg_error 1 "must be an array (table) of buffers or strings") s
  unfolding checktable
  checktable_raised vs bad =
      rw
        (
          alloc_lem s array real_array,
          collect_sources-raised vs (mark s array true) bad,
          free_lem (mark s array true) array (marked s array),
          mark-mark s array free_array,
        )
        refl

check-ok :
    {S : Type 0} (classes : ℕ → Option ClassName) (k : ℕ) (c : ClassName) (s : S)
    → is_a (classes k) c ≡ true
    → checkudataclass classes (pos 3) (Arg.userdata k) c s ≡ ok k s
unfolding checkudataclass
check-ok classes k c s e = rw (classes_nest classes k c, e) refl

check-refused :
    {S : Type 0} (classes : ℕ → Option ClassName) (a : Arg) (c : ClassName) (s : S)
    → is_of classes a c ≡ false
    → checkudataclass classes (pos 3) a c s ≡ raised (class_error (pos 3) (name_number c)) s
check-refused classes a c s f = elim (check-of classes (pos 3) a c s) [
  | inr (_, r) ↦ r
  | inl (_, _, e, _) ↦ absurd (let bad : true ≡ false = sym e ∙ f in cc)
]

module _ (errname : String) (classes : ℕ → Option ClassName) (addr_at : ℕ → SockAddr) (s : Store)
    (array address : ℕ) (real_array : array ≢ 0) (real : address ≢ 0) (apart : array ≢ address)
    (free_array : s.memory array ≡ false) (free_address : s.memory address ≡ false) where
  -- The array alone, and a request that is under way, which holds it.
  abbrev collected : Store
  collected = record s { memory = mark s.memory array true }

  abbrev waiting : Store
  waiting = record {
    memory = mark collected.memory address true;
    bufs = store_bufs s.bufs address array;
  }

  -- After the callback; what was in the request is not read any more.
  abbrev answered : Store
  answered = record waiting { memory = s.memory }

  alloc_address : alloc address collected.memory ≡ ok address waiting.memory
  alloc_address = alloc_lem collected.memory address real

  stored : put_bufs address array (record collected { memory = waiting.memory }) ≡ ok tt waiting
  stored = rw (marked collected.memory address) refl

  held : store_bufs s.bufs address array address ≡ array
  held = ground arith

  accept : (r : ℤ) (t : Store) → ltb_ℤ r (pos 0) ≡ false → yield_unless errname r t ≡ ok tt t
  accept r t e = rw e refl

  sent :
      (vs : List Value) (r : ℤ)
      → all_sources vs ≡ true
      → couv_write errname array address r vs s ≡ yield_unless errname r waiting
  unfolding couv_write
  sent vs r good =
      rw (checktable_lem s.memory array real_array free_array vs good, alloc_address, stored) refl

  sent_two :
      (vs : List Value) (r : ℤ) (h : ℕ)
      → all_sources vs ≡ true
      → is_a (classes h) ClassName.stream ≡ true
      → couv_write2 errname classes array address r vs (Arg.userdata h) s
        ≡ yield_unless errname r waiting
  unfolding couv_write2
  sent_two vs r h good e =
      rw
        (
          checktable_lem s.memory array real_array free_array vs good,
          check-ok classes h ClassName.stream collected e,
          alloc_address,
          stored,
        )
        refl

  sent_udp :
      (vs : List Value) (k : ℕ) (r4 r6 : ℤ)
      → all_sources vs ≡ true
      → is_a (classes k) ClassName.sock_addr ≡ true
      → udp_send errname classes addr_at array address r4 r6 vs (Arg.userdata k) s
        ≡ yield_unless errname (by_family errname (addr_at k) r4 r6) waiting
  unfolding udp_send
  sent_udp vs k r4 r6 good e =
      rw
        (
          checktable_lem s.memory array real_array free_array vs good,
          check-ok classes k ClassName.sock_addr collected e,
          alloc_address,
          stored,
        )
        refl

  back :
      (status : ℤ) → write_cb errname address status waiting ≡ ok (resumed errname status) answered
  unfolding write_cb
  back status =
      rw
        (
          marked collected.memory address,
          held,
          free_lem waiting.memory array (marked_before s.memory array address apart),
          mark-swap s.memory array address apart free_array,
          free_lem (mark s.memory address true) address (marked s.memory address),
          mark-mark s.memory address free_address,
        )
        refl

  -- Buffers and strings that are written or sent, where malloc gives two addresses that are not
  -- allocated, argument 3 is a stream and an address, and libuv accepts the request: the coroutine
  -- yields with both allocated and the array in the request, and the callback, which is given the
  -- request alone, finds the array in it, frees both without a fault, leaves the rest of the memory
  -- as it was and resumes the coroutine with the error's name if the status is negative, and with
  -- nothing otherwise.
  pub sends_are_freed :
      (vs : List Value) (r status : ℤ) (h k : ℕ) (r4 r6 : ℤ)
      → all_sources vs ≡ true
      → is_a (classes h) ClassName.stream ≡ true
      → is_a (classes k) ClassName.sock_addr ≡ true
      → ltb_ℤ r (pos 0) ≡ false
      → ltb_ℤ (by_family errname (addr_at k) r4 r6) (pos 0) ≡ false
      → (couv_write errname array address r vs s ≡ ok tt waiting)
        × (couv_write2 errname classes array address r vs (Arg.userdata h) s ≡ ok tt waiting)
        × (write_cb errname address status waiting ≡ ok (resumed errname status) answered)
        × (udp_send errname classes addr_at array address r4 r6 vs (Arg.userdata k) s
            ≡ ok tt waiting)
        × (udp_send_cb errname address status waiting ≡ ok (resumed errname status) answered)
  unfolding write_cb udp_send_cb
  sends_are_freed vs r status h k r4 r6 good stream addr accepted accepted_udp = (
    sent vs r good ∙ accept r waiting accepted,
    sent_two vs r h good stream ∙ accept r waiting accepted,
    back status,
    sent_udp vs k r4 r6 good addr
        ∙ accept (by_family errname (addr_at k) r4 r6) waiting accepted_udp,
    back status,
  )

  -- A table with a value that is no buffer and no string raises an error of argument 1 before
  -- argument 3 is looked at and before anything is sent, and its array is freed.
  pub bad_table_is_freed :
      (vs : List Value) (r : ℤ) (a : Arg) (r4 r6 : ℤ)
      → all_sources vs ≡ false
      → let e = raised (arg_error 1 "must be an array (table) of buffers or strings") s in
        (couv_write errname array address r vs s ≡ e)
        × (couv_write2 errname classes array address r vs a s ≡ e)
        × (udp_send errname classes addr_at array address r4 r6 vs a s ≡ e)
  unfolding couv_write couv_write2 udp_send
  bad_table_is_freed vs r a r4 r6 bad =
      let e = checktable_raised s.memory array real_array free_array vs bad in
      (rw e refl, rw e refl, rw e refl)

  -- A write that libuv refuses raises its error and leaves the array and the request allocated;
  -- and a write2 whose argument 3 is no stream and a send whose argument 3 is no address raise the
  -- error of that class and leave the array allocated. Nothing holds those addresses any more.
  pub refused_write_leaks :
      (vs : List Value) (r : ℤ) (no_stream no_addr : Arg) (r4 r6 : ℤ)
      → all_sources vs ≡ true
      → ltb_ℤ r (pos 0) ≡ true
      → is_of classes no_stream ClassName.stream ≡ false
      → is_of classes no_addr ClassName.sock_addr ≡ false
      → ((t : Store) × (couv_write errname array address r vs s ≡ raised (lua_error errname) t)
          × (t.memory array ≡ true)
          × (t.memory address ≡ true))
        × (t : Store) × (couv_write2 errname classes array address r vs no_stream s
            ≡ raised (class_error (pos 3) (name_number ClassName.stream)) t)
        × (udp_send errname classes addr_at array address r4 r6 vs no_addr s
            ≡ raised (class_error (pos 3) (name_number ClassName.sock_addr)) t)
        × (t.memory array ≡ true)
  unfolding couv_write2 udp_send
  refused_write_leaks vs r a b r4 r6 good refused other other' =
      let table = checktable_lem s.memory array real_array free_array vs good in
      (
        (
          waiting,
          sent vs r good ∙ refuse,
          marked_before s.memory array address apart,
          marked collected.memory address,
        ),
        collected,
        rw (table, check-refused classes a ClassName.stream collected other) refl,
        rw (table, check-refused classes b ClassName.sock_addr collected other') refl,
        marked s.memory array,
      )
    where
      refuse : yield_unless errname r waiting ≡ raised (lua_error errname) waiting
      refuse = rw refused refl

module _ (errname : String) (s : Memory) (address : ℕ) (real : address ≢ 0)
    (unused : s address ≡ false) where
  -- Shutdowns and connects, where malloc gives an address that is not allocated and libuv accepts
  -- the request, yield with it allocated, and the callback frees it, leaves the rest as it was and
  -- resumes the coroutine with the error's name or with nothing.
  pub connects_are_freed :
      (r status : ℤ) (addr : SockAddr) (r4 r6 : ℤ)
      → ltb_ℤ r (pos 0) ≡ false
      → ltb_ℤ (by_family errname addr r4 r6) (pos 0) ≡ false
      → (couv_shutdown errname address r s ≡ ok tt (mark s address true))
        × (shutdown_cb errname address status (mark s address true) ≡ ok (resumed errname status) s)
        × (tcp_connect errname address addr r4 r6 s ≡ ok tt (mark s address true))
        × (pipe_connect address s ≡ ok tt (mark s address true))
        × (connect_cb errname address status (mark s address true) ≡ ok (resumed errname status) s)
  unfolding couv_shutdown shutdown_cb tcp_connect pipe_connect connect_cb
  connects_are_freed r status addr r4 r6 accepted accepted_tcp = (
    rw (alloc_lem s address real, accepted) refl,
    back,
    rw (alloc_lem s address real, accepted_tcp) refl,
    rw (alloc_lem s address real) refl,
    back,
  )
    where
      back :
          shutdown_cb errname address status (mark s address true) ≡ ok (resumed errname status) s
      back =
          rw (free_lem (mark s address true) address (marked s address), mark-mark s address unused)
            refl
