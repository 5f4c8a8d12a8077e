-- ===== src/Handle/Closing.antt =====
-- Closing a handle takes from the registry what its other calls put there.
use mathlib.Core.Path.{fun_ext}
use couv.Prelude.{
  ℕ, ◌+◌, ◌==◌, ◌≡◌, ◌≢◌, inl, inr, refl, sym, ◌∙◌, Bool, true, false, none, some, List, [], ◌∷◌,
  String, arith, if◌then◌else◌, Bool-cases,
}
use couv.Prelude.Int.{pos}
use couv.Handle.{
  clean_pipe_handle, Kind, Value, Registry, Act, left_by, act, acts, close_cb, tcp_new, udp_new,
  pipe_new, tty_new, timer_create, timer_start, couv_listen, process_spawn, clean_process_handle,
  clean_timer_handle, clean_udp_handle, clean_tcp_handle, clean_tty_handle,
}

-- The keys that a handle of a kind uses.
abbrev pub uses : Kind → ℕ → ℕ → Bool
uses Kind.udp h k = if k == h then true else k == h + 1
uses Kind.timer h k = if k == h then true else k == h + 2
uses Kind.process h k = if k == h then true else k == h + 2
uses Kind.tcp h k = if k == h then true else if k == h + 1 then true else k == h + 2
uses Kind.tty h k = if k == h then true else if k == h + 1 then true else k == h + 2
uses Kind.named_pipe h k = if k == h then true else if k == h + 1 then true else k == h + 2

module _ (errname : String) (h : ℕ) where
  act-outside :
      {k : Kind} (a : Act k) (r : Registry) (j : ℕ)
      → uses k h j ≡ false
      → left_by errname h (act errname h a r) r j ≡ r j
  unfolding act tcp_new udp_new pipe_new tty_new timer_create timer_start couv_listen process_spawn
  act-outside (Act.new_tcp true i) r j o = refl
  act-outside (Act.new_tcp false i) r j o = ground arith
  act-outside (Act.listen_tcp cb l) r j o = ground arith
  act-outside (Act.new_udp m i) r j o = ground arith
  act-outside (Act.new_pipe m i) r j o = ground arith
  act-outside (Act.listen_pipe cb l) r j o = ground arith
  act-outside (Act.new_tty m i) r j o = ground arith
  act-outside (Act.listen_tty cb l) r j o = ground arith
  act-outside (Act.create_timer i) r j o = ground arith
  act-outside (Act.start_timer cb s) r j o = ground arith
  act-outside (Act.spawn_process none s) r j o = ground arith
  act-outside (Act.spawn_process (some cb) s) r j o = ground arith

  pub acts-outside :
      {k : Kind} (calls : List (Act k)) (r : Registry) (j : ℕ)
      → uses k h j ≡ false
      → acts errname h calls r j ≡ r j
  unfolding acts
  acts-outside [] r j o = refl
  acts-outside (a ∷ calls) r j o =
      acts-outside calls (left_by errname h (act errname h a r) r) j o ∙ act-outside a r j o

close-outside :
    (k : Kind) (h : ℕ) (r : Registry) (j : ℕ) → uses k h j ≡ false → close_cb k h r j ≡ r j
unfolding close_cb clean_process_handle clean_timer_handle clean_udp_handle clean_tcp_handle
    clean_tty_handle
close-outside Kind.process h r j o = ground arith
close-outside Kind.tcp h r j o = ground arith
close-outside Kind.timer h r j o = ground arith
close-outside Kind.udp h r j o = ground arith
close-outside Kind.tty h r j o = ground arith
close-outside Kind.named_pipe h r j o = refl

close-inside :
    (k : Kind) (h : ℕ) (r : Registry) (j : ℕ)
    → k ≢ Kind.named_pipe
    → uses k h j ≡ true
    → close_cb k h r j ≡ none
unfolding close_cb clean_process_handle clean_timer_handle clean_udp_handle clean_tcp_handle
    clean_tty_handle
close-inside Kind.process h r j ne o = ground arith
close-inside Kind.tcp h r j ne o = ground arith
close-inside Kind.timer h r j ne o = ground arith
close-inside Kind.udp h r j ne o = ground arith
close-inside Kind.tty h r j ne o = ground arith
close-inside Kind.named_pipe h r j ne o = absurd (ne refl)

-- A handle that is no named pipe, at an address whose keys are free, is made and used by any calls
-- of its kind, whatever libuv answers and whether they raise or not: when it is closed the
-- registry is what it was before the first of them.
pub closing_restores :
    (errname : String) (k : Kind) (h : ℕ) (calls : List (Act k)) (r : Registry)
    → k ≢ Kind.named_pipe
    → ((j : ℕ) → uses k h j ≡ true → r j ≡ none)
    → close_cb k h (acts errname h calls r) ≡ r
closing_restores errname k h calls r ne free = fun_ext λ j. elim (Bool-cases (uses k h j)) [
  | inl u ↦ close-inside k h (acts errname h calls r) j ne u ∙ sym (free j u)
  | inr o ↦ close-outside k h (acts errname h calls r) j o ∙ acts-outside errname h calls r j o
]

-- A named pipe that was made in a coroutine and then closed is still in the registry with its
-- coroutine, while `couv_clean_pipe_handle` would have restored a registry whose keys were free.
pub named_pipe_stays :
    (errname : String) (h init : ℕ) (r : Registry)
    → ((j : ℕ) → uses Kind.named_pipe h j ≡ true → r j ≡ none)
    → let used = acts errname h (Act.new_pipe false (pos init) ∷ []) r in
      (close_cb Kind.named_pipe h used h ≡ some (Value.userdata h))
      × (close_cb Kind.named_pipe h used (h + 1) ≡ some Value.thread)
      × (clean_pipe_handle h used ≡ r)
unfolding close_cb acts act pipe_new clean_pipe_handle
named_pipe_stays errname h init r free = (ground arith, ground arith, fun_ext λ j. at j)
  where
    used : Registry
    used = acts errname h (Act.new_pipe false (pos init) ∷ []) r

    at : (j : ℕ) → clean_pipe_handle h used j ≡ r j
    at j = elim (Bool-cases (uses Kind.named_pipe h j)) [
      | inl u ↦ let e = free j u in ground arith
      | inr o ↦ ground arith
    ]
