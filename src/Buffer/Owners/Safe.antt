-- ===== src/Buffer/Owners/Safe.antt =====
-- Memory safety of src/buffer.c: a Lua program never makes it fault, and every block is freed once
-- the last buffer in it is collected.
use couv.Prelude.{
  ◌+◌, ◌<◌, ◌≡◌, ◌≢◌, refl, sym, ap, ◌∙◌, Option, none, some, List, [], ◌∷◌, length, arith,
}
use couv.Prelude.CInt.{int_max}
use couv.Lua.{Error, Run, ok, raised, fault}
use couv.Buffer.Mem.{Ptr, Malloc, BufMem, Heap}
use couv.Buffer.Mem.{null}
use couv.Buffer.Access.{Buffer}
use couv.Buffer.Range.{buffer_fill, buffer_to_string, buffer_copy, buffer_write}
use couv.Buffer.Owners.{pcall, call_integer, Op, World, step, run, lift, with_buffer}
use couv.Buffer.Owners.Access.{call_integer-Tame, to_string-Tame, fill-Tame, write-Tame, copy-Tame}
use couv.Buffer.Owners.Counts.{Matches, IsOwned, alive-IsValid, refs}
use mathlib.Core.Path.{subst}
use couv.Buffer.Owners.Steps.{
  IsMalloc, IsAllowed, Sound, with_buffer-Sound, alive-small, method-Sound, slice-Sound,
  collect-Sound, create-Sound,
}

-- A program of such calls.
abbrev pub AllAllowed : List Op → Type 0
AllAllowed [] = Unit {0}
AllAllowed (op ∷ ops) = IsAllowed op × AllAllowed ops

-- No buffer and no block.
abbrev pub start : World
start = record { heap = λ _. none; live = [] }

pub start-IsOwned : IsOwned start.heap start.live
start-IsOwned = record { counted = λ _. refl; fit = tt }

abbrev final : Run World (Unit {0}) → World
final (ok _ w) = w
final _ = start

unused : (c : Option BufMem) → Matches c 0 → c ≡ none
unused none m = refl
unused (some c) m = absurd (omega arith)

-- What holds of the world after a step.
abbrev pub After : Run World (Unit {0}) → (World → Type 0) → Type 0
After (ok _ w) P = P w
After (raised _ w) P = P w
After fault P = Unit {0}

abbrev pub IsServed : Malloc → Op → Type 0
IsServed m (Op.create arg) = m.ptr ≢ null
IsServed m _ = Unit {0}

-- Malloc never fails while the calls run.
abbrev pub AllServed : (Heap → Malloc) → (World → Buffer) → List Op → World → Type 0
AllServed malloc raw [] w = Unit {0}
AllServed malloc raw (op ∷ ops) w =
    IsServed (malloc w.heap) op × After (step malloc raw op w) (AllServed malloc raw ops)

module _ (malloc : Heap → Malloc) (raw : World → Buffer) (law : IsMalloc malloc) where
  step-Sound :
      (op : Op) (w : World)
      → IsOwned w.heap w.live
      → length w.live < int_max
      → IsAllowed op
      → IsServed (malloc w.heap) op
      → Sound (length w.live) (step malloc raw op w)
  unfolding step
  step-Sound (Op.create arg) w o l s n =
      create-Sound w o (malloc w.heap) (raw w) arg n (law w.heap) s
  step-Sound (Op.call_gc i) w o l s n = elim s [ ]
  step-Sound (Op.integer m i p v) w o l s n =
      method-Sound w o i (λ b. call_integer m b p v) λ b u small. call_integer-Tame u small p v m
  step-Sound (Op.slice i f t) w o l s n = slice-Sound w o i f t l
  step-Sound (Op.fill i v f t) w o l s n =
      method-Sound w o i (λ b. buffer_fill b v f t) λ b u small. fill-Tame u small f t v
  step-Sound (Op.to_string i f t) w o l s n =
      method-Sound w o i (λ b. buffer_to_string b f t) λ b u small. to_string-Tame u small f t
  step-Sound (Op.copy i j tf sf sl) w o l s n =
      with_buffer-Sound (length w.live) w i
        (λ b. with_buffer w j λ t. lift w.live (λ _. w.live) (buffer_copy b t tf sf sl w.heap)) o
        (omega arith)
        λ b e.
          method-Sound w o j (λ t. buffer_copy b t tf sf sl)
            λ t u small. copy-Tame (alive-IsValid o i b e) (alive-small w o i b e) sf sl u small tf
  step-Sound (Op.put i str p k) w o l s n =
      method-Sound w o i (λ b. buffer_write b str p k)
        λ b u small. write-Tame u small p k str s.0 s.1
  step-Sound (Op.collect i) w o l s n = collect-Sound w o i

  run-cons :
      (op : Op) (ops : List Op) (w : World) {v : World} {u : Unit {0}}
      → step malloc raw op w ≡ ok u v
      → run malloc raw (op ∷ ops) w ≡ run malloc raw ops v
  unfolding run
  run-cons op ops w e = ap (λ r. pcall r (run malloc raw ops)) e

  run-cons_raised :
      (op : Op) (ops : List Op) (w : World) {v : World} {e : Error}
      → step malloc raw op w ≡ raised e v
      → run malloc raw (op ∷ ops) w ≡ run malloc raw ops v
  unfolding run
  run-cons_raised op ops w e = ap (λ r. pcall r (run malloc raw ops)) e

  -- A program that starts with sound counts, whose lengths fit an `int`, which has fewer than
  -- 2 ^ 31 - 1 buffers and calls and calls no `__gc` itself, where `malloc` gives addresses without
  -- a block and never fails during the run: it runs to its end without a fault, whatever the calls,
  -- their indices and values are, and the count of each block is then the number of buffers alive
  -- in it, a block without one being freed. That readInt32 negates the least `int` counts as no
  -- fault here; it wraps.
  pub programs_are_safe :
      (ops : List Op) (w : World)
      → AllAllowed ops
      → AllServed malloc raw ops w
      → IsOwned w.heap w.live
      → length w.live + length ops < int_max
      → (w' : World) × (run malloc raw ops w ≡ ok tt w') × IsOwned w'.heap w'.live
  unfolding run
  programs_are_safe [] w s a o l = (w, refl, o)
  programs_are_safe (op ∷ ops) w s a o l =
      go (step malloc raw op w) refl (step-Sound op w o (omega arith) s.0 a.0) a.1
        (λ v b p. programs_are_safe ops v s.1 b p)
    where
      go :
          (r : Run World (Unit {0}))
          → step malloc raw op w ≡ r
          → Sound (length w.live) r
          → After r (AllServed malloc raw ops)
          → ((v : World)
              → AllServed malloc raw ops v
              → IsOwned v.heap v.live
              → length v.live + length ops < int_max
              → (w' : World) × (run malloc raw ops v ≡ ok tt w') × IsOwned w'.heap w'.live)
          → (w' : World) × (run malloc raw (op ∷ ops) w ≡ ok tt w') × IsOwned w'.heap w'.live
      go (ok _ v) e k b rest =
          let (u, q, p) = rest v b k.0 (omega arith) in (u, run-cons op ops w e ∙ q, p)
      go (raised _ v) e k b rest =
          let (u, q, p) = rest v b k.0 (omega arith) in (u, run-cons_raised op ops w e ∙ q, p)
      go fault e k b rest = elim k [ ]

  -- A program that starts with no buffer, on the same conditions, and has none at its end, has
  -- freed every block.
  pub no_leak :
      (ops : List Op) (w : World)
      → AllAllowed ops
      → AllServed malloc raw ops start
      → length ops < int_max
      → run malloc raw ops start ≡ ok tt w
      → w.live ≡ []
      → (p : Ptr) → w.heap p ≡ none
  no_leak ops w s a l e none_alive p =
      let (w', q, o) = programs_are_safe ops start s a start-IsOwned (omega arith) in
      unused (w.heap p) (
        subst (λ live. Matches (w.heap p) (refs p live)) none_alive
          (subst (λ v. Matches (v.heap p) (refs p v.live)) (ap final (sym q ∙ e)) (o.counted p)))
