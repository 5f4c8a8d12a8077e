-- ===== src/Input/Tests.antt =====
-- A stream that receives two inputs around a read, with the links of `Queue`.
use couv.Prelude.{◌≡◌, ◌≢◌, ◌⊎◌, inl, inr, refl, Option, none, some, List, [], ◌∷◌, ◌++◌, arith}
use couv.Prelude.Int.{pos, negsuc}
use couv.Buffer.New.{whole}
use couv.Queue.{Node, Links, links, init, is_empty, insert_tail, head, remove}
use couv.Queue.Order.{links-QueueLaws}
use couv.Input.{State, Status, Event, StreamInput, play, receive, prim_receive}
use couv.Input.Fifo.{Holds, reads_in_order}

-- The header of the queue is at 100.
abbrev empty : State Links StreamInput
empty = record {
  links = init 100 (record { next = λ _. 0; prev = λ _. 0 });
  input = λ _. none;
  status = Status.running;
}

abbrev hello : StreamInput
hello = record { nread = pos 5; w_buf = whole 9 64 }

abbrev eof : StreamInput
eof = record { nread = negsuc 4094; w_buf = whole 0 0 }

abbrev events : List (Event StreamInput)
events = Event.reads ∷ Event.arrives hello ∷ Event.arrives eof ∷ Event.reads ∷ Event.reads ∷ []

empty-Holds : Holds links links-QueueLaws 100 empty []
empty-Holds = record {
  nodes = [];
  linked = links-QueueLaws.init_law 100 (record { next = λ _. 0; prev = λ _. 0 });
  contents = tt;
  awake = λ _. refl;
}

abbrev place : Option StreamInput → Option StreamInput → Node
place none d = 1
place (some c) none = 2
place (some c) (some d) = 0

abbrev malloc : (Node → Option StreamInput) → Node
malloc f = place (f 1) (f 2)

malloc_law :
    (f : Node → Option StreamInput) → (malloc f ≡ 0) ⊎ ((f (malloc f) ≡ none) × (malloc f ≢ 100))
malloc_law f = go (f 1) (f 2) refl refl
  where
    go :
        (c d : Option StreamInput)
        → f 1 ≡ c
        → f 2 ≡ d
        → (place c d ≡ 0) ⊎ ((f (place c d) ≡ none) × (place c d ≢ 100))
    go none d e g = inr (e, λ x. omega arith)
    go (some c) none e g = inr (g, λ x. omega arith)
    go (some c) (some d) e g = inl refl

both_are_read : (play links 100 malloc events empty).read ≡ hello ∷ eof ∷ []
unfolding play receive prim_receive init is_empty insert_tail head remove
both_are_read = refl

reads_in_order_example :
    (t : State Links StreamInput) × (left : List StreamInput) × ((play links 100 malloc events
        empty).final
      ≡ some t)
    × Holds links links-QueueLaws 100 t left
    × ([] ++ (play links 100 malloc events empty).queued
        ≡ (play links 100 malloc events empty).read ++ left)
reads_in_order_example =
    reads_in_order links links-QueueLaws 100 malloc malloc_law events empty [] empty-Holds
