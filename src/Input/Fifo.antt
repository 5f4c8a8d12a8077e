-- ===== src/Input/Fifo.antt =====
-- Inputs are read in the order in which they came, each once, and a waiting coroutine is woken.
use couv.Prelude.{
  ◌==◌, ◌≡◌, ◌≢◌, ◌⊎◌, inl, inr, true, false, refl, sym, ap, ◌∙◌, Option, none, some, List, [], ◌∷◌,
  ◌++◌, arith,
}
use native.Mathlib.Decide.{ℕ_discrete}
use mathlib.Core.List.{append_assoc, append-nil}
use mathlib.Core.Path.{subst}
use couv.Lua.{ok, raised, lua_error}
use couv.Queue.{Node, Fresh, QueueOps, QueueLaws}
use couv.Input.{
  play, after_arrival, after_read, unless_waiting, Log, Event, State, Status, Reply, store_input,
  wake, receive, prim_receive,
}

-- The inputs at the nodes, in order.
abbrev Contents : {A : Type 0} → (Node → Option A) → List Node → List A → Type 0
Contents f [] [] = Unit {0}
Contents f [] (a ∷ items) = ⊥
Contents f (x ∷ xs) [] = ⊥
Contents f (x ∷ xs) (a ∷ items) = (f x ≡ some a) × Contents f xs items

Contents-Fresh :
    {A : Type 0} (f : Node → Option A) (p : Node) (xs : List Node) (items : List A)
    → f p ≡ none
    → Contents f xs items
    → Fresh p xs
Contents-Fresh f p [] items e c = tt
Contents-Fresh f p (x ∷ xs) [] e c = elim c [ ]
Contents-Fresh {A = A} f p (x ∷ xs) (a ∷ items) e c = (
  (λ same. let bad : ◌≡◌ {A = Option A} none (some a) = sym e ∙ ap f same ∙ c.0 in cc),
  Contents-Fresh f p xs items e c.1,
)

Contents-snoc :
    {A : Type 0} (f : Node → Option A) (p : Node) (a : A) (xs : List Node) (items : List A)
    → Fresh p xs
    → Contents f xs items
    → Contents (store_input f p a) (xs ++ p ∷ []) (items ++ a ∷ [])
Contents-snoc f p a [] [] n c = ((ground arith), tt)
Contents-snoc f p a [] (b ∷ items) n c = elim c [ ]
Contents-snoc f p a (x ∷ xs) [] n c = elim c [ ]
Contents-snoc f p a (x ∷ xs) (b ∷ items) n c =
    (ground (arith, c.0, n.0), Contents-snoc f p a xs items n.1 c.1)

module _ {S A : Type 0} (q : QueueOps S) (laws : QueueLaws q) (queue : Node) where
  -- The unread inputs; a coroutine waits only where there are none.
  pub record Holds (s : State S A) (items : List A) : Type 0 where
    pub nodes : List Node
    pub linked : laws.Holds s.links queue nodes
    pub contents : Contents s.input nodes items
    pub awake : (s.status ≡ Status.yielded) → items ≡ []

  Holds-nil : {s : State S A} (h : Holds s []) → laws.Holds s.links queue []
  Holds-nil {s} h = go h.nodes h.linked h.contents
    where
      go :
          (xs : List Node)
          → laws.Holds s.links queue xs
          → Contents s.input xs []
          → laws.Holds s.links queue []
      go [] l c = l
      go (x ∷ xs) l c = elim c [ ]

  yields_lem :
      (s : State S A)
      → Holds s []
      → (prim_receive q queue s ≡ ok Reply.yields (record s { status = Status.yielded }))
        × Holds (record s { status = Status.yielded }) []
  unfolding prim_receive
  yields_lem s h = (
    rw (laws.empty_law queue s.links (Holds-nil h)) refl,
    record { nodes = h.nodes; linked = h.linked; contents = h.contents; awake = λ _. refl },
  )

  returns_lem :
      (s : State S A) (a : A) (items : List A)
      → s.status ≡ Status.running
      → Holds s (a ∷ items)
      → (t : State S A) × (prim_receive q queue s ≡ ok (Reply.returns a) t) × Holds t items
  unfolding prim_receive
  returns_lem s a items run h = go h.nodes h.linked h.contents
    where
      go :
          (xs : List Node)
          → laws.Holds s.links queue xs
          → Contents s.input xs (a ∷ items)
          → (t : State S A) × (prim_receive q queue s ≡ ok (Reply.returns a) t) × Holds t items
      go [] l c = elim c [ ]
      go (x ∷ xs) l c = (
        record s { links = q.remove (q.head queue s.links) s.links },
        rw
            (
              laws.full_law queue s.links x xs l,
              ap s.input (laws.head_law queue s.links x xs l),
              c.0,
            )
            refl,
        record {
          nodes = xs;
          linked = rw (laws.head_law queue s.links x xs l) (laws.remove_law queue s.links x xs l);
          contents = c.1;
          awake = λ y. let bad : Status.running ≡ Status.yielded = sym run ∙ y in absurd cc;
        },
      )

  wake_lem :
      (st : Status) (s : State S A)
      → s.status ≡ st
      → (t : State S A) × (wake st s ≡ ok tt t)
        × (t.links ≡ s.links)
        × (t.input ≡ s.input)
        × (t.status ≡ Status.running)
  wake_lem Status.running s e = (s, refl, refl, refl, e)
  wake_lem Status.yielded s e = (record s { status = Status.running }, refl, refl, refl, refl)

  receive_lem :
      (s : State S A) (p : Node) (a : A) (items : List A)
      → p ≢ 0
      → s.input p ≡ none
      → p ≢ queue
      → Holds s items
      → (t : State S A) × (receive q queue p a s ≡ ok tt t) × Holds t (items ++ a ∷ [])
  unfolding receive
  receive_lem s p a items some_place free apart h =
      let not_null : (p == 0) ≡ false = ground arith in
      let (t, e, l, i, r) = wake_lem s.status queued refl in
      (
        t,
        rw not_null e,
        record {
          nodes = h.nodes ++ p ∷ [];
          linked = rw l (laws.insert_law queue s.links p h.nodes h.linked (apart, fresh));
          contents = rw i (Contents-snoc s.input p a h.nodes items fresh h.contents);
          awake = λ y. let bad : Status.running ≡ Status.yielded = sym r ∙ y in absurd cc;
        },
      )
    where
      fresh : Fresh p h.nodes
      fresh = Contents-Fresh s.input p h.nodes items free h.contents

      queued : State S A
      queued = record s { links = q.insert_tail queue p s.links; input = store_input s.input p a }

  -- A log that begins with unread inputs.
  abbrev Right : Log S A → List A → Type 0
  Right l items =
      (t : State S A) × (left : List A) × (l.final ≡ some t)
      × Holds t left
      × (items ++ l.queued ≡ l.read ++ left)

  fails_lem :
      (s : State S A) (p : Node) (a : A)
      → p ≡ 0
      → receive q queue p a s ≡ raised (lua_error "ENOMEM") s
  unfolding receive
  fails_lem s p a e = let null : (p == 0) ≡ true = ground arith in rw null

  queued-Right :
      (a : A) (items : List A) (l : Log S A)
      → Right l (items ++ a ∷ [])
      → Right (record l { queued = a ∷ l.queued }) items
  queued-Right a items l (t, left, e, h, o) =
      (t, left, e, h, sym (append_assoc items (a ∷ []) l.queued) ∙ o)

  read-Right :
      (a : A) (items : List A) (l : Log S A)
      → Right l items
      → Right (record l { read = a ∷ l.read }) (a ∷ items)
  read-Right a items l (t, left, e, h, o) = (t, left, e, h, ap (◌∷◌ a) o)

  arrival-Right :
      (malloc : (Node → Option A) → Node) (a : A) (s : State S A) (items : List A)
      (k : State S A → Log S A)
      → (malloc s.input ≡ 0) ⊎ ((s.input (malloc s.input) ≡ none) × (malloc s.input ≢ queue))
      → ((t : State S A) (more : List A) → Holds t more → Right (k t) more)
      → Holds s items
      → Right (after_arrival a (receive q queue (malloc s.input) a s) k) items
  arrival-Right malloc a s items k law rest h = elim (ℕ_discrete (malloc s.input) 0) [
    | yes e ↦
        subst (λ r. Right (after_arrival a r k) items) (sym (fails_lem s (malloc s.input) a e))
          (rest s items h)
    | no ne ↦ placed ne law
  ]
    where
      placed :
          malloc s.input ≢ 0
          → (malloc s.input ≡ 0) ⊎ ((s.input (malloc s.input) ≡ none) × (malloc s.input ≢ queue))
          → Right (after_arrival a (receive q queue (malloc s.input) a s) k) items
      placed ne (inl e) = absurd (ne e)
      placed ne (inr (free, apart)) =
          let (t, e, g) = receive_lem s (malloc s.input) a items ne free apart h in
          subst (λ r. Right (after_arrival a r k) items) (sym e)
            (queued-Right a items (k t) (rest t (items ++ a ∷ []) g))

  reading-Right :
      (s : State S A) (items : List A) (k : State S A → Log S A)
      → ((t : State S A) (more : List A) → Holds t more → Right (k t) more)
      → Holds s items
      → Right (after_read (unless_waiting s (prim_receive q queue s)) k) items
  reading-Right s items k rest h = go s.status refl items h
    where
      go :
          (st : Status)
          → s.status ≡ st
          → (items : List A) → Holds s items
          → Right (after_read (unless_waiting s (prim_receive q queue s)) k) items
      go Status.yielded e items h = rw (e, after_read) (rest s items h)
      go Status.running e [] h =
          let (r, g) = yields_lem s h in
          rw (e, r, after_read) (rest (record s { status = Status.yielded }) [] g)
      go Status.running e (a ∷ items) h =
          let (t, r, g) = returns_lem s a items e h in
          rw (e, r, after_read) (read-Right a items (k t) (rest t items g))

  -- Inputs come from a handle whose unread ones are `items`, and `malloc` gives NULL or an address
  -- other than the queue's at which there is no input. Whatever comes and whenever the coroutine
  -- reads, nothing faults, the inputs that are read are those that were queued, in the same order
  -- and each once, but for those left at the end, and the coroutine does not wait while one is left.
  pub reads_in_order :
      (malloc : (Node → Option A) → Node)
      → ((f : Node → Option A) → (malloc f ≡ 0) ⊎ ((f (malloc f) ≡ none) × (malloc f ≢ queue)))
      → (es : List (Event A)) (s : State S A) (items : List A) → Holds s items
      → (t : State S A) × (left : List A) × ((play q queue malloc es s).final ≡ some t)
        × Holds t left
        × (items ++ (play q queue malloc es s).queued ≡ (play q queue malloc es s).read ++ left)
  unfolding play
  reads_in_order malloc law [] s items h = (s, items, refl, h, append-nil items)
  reads_in_order malloc law (Event.arrives a ∷ es) s items h =
      arrival-Right malloc a s items (play q queue malloc es) (law s.input)
        (λ t more g. reads_in_order malloc law es t more g) h
  reads_in_order malloc law (Event.reads ∷ es) s items h =
      reading-Right s items (play q queue malloc es)
        (λ t more g. reads_in_order malloc law es t more g) h
