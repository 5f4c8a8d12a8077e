-- ===== src/Queue/Order.antt =====
-- The links hold a list of nodes in order.
use couv.Prelude.{◌==◌, ◌≡◌, ◌≢◌, true, false, refl, sym, List, [], ◌∷◌, ◌++◌, arith}
use mathlib.Core.Path.{subst}
use couv.Queue.{
  Fresh, Node, Links, set_next, set_prev, QueueLaws, init, is_empty, insert_tail, head, remove,
  links,
}
use couv.Queue.Segment.{
  NoDup, Segment, last_of, Segment-last, Segment-join, Segment-set_next, Segment-set_prev,
  last_of-Fresh, Segment-retarget,
}

-- From the header round over the nodes to the header again.
pub record Ring (s : Links) (h : Node) (xs : List Node) : Type 0 where
  pub round : Segment s h xs h
  pub distinct : NoDup (h ∷ xs)

NoDup-snoc : (xs : List Node) (x : Node) → NoDup xs → Fresh x xs → NoDup (xs ++ x ∷ [])
NoDup-snoc [] x d f = (tt, tt)
NoDup-snoc (y ∷ xs) x d f = (apart xs d.0 (λ e. f.0 (sym e)), NoDup-snoc xs x d.1 f.1)
  where
    apart : (ys : List Node) → Fresh y ys → y ≢ x → Fresh y (ys ++ x ∷ [])
    apart [] f ne = (ne, tt)
    apart (z ∷ ys) f ne = (f.0, apart ys f.1 ne)

self : (x : Node) → (x == x) ≡ true
self x = ground arith

other : (x y : Node) → x ≢ y → (x == y) ≡ false
other x y ne = ground arith

-- `insert_tail` links the last node to the new one, and that to the header.
insert_tail_lem :
    (h : Node) (s : Links) (x l : Node)
    → s.prev h ≡ l
    → insert_tail h x s ≡ set_prev (set_next (set_prev (set_next s l x) x l) x h) h x
unfolding insert_tail
insert_tail_lem h s x l e = rw (e, self x) refl

insert_tail-Ring :
    (h : Node) (s : Links) (x : Node) (xs : List Node)
    → Ring s h xs
    → Fresh x (h ∷ xs)
    → Ring (insert_tail h x s) h (xs ++ x ∷ [])
insert_tail-Ring h s x xs r f = record {
  round = rw moved round;
  distinct = NoDup-snoc (h ∷ xs) x r.distinct f;
}
  where
    l : Node
    l = last_of h xs

    s2 : Links
    s2 = set_prev (set_next s l x) x l

    apart : h ≢ x
    apart e = f.0 (sym e)

    moved : insert_tail h x s ≡ set_prev (set_next s2 x h) h x
    moved = insert_tail_lem h s x l (Segment-last s h xs h r.round)

    front : Segment (set_prev (set_next s2 x h) h x) h xs x
    front = Segment-set_prev (set_next s2 x h) h x h xs x apart r.distinct.0 (
        Segment-set_next s2 x h h xs x f.0 f.1 (Segment-retarget s h xs h x r.distinct f.1 r.round))

    back : Segment (set_prev (set_next s2 x h) h x) x [] h
    back = (ground arith, ground arith)

    round : Segment (set_prev (set_next s2 x h) h x) h (xs ++ x ∷ []) h
    round = Segment-join (set_prev (set_next s2 x h) h x) h xs x [] h front back

-- `remove` links the neighbours of a node to one another.
remove_lem :
    (x : Node) (s : Links) (l y : Node)
    → s.prev x ≡ l
    → s.next x ≡ y
    → x ≢ y
    → remove x s ≡ set_prev (set_next s l y) y l
unfolding remove
remove_lem x s l y e n ne = rw (e, n, other x y ne) refl

remove-Ring :
    (h : Node) (s : Links) (x : Node) (xs : List Node) → Ring s h (x ∷ xs) → Ring (remove x s) h xs
remove-Ring h s x [] r = record {
  round =
      rw (remove_lem x s h h r.round.1 r.round.2.0 λ e. r.distinct.0.0 (sym e))
        (Segment-retarget s h [] x h (tt, tt) tt (r.round.0, r.round.1));
  distinct = (tt, tt);
}
remove-Ring h s x (y ∷ xs) r = record {
  round =
      subst (λ t. Segment t h (y ∷ xs) h)
        (sym (remove_lem x s h y r.round.1 r.round.2.0 r.distinct.1.0.0))
        (Segment-join (set_prev (set_next s h y) y h) h [] y xs h
          (Segment-retarget s h [] x y (tt, tt) tt (r.round.0, r.round.1)) rest);
  distinct = (r.distinct.0.1, r.distinct.1.1);
}
  where
    rest : Segment (set_prev (set_next s h y) y h) y xs h
    rest =
        Segment-set_prev (set_next s h y) y h y xs h (λ e. r.distinct.0.1.0 (sym e))
          r.distinct.1.1.0
          (Segment-set_next s h y y xs h r.distinct.0.1.0 r.distinct.0.1.1 r.round.2.2)

empty-Ring : (h : Node) (s : Links) → Ring s h [] → is_empty h s ≡ true
unfolding is_empty
empty-Ring h s r = rw r.round.1 (self h)

full-Ring :
    (h : Node) (s : Links) (x : Node) (xs : List Node) → Ring s h (x ∷ xs) → is_empty h s ≡ false
unfolding is_empty
full-Ring h s x xs r =
    rw (Segment-last s h (x ∷ xs) h r.round)
      (other h (last_of x xs) (last_of-Fresh h x xs r.distinct.0.0 r.distinct.0.1))

pub nothing-Ring : (h : Node) (s : Links) → Ring (init h s) h []
unfolding init
nothing-Ring h s = record { round = (ground arith, ground arith); distinct = (tt, tt) }

pub links-QueueLaws : QueueLaws links
unfolding head
links-QueueLaws = record {
  Holds = Ring;
  init_law = nothing-Ring;
  empty_law = empty-Ring;
  full_law = full-Ring;
  insert_law = insert_tail-Ring;
  head_law = λ h s x xs r. r.round.0;
  remove_law = remove-Ring;
}
