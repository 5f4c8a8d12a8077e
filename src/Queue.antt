-- ===== src/Queue.antt =====
-- The queue that the handles keep their input in. include/couv-private/ngx-queue.h is nginx's, so
-- its operations are an interface here, with the laws that its callers rely on. Below it are the
-- links that fill it.
pub mod Segment
pub mod Order
use couv.Prelude.{ℕ, ◌==◌, ◌≡◌, ◌≢◌, Bool, true, false, List, [], ◌∷◌, ◌++◌, if◌then◌else◌}

abbrev pub Node : Type 0
Node = ℕ

abbrev pub Fresh : Node → List Node → Type 0
Fresh p [] = Unit {0}
Fresh p (x ∷ xs) = (p ≢ x) × Fresh p xs

-- `ngx_queue_init`, `ngx_queue_empty`, `ngx_queue_insert_tail`, `ngx_queue_head` and
-- `ngx_queue_remove`, on a store of links.
pub record QueueOps (S : Type 0) : Type 0 where
  pub init : Node → S → S
  pub is_empty : Node → S → Bool
  pub insert_tail : Node → Node → S → S
  pub head : Node → S → Node
  pub remove : Node → S → S

-- A header leads to a list of nodes, oldest first.
pub record QueueLaws {S : Type 0} (q : QueueOps S) : Type 1 where
  pub Holds : S → Node → List Node → Type 0
  pub init_law : (h : Node) (s : S) → Holds (q.init h s) h []
  pub empty_law : (h : Node) (s : S) → Holds s h [] → q.is_empty h s ≡ true
  pub full_law :
      (h : Node) (s : S) (x : Node) (xs : List Node) → Holds s h (x ∷ xs) → q.is_empty h s ≡ false
  pub insert_law :
      (h : Node) (s : S) (x : Node) (xs : List Node)
      → Holds s h xs
      → Fresh x (h ∷ xs)
      → Holds (q.insert_tail h x s) h (xs ++ x ∷ [])
  pub head_law :
      (h : Node) (s : S) (x : Node) (xs : List Node) → Holds s h (x ∷ xs) → q.head h s ≡ x
  pub remove_law :
      (h : Node) (s : S) (x : Node) (xs : List Node)
      → Holds s h (x ∷ xs)
      → Holds (q.remove x s) h xs

-- `prev` and `next` of every `ngx_queue_t`.
pub record Links : Type 0 where
  pub next : Node → Node
  pub prev : Node → Node

abbrev pub update : (Node → Node) → Node → Node → Node → Node
update f p v q = if q == p then v else f q

abbrev pub set_next : Links → Node → Node → Links
set_next s p v = record { next = update s.next p v; prev = s.prev }

abbrev pub set_prev : Links → Node → Node → Links
set_prev s p v = record { next = s.next; prev = update s.prev p v }

unfoldable pub init : Node → Links → Links
init q s = let s = set_prev s q q in set_next s q q

unfoldable pub is_empty : Node → Links → Bool
is_empty h s = h == s.prev h

unfoldable pub insert_tail : Node → Node → Links → Links
insert_tail h x s =
    let s1 = set_prev s x (s.prev h) in
    let s2 = set_next s1 (s1.prev x) x in let s3 = set_next s2 x h in set_prev s3 h x

unfoldable pub head : Node → Links → Node
head h s = s.next h

unfoldable pub remove : Node → Links → Links
remove x s = let s1 = set_prev s (s.next x) (s.prev x) in set_next s1 (s1.prev x) (s1.next x)

abbrev pub links : QueueOps Links
links = record {
  init = init;
  is_empty = is_empty;
  insert_tail = insert_tail;
  head = head;
  remove = remove;
}
