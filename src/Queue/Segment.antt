-- ===== src/Queue/Segment.antt =====
-- A run of nodes that are linked to one another in both directions, and what a write of one link
-- leaves of it.
use couv.Prelude.{◌≡◌, ◌≢◌, List, [], ◌∷◌, ◌++◌, arith}
use couv.Queue.{Fresh, Node, Links, set_next, set_prev}

abbrev pub NoDup : List Node → Type 0
NoDup [] = Unit {0}
NoDup (x ∷ xs) = Fresh x xs × NoDup xs

-- From `a` over `xs` to `b`.
abbrev pub Segment : Links → Node → List Node → Node → Type 0
Segment s a [] b = (s.next a ≡ b) × (s.prev b ≡ a)
Segment s a (x ∷ xs) b = (s.next a ≡ x) × (s.prev x ≡ a) × Segment s x xs b

-- The last node before the end.
abbrev pub last_of : Node → List Node → Node
last_of a [] = a
last_of a (x ∷ xs) = last_of x xs

pub Segment-last :
    (s : Links) (a : Node) (xs : List Node) (b : Node) → Segment s a xs b → s.prev b ≡ last_of a xs
Segment-last s a [] b g = g.1
Segment-last s a (x ∷ xs) b g = Segment-last s x xs b g.2

pub Segment-join :
    (s : Links) (a : Node) (xs : List Node) (x : Node) (ys : List Node) (b : Node)
    → Segment s a xs x
    → Segment s x ys b
    → Segment s a (xs ++ x ∷ ys) b
Segment-join s a [] x ys b g k = (g.0, g.1, k)
Segment-join s a (y ∷ xs) x ys b g k = (g.0, g.1, Segment-join s y xs x ys b g.2 k)

pub Segment-cut :
    (s : Links) (a : Node) (xs : List Node) (x : Node) (ys : List Node) (b : Node)
    → Segment s a (xs ++ x ∷ ys) b
    → Segment s a xs x × Segment s x ys b
Segment-cut s a [] x ys b g = ((g.0, g.1), g.2)
Segment-cut s a (y ∷ xs) x ys b g = let (l, r) = Segment-cut s y xs x ys b g.2 in ((g.0, g.1, l), r)

-- A node that is not left through `next`.
pub Segment-set_next :
    (s : Links) (p v a : Node) (xs : List Node) (b : Node)
    → p ≢ a
    → Fresh p xs
    → Segment s a xs b
    → Segment (set_next s p v) a xs b
Segment-set_next s p v a [] b ne f g = (ground arith, g.1)
Segment-set_next s p v a (x ∷ xs) b ne f g =
    (ground arith, g.1, Segment-set_next s p v x xs b f.0 f.1 g.2)

-- A node that is not left through `prev`.
pub Segment-set_prev :
    (s : Links) (p v a : Node) (xs : List Node) (b : Node)
    → p ≢ b
    → Fresh p xs
    → Segment s a xs b
    → Segment (set_prev s p v) a xs b
Segment-set_prev s p v a [] b ne f g = (g.0, ground arith)
Segment-set_prev s p v a (x ∷ xs) b ne f g =
    (g.0, ground arith, Segment-set_prev s p v x xs b ne f.1 g.2)

pub last_of-Fresh : (p a : Node) (xs : List Node) → p ≢ a → Fresh p xs → p ≢ last_of a xs
last_of-Fresh p a [] ne f = ne
last_of-Fresh p a (x ∷ xs) ne f = last_of-Fresh p x xs f.0 f.1

-- The last node of a segment is linked to another end.
pub Segment-retarget :
    (s : Links) (a : Node) (xs : List Node) (x b : Node)
    → NoDup (a ∷ xs)
    → Fresh b xs
    → Segment s a xs x
    → Segment (set_prev (set_next s (last_of a xs) b) b (last_of a xs)) a xs b
Segment-retarget s a [] x b d f g = (ground arith, ground arith)
Segment-retarget s a (y ∷ xs) x b d f g =
    let apart = last_of-Fresh a y xs d.0.0 d.0.1 in
    (ground arith, ground arith, Segment-retarget s y xs x b d.1 f.1 g.2)
