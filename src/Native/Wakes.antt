-- ===== src/Native/Wakes.antt =====
-- A coroutine that waits for libuv is woken, whatever else happens in between.
use couv.Prelude.{
  ℕ, ◌≡◌, ◌≢◌, inl, inr, refl, ap, Bool, true, false, some, List, [], ◌∷◌, ◌++◌, String,
}
use couv.Lua.{Run, ok, raised, fault}
use couv.Request.{Memory}
use couv.Native.{Loop, Phase, Answer}
use couv.Native.Play.{Event, handle, play}
use couv.Native.Ends.{EndsIn, all_ip_in}
use couv.Native.Own.{own_fires, own_closes, own_answers}
use couv.Native.Steps.{
  IsConsistent, IsWoken, Waits, is_asleep, is_fired, is_asked, AllHaveIp, Step, Step-IsConsistent,
  Step-Waits, handle-Step,
}

abbrev never : Phase → Bool
never phase = false

-- A property that holds after some events, none of which is a fault.
abbrev Plays : String → (Memory → ℕ) → (Loop → Type 0) → List Event → Loop → Type 0
Plays errname malloc P es l =
    (l' : Loop) × (play errname malloc es l ≡ some l') × IsConsistent l' × P l'

module _ (errname : String) (malloc : Memory → ℕ)
    (fresh : (m : Memory) → malloc m ≢ 0 → m (malloc m) ≡ false) where
  Plays-cons :
      (P Q : Loop → Type 0) (e : Event) (es : List Event) (l : Loop)
      → EndsIn (λ l'. IsConsistent l' × P l') (handle errname malloc e l)
      → ((l' : Loop) → IsConsistent l' → P l' → Plays errname malloc Q es l')
      → Plays errname malloc Q (e ∷ es) l
  unfolding play
  Plays-cons P Q e es l h k = go (handle errname malloc e l) refl h
    where
      go :
          (r : Run Loop (Unit {0}))
          → handle errname malloc e l ≡ r
          → EndsIn (λ l'. IsConsistent l' × P l') r
          → Plays errname malloc Q (e ∷ es) l
      go (ok u l') f c = let (m, r, d, q) = k l' c.0 c.1 in (m, rw f r, d, q)
      go (raised x l') f c = let (m, r, d, q) = k l' c.0 c.1 in (m, rw f r, d, q)
      go fault f c = absurd c

  module _ (S : Phase → Bool) (p co : ℕ) (no_idle : S Phase.idle ≡ false)
      (closes_too : S Phase.armed ≡ true → S Phase.closing ≡ true) where
    goes_on :
        (r : Run Loop (Unit {0})) (l : Loop)
        → IsConsistent l
        → Waits S p co l
        → EndsIn (Step l) r
        → EndsIn (λ l'. IsConsistent l' × Waits S p co l') r
    goes_on (ok u l') l c w s = (Step-IsConsistent s c, Step-Waits S p co no_idle closes_too s c w)
    goes_on (raised x l') l c w s =
        (Step-IsConsistent s c, Step-Waits S p co no_idle closes_too s c w)
    goes_on fault l c w s = s

    -- Any events, and then some.
    Plays-append :
        (Q : Loop → Type 0) (es more : List Event) (l : Loop)
        → AllHaveIp es
        → IsConsistent l
        → Waits S p co l
        → ((l' : Loop) → IsConsistent l' → Waits S p co l' → Plays errname malloc Q more l')
        → Plays errname malloc Q (es ++ more) l
    Plays-append Q [] more l h c w k = k l c w
    Plays-append Q (e ∷ es) more l h c w k =
        Plays-cons (Waits S p co) Q e (es ++ more) l
          (goes_on (handle errname malloc e l) l c w (handle-Step errname malloc fresh e l h.0 c))
          (λ l' d v. Plays-append Q es more l' h.1 d v k)

  consistently :
      (P : Loop → Type 0) (r : Run Loop (Unit {0})) (l : Loop)
      → IsConsistent l
      → EndsIn (Step l) r
      → EndsIn P r
      → EndsIn (λ l'. IsConsistent l' × P l') r
  consistently P (ok u l') l c s h = (Step-IsConsistent s c, h)
  consistently P (raised x l') l c s h = (Step-IsConsistent s c, h)
  consistently P fault l c s h = s

  already-IsWoken : (co : ℕ) (l : Loop) → Waits never 0 co l → IsWoken co l
  already-IsWoken co l (inl w) = w
  already-IsWoken co l (inr (o, s)) = absurd (cc)

  -- Who was resumed stays so.
  and_then_any :
      (co : ℕ) (last : List Event) (l : Loop)
      → AllHaveIp last
      → IsConsistent l
      → IsWoken co l
      → Plays errname malloc (IsWoken co) last l
  unfolding play
  and_then_any co [] l h c w = (l, refl, c, w)
  and_then_any co (e ∷ es) l h c w =
      Plays-cons (Waits never 0 co) (IsWoken co) e es l
        (goes_on never 0 co refl (λ f. f) (handle errname malloc e l) l c (inl w)
          (handle-Step errname malloc fresh e l h.0 c))
        (λ l' d v. and_then_any co es l' h.1 d (already-IsWoken co l' v))

  module _ (p : ℕ) (l : Loop) (consistent : IsConsistent l) (first last : List Event)
      (first_ip : AllHaveIp first) (last_ip : AllHaveIp last) where
    -- A coroutine sleeps with its handle at `p`, in a loop where all that libuv has under way is
    -- allocated, and malloc never gives out what is allocated. Whatever events come and in
    -- whatever order, those of other coroutines included, as long as the addresses that look-ups
    -- answer are of IPv4 or IPv6: if its timer fires and then its handle is closed, none of the
    -- events is a fault and the coroutine is resumed.
    pub sleeper_wakes :
        (middle : List Event)
        → AllHaveIp middle
        → l.phase p ≡ Phase.armed
        → (l' : Loop) × (play errname malloc
              (first ++ Event.fires p ∷ (middle ++ Event.closes p ∷ last))
              l
            ≡ some l')
          × IsConsistent l'
          × IsWoken (l.owner p) l'
    unfolding handle
    sleeper_wakes middle middle_ip asleep =
        Plays-append is_asleep p co refl (λ s. s) (IsWoken co) first _ l first_ip consistent
          (inr (refl, ap is_asleep asleep))
          λ l1 c1 w1.
            Plays-cons (Waits is_fired p co) (IsWoken co) (Event.fires p) _ l1
              (consistently (Waits is_fired p co) (handle errname malloc (Event.fires p) l1) l1 c1
                (handle-Step errname malloc fresh (Event.fires p) l1 tt c1)
                (own_fires p co l1 (l1.phase p) refl w1))
              λ l2 c2 w2.
                Plays-append is_fired p co refl (λ s. refl) (IsWoken co) middle _ l2 middle_ip c2 w2
                  λ l3 c3 w3.
                    Plays-cons (IsWoken co) (IsWoken co) (Event.closes p) last l3
                      (consistently (IsWoken co) (handle errname malloc (Event.closes p) l3) l3 c3
                        (handle-Step errname malloc fresh (Event.closes p) l3 tt c3)
                        (own_closes p co l3 (l3.phase p) c3 refl w3))
                      λ l4 c4 w4. and_then_any co last l4 last_ip c4 w4
      where
        co : ℕ
        co = l.owner p

    -- Likewise a coroutine whose look-up with a request at `p` is under way is resumed once the
    -- look-up is answered.
    pub look_up_wakes :
        (a : Answer)
        → all_ip_in a ≡ true
        → l.phase p ≡ Phase.resolving
        → (l' : Loop) × (play errname malloc (first ++ Event.answers p a ∷ last) l ≡ some l')
          × IsConsistent l'
          × IsWoken (l.owner p) l'
    unfolding handle
    look_up_wakes a ip asked =
        Plays-append is_asked p co refl (λ s. let bad : false ≡ true = s in cc) (IsWoken co) first _
          l first_ip consistent (inr (refl, ap is_asked asked))
          λ l1 c1 w1.
            Plays-cons (IsWoken co) (IsWoken co) (Event.answers p a) last l1
              (consistently (IsWoken co) (handle errname malloc (Event.answers p a) l1) l1 c1
                (handle-Step errname malloc fresh (Event.answers p a) l1 ip c1)
                (own_answers p co l1 a (l1.phase p) ip c1 refl w1))
              λ l2 c2 w2. and_then_any co last l2 last_ip c2 w2
      where
        co : ℕ
        co = l.owner p
