-- ===== src/Native/Steps.antt =====
-- What one event does, and what it keeps of a coroutine that waits.
use mathlib.Core.List.{Memᴰ}
use couv.Prelude.{
  ℕ, ◌==◌, ◌≡◌, ◌≢◌, ◌⊎◌, inl, inr, refl, sym, ap, ◌∙◌, Bool, true, false, List, [], ◌∷◌, String,
  arith,
}
use native.Mathlib.Decide.{ℕ_discrete}
use couv.Request.{Memory, mark}
use couv.Native.{Loop, Phase, Result, at, sleep_cb, Answer}
use couv.Native.Play.{Event, handle, on_fires, on_closes, on_answers}
use couv.Native.Ends.{
  EndsIn, registered, prepared, begun, couv_sleep-EndsIn, couv_getaddrinfo-EndsIn, woken, answered,
  sleep_close_cb_lem, getaddrinfo_cb_lem, results_of, all_ip_in,
}

-- What one event does to the loop.
pub data Step (l : Loop) : Loop → Type 0 where
  stays : Step l l
  prepares : (p co : ℕ) → l.memory p ≡ false → Step l (prepared p co l)
  refuses :
      (p co : ℕ)
      → l.memory p ≡ false
      → Step l (record (registered p co l) { memory = mark (mark l.memory p true) p false })
  begins : (p co : ℕ) (phase : Phase) → l.memory p ≡ false → Step l (begun p co phase l)
  fires :
      (p : ℕ) → l.phase p ≡ Phase.armed → Step l (record l { phase = at l.phase p Phase.closing })
  wakes : (p : ℕ) → l.phase p ≡ Phase.closing → Step l (woken p l)
  replies :
      (p : ℕ) (results : List Result) → l.phase p ≡ Phase.resolving → Step l (answered p results l)

-- What libuv has under way is allocated.
abbrev pub IsConsistent : Loop → Type 0
IsConsistent l = (p : ℕ) → l.phase p ≢ Phase.idle → l.memory p ≡ true

-- Addresses that are answered are of IPv4 or IPv6.
abbrev pub HasIp : Event → Type 0
HasIp (Event.sleeps co m r) = Unit {0}
HasIp (Event.looks_up co m n s h r) = Unit {0}
HasIp (Event.fires p) = Unit {0}
HasIp (Event.closes p) = Unit {0}
HasIp (Event.answers p a) = all_ip_in a ≡ true

abbrev pub AllHaveIp : List Event → Type 0
AllHaveIp [] = Unit {0}
AllHaveIp (e ∷ es) = HasIp e × AllHaveIp es

pub Step-IsConsistent : {l l' : Loop} → Step l l' → IsConsistent l → IsConsistent l'
Step-IsConsistent stays c = c
Step-IsConsistent (prepares p co f) c = λ q h. ground (arith, c q)
Step-IsConsistent (refuses p co f) c = λ q h. ground (arith, c q)
Step-IsConsistent (begins p co phase f) c = λ q h. ground (arith, c q)
Step-IsConsistent (fires p e) c = λ q h. ground (arith, c q)
Step-IsConsistent (wakes p e) c = λ q h. ground (arith, c q)
Step-IsConsistent (replies p rs e) c = λ q h. ground (arith, c q)

-- Coroutine `co` was resumed.
abbrev pub IsWoken : ℕ → Loop → Type 0
IsWoken co l = (results : List Result) × Memᴰ (co, results) l.resumed

-- The phases of a sleeper from its start on, from when its timer has fired on, and of a look-up.
abbrev pub is_asleep : Phase → Bool
is_asleep Phase.idle = false
is_asleep Phase.armed = true
is_asleep Phase.closing = true
is_asleep Phase.resolving = false

abbrev pub is_fired : Phase → Bool
is_fired Phase.idle = false
is_fired Phase.armed = false
is_fired Phase.closing = true
is_fired Phase.resolving = false

abbrev pub is_asked : Phase → Bool
is_asked Phase.idle = false
is_asked Phase.armed = false
is_asked Phase.closing = false
is_asked Phase.resolving = true

-- Coroutine `co` was resumed, or it waits at `p` in a phase of `S`.
abbrev pub Waits : (Phase → Bool) → ℕ → ℕ → Loop → Type 0
Waits S p co l = IsWoken co l ⊎ ((l.owner p ≡ co) × (S (l.phase p) ≡ true))

module _ (S : Phase → Bool) (p co : ℕ) (no_idle : S Phase.idle ≡ false)
    (closes_too : S Phase.armed ≡ true → S Phase.closing ≡ true) where
  waiting_allocated : (l : Loop) → IsConsistent l → S (l.phase p) ≡ true → l.memory p ≡ true
  waiting_allocated l c s = c p (λ e. let bad : S Phase.idle ≡ true = sym (ap S e) ∙ s in cc)

  pub reply-Waits :
      (l : Loop) (q : ℕ) (results : List Result)
      → Waits S p co l
      → Waits S p co (answered q results l)
  reply-Waits l q results (inl (rs, m)) = inl (rs, Memᴰ.tail m)
  reply-Waits l q results (inr (o, s)) = elim (ℕ_discrete p q) [
    | yes e ↦ inl (results, Memᴰ.head (ap (λ x. (x, results)) (sym o ∙ ap l.owner e)))
    | no ne ↦ inr (o, (let other : (p == q) ≡ false = ground arith in rw other s))
  ]

  pub Step-Waits : {l l' : Loop} → Step l l' → IsConsistent l → Waits S p co l → Waits S p co l'
  Step-Waits stays c w = w
  Step-Waits (prepares q d f) c (inl w) = inl w
  Step-Waits {l = l} (prepares q d f) c (inr (o, s)) =
      let m = waiting_allocated l c s in inr (ground arith, ground arith)
  Step-Waits (refuses q d f) c (inl w) = inl w
  Step-Waits {l = l} (refuses q d f) c (inr (o, s)) =
      let m = waiting_allocated l c s in inr (ground arith, ground arith)
  Step-Waits (begins q d phase f) c (inl w) = inl w
  Step-Waits {l = l} (begins q d phase f) c (inr (o, s)) =
      let m = waiting_allocated l c s in inr (ground arith, ground arith)
  Step-Waits (fires q e) c (inl w) = inl w
  Step-Waits (fires q e) c (inr (o, s)) = inr (o, ground arith)
  Step-Waits {l = l} (wakes q e) c w = reply-Waits l q [] w
  Step-Waits {l = l} (replies q rs e) c w = reply-Waits l q rs w

module _ (errname : String) (malloc : Memory → ℕ)
    (fresh : (m : Memory) → malloc m ≢ 0 → m (malloc m) ≡ false) where
  fires-Step :
      (p : ℕ) (phase : Phase) (l : Loop) → l.phase p ≡ phase → EndsIn (Step l) (on_fires phase p l)
  unfolding sleep_cb
  fires-Step p Phase.armed l e = Step.fires p e
  fires-Step p Phase.idle l e = stays
  fires-Step p Phase.closing l e = stays
  fires-Step p Phase.resolving l e = stays

  closes-Step :
      (p : ℕ) (phase : Phase) (l : Loop)
      → IsConsistent l
      → l.phase p ≡ phase
      → EndsIn (Step l) (on_closes phase p l)
  closes-Step p Phase.closing l c e =
      rw
        (
          sleep_close_cb_lem p l
              (c p (λ f. let bad : Phase.closing ≡ Phase.idle = sym e ∙ f in cc)),
          EndsIn,
        )
        (Step.wakes p e)
  closes-Step p Phase.idle l c e = stays
  closes-Step p Phase.armed l c e = stays
  closes-Step p Phase.resolving l c e = stays

  answers-Step :
      (p : ℕ) (a : Answer) (phase : Phase) (l : Loop)
      → all_ip_in a ≡ true
      → IsConsistent l
      → l.phase p ≡ phase
      → EndsIn (Step l) (on_answers phase p a l)
  answers-Step p a Phase.resolving l h c e =
      rw
        (
          getaddrinfo_cb_lem p a l
              (c p (λ f. let bad : Phase.resolving ≡ Phase.idle = sym e ∙ f in cc)) h,
          EndsIn,
        )
        (replies p (results_of a) e)
  answers-Step p a Phase.idle l h c e = stays
  answers-Step p a Phase.armed l h c e = stays
  answers-Step p a Phase.closing l h c e = stays

  pub handle-Step :
      (e : Event) (l : Loop)
      → HasIp e
      → IsConsistent l
      → EndsIn (Step l) (handle errname malloc e l)
  unfolding handle
  handle-Step (Event.sleeps co m r) l h c =
      couv_sleep-EndsIn errname (malloc l.memory) co l (Step l) m r stays
        (λ n. prepares _ co (fresh l.memory n)) (λ n. begins _ co Phase.armed (fresh l.memory n))
  handle-Step (Event.looks_up co m n s g r) l h c =
      couv_getaddrinfo-EndsIn errname (malloc l.memory) co l (Step l) n s g m r stays
        (λ n. refuses _ co (fresh l.memory n)) (λ n. begins _ co Phase.resolving (fresh l.memory n))
  handle-Step (Event.fires p) l h c = fires-Step p (l.phase p) l refl
  handle-Step (Event.closes p) l h c = closes-Step p (l.phase p) l c refl
  handle-Step (Event.answers p a) l h c = answers-Step p a (l.phase p) l h c refl
