-- ===== src/Native/Balance.antt =====
-- What is allocated in the loop is what was before and what libuv has under way.
use couv.Prelude.{
  ℕ, ◌==◌, ◌||◌, not, ◌≡◌, ◌≢◌, refl, ap, inl, inr, Bool, Bool-cases, true, false, List, [], ◌∷◌,
  String, some, arith,
}
use couv.Prelude.Int.{ℤ, pos, ltb_ℤ}
use couv.Lua.{Run, ok, raised, fault}
use couv.Request.{Memory}
use couv.Native.{
  Loop, Phase, Answer, couv_sleep, sleep_cb, in_coroutine, allocate, register, set_data, uv_begin,
}
use couv.Native.Play.{Event, handle, play, on_fires, on_closes, on_answers}
use couv.Native.Ends.{
  EndsIn, begun, couv_getaddrinfo-EndsIn, sleep_close_cb_lem, getaddrinfo_cb_lem, all_ip_in,
}
use couv.Native.Steps.{HasIp, AllHaveIp}
use couv.Request.{alloc}

abbrev pub is_idle : Phase → Bool
is_idle Phase.idle = true
is_idle Phase.armed = false
is_idle Phase.closing = false
is_idle Phase.resolving = false

-- Libuv starts the timers of all that sleep.
abbrev pub AllStart : List Event → Type 0
AllStart [] = Unit {0}
AllStart (Event.sleeps co m r ∷ es) = (ltb_ℤ r (pos 0) ≡ false) × AllStart es
AllStart (Event.looks_up co m n s h r ∷ es) = AllStart es
AllStart (Event.fires p ∷ es) = AllStart es
AllStart (Event.closes p ∷ es) = AllStart es
AllStart (Event.answers p a ∷ es) = AllStart es

-- What is allocated is what is kept and what libuv has under way, and these are apart.
abbrev Balanced : Memory → ℕ → Loop → Type 0
Balanced kept lists l =
    (l.lists ≡ lists)
    × ((p : ℕ)
        → (l.memory p ≡ (kept p || not (is_idle (l.phase p))))
          × ((is_idle (l.phase p) || not (kept p)) ≡ true))

accepted-EndsIn :
    (errname : String) (p co : ℕ) (l : Loop) (P : Loop → Type 0) (m : Bool) (r : ℤ)
    → ltb_ℤ r (pos 0) ≡ false
    → P l
    → (p ≢ 0 → P (begun p co Phase.armed l))
    → EndsIn P (couv_sleep errname p co m r l)
unfolding couv_sleep allocate register set_data uv_begin in_coroutine alloc
accepted-EndsIn errname p co l P true r f main accepted = main
accepted-EndsIn errname p co l P false r f main accepted = elim (Bool-cases (p == 0)) [
  | inl e ↦ rw (e, EndsIn) main
  | inr e ↦ rw (e, f, EndsIn) (accepted (λ z. ground arith))
]

module _ (kept : Memory) (lists : ℕ) where
  fires-Balanced :
      (p : ℕ) (phase : Phase) (l : Loop)
      → l.phase p ≡ phase
      → Balanced kept lists l
      → EndsIn (Balanced kept lists) (on_fires phase p l)
  unfolding sleep_cb
  fires-Balanced p Phase.armed l e b = (b.0, λ q. let h = b.1 q in (ground arith, ground arith))
  fires-Balanced p Phase.idle l e b = b
  fires-Balanced p Phase.closing l e b = b
  fires-Balanced p Phase.resolving l e b = b

  under_way :
      (p : ℕ) (l : Loop) → Balanced kept lists l → is_idle (l.phase p) ≡ false → l.memory p ≡ true
  under_way p l b e = let h = b.1 p in ground arith

  closes-Balanced :
      (p : ℕ) (phase : Phase) (l : Loop)
      → l.phase p ≡ phase
      → Balanced kept lists l
      → EndsIn (Balanced kept lists) (on_closes phase p l)
  closes-Balanced p Phase.closing l e b =
      rw (sleep_close_cb_lem p l (under_way p l b (ap is_idle e)), EndsIn)
        (b.0, λ q. let h = b.1 q in (ground arith, ground arith))
  closes-Balanced p Phase.idle l e b = b
  closes-Balanced p Phase.armed l e b = b
  closes-Balanced p Phase.resolving l e b = b

  answers-Balanced :
      (p : ℕ) (a : Answer) (phase : Phase) (l : Loop)
      → all_ip_in a ≡ true
      → l.phase p ≡ phase
      → Balanced kept lists l
      → EndsIn (Balanced kept lists) (on_answers phase p a l)
  answers-Balanced p a Phase.resolving l ip e b =
      rw (getaddrinfo_cb_lem p a l (under_way p l b (ap is_idle e)) ip, EndsIn)
        (b.0, λ q. let h = b.1 q in (ground arith, ground arith))
  answers-Balanced p a Phase.idle l ip e b = b
  answers-Balanced p a Phase.armed l ip e b = b
  answers-Balanced p a Phase.closing l ip e b = b

  module _ (errname : String) (malloc : Memory → ℕ)
      (fresh : (m : Memory) → malloc m ≢ 0 → m (malloc m) ≡ false) where
    handle-Balanced :
        (e : Event) (l : Loop)
        → HasIp e
        → AllStart (e ∷ [])
        → Balanced kept lists l
        → EndsIn (Balanced kept lists) (handle errname malloc e l)
    unfolding handle
    handle-Balanced (Event.sleeps co m r) l ip start b =
        accepted-EndsIn errname (malloc l.memory) co l (Balanced kept lists) m r start.0 b
          λ n. (b.0, λ q. let h = b.1 q in let f = fresh l.memory n in (ground arith, ground arith))
    handle-Balanced (Event.looks_up co m n s g r) l ip start b =
        couv_getaddrinfo-EndsIn errname (malloc l.memory) co l (Balanced kept lists) n s g m r b
          (λ z.
            (b.0, λ q. let h = b.1 q in let f = fresh l.memory z in (ground arith, ground arith)))
          (λ z.
            (b.0, λ q. let h = b.1 q in let f = fresh l.memory z in (ground arith, ground arith)))
    handle-Balanced (Event.fires p) l ip start b = fires-Balanced p (l.phase p) l refl b
    handle-Balanced (Event.closes p) l ip start b = closes-Balanced p (l.phase p) l refl b
    handle-Balanced (Event.answers p a) l ip start b = answers-Balanced p a (l.phase p) l ip refl b

    AllStart-split :
        (e : Event) (es : List Event) → AllStart (e ∷ es) → AllStart (e ∷ []) × AllStart es
    AllStart-split (Event.sleeps co m r) es h = ((h.0, tt), h.1)
    AllStart-split (Event.looks_up co m n s g r) es h = (tt, h)
    AllStart-split (Event.fires p) es h = (tt, h)
    AllStart-split (Event.closes p) es h = (tt, h)
    AllStart-split (Event.answers p a) es h = (tt, h)

    play-Balanced :
        (es : List Event) (l : Loop)
        → AllHaveIp es
        → AllStart es
        → Balanced kept lists l
        → (l' : Loop) × (play errname malloc es l ≡ some l') × Balanced kept lists l'
    unfolding play
    play-Balanced [] l ip start b = (l, refl, b)
    play-Balanced (e ∷ es) l ip start b =
        let (first, rest) = AllStart-split e es start in
        go (handle errname malloc e l) refl (handle-Balanced e l ip.0 first b)
          (λ l'. play-Balanced es l' ip.1 rest)
      where
        go :
            (r : Run Loop (Unit {0}))
            → handle errname malloc e l ≡ r
            → EndsIn (Balanced kept lists) r
            → ((l' : Loop)
                → Balanced kept lists l'
                → (k : Loop) × (play errname malloc es l' ≡ some k) × Balanced kept lists k)
            → (k : Loop) × (play errname malloc (e ∷ es) l ≡ some k) × Balanced kept lists k
        go (ok u l') f c k = let (m, q, d) = k l' c in (m, rw f q, d)
        go (raised x l') f c k = let (m, q, d) = k l' c in (m, rw f q, d)
        go fault f c k = absurd c

-- From a loop in which libuv has nothing under way, with a malloc that never gives out what is
-- allocated, any events run without a fault if libuv starts the timers of all that sleep and
-- answers look-ups with addresses of IPv4 or IPv6. Afterwards exactly those addresses are allocated
-- that were before or that libuv has under way, and no list of libuv's is left.
pub nothing_leaks :
    (errname : String) (malloc : Memory → ℕ)
    (fresh : (m : Memory) → malloc m ≢ 0 → m (malloc m) ≡ false) (es : List Event) (l : Loop)
    → AllHaveIp es
    → AllStart es
    → ((p : ℕ) → is_idle (l.phase p) ≡ true)
    → (l' : Loop) × (play errname malloc es l ≡ some l')
      × (l'.lists ≡ l.lists)
      × ((p : ℕ) → l'.memory p ≡ (l.memory p || not (is_idle (l'.phase p))))
nothing_leaks errname malloc fresh es l ip start idle =
    let (l', run, b) =
      play-Balanced l.memory l.lists errname malloc fresh es l ip start
        (refl, λ p. let h = idle p in (ground arith, ground arith)) in
    (l', run, b.0, λ p. (b.1 p).0)
