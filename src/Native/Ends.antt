-- ===== src/Native/Ends.antt =====
-- Where each call and callback may end, one by one.
use couv.Prelude.{
  ℕ, ◌==◌, ◌≡◌, ◌≢◌, inl, inr, refl, Bool, true, false, Option, none, some, List, [], ◌∷◌, ◌&&◌,
  ◌+◌, ◌-◌, ap, String, arith, Bool-cases,
}
use couv.Prelude.Int.{ℤ, pos, ltb_ℤ}
use couv.Lua.{Run, ok, raised, fault, lua_error}
use couv.Handle.{Value, put, thread_key}
use couv.Request.{mark, alloc, free}
use couv.SockAddr.{is_ip, pushsockaddr}
use couv.Native.Hints.{checkaddrinfohints-same}
use couv.Native.{
  Loop, Phase, Result, at, couv_sleep, couv_getaddrinfo, any, is_some, HintsArg, sleep_close_cb,
  getaddrinfo_cb, allocate, release, register, resume, set_data, uv_begin, uv_end, in_coroutine,
  uv_freeaddrinfo, Answer, AddrInfo, push_addrinfos,
}
use couv.Native.Play.{on_closes, on_answers, listed}

-- A property of the loop that a call ends in.
abbrev pub EndsIn : (Loop → Type 0) → Run Loop (Unit {0}) → Type 0
EndsIn P (ok u l) = P l
EndsIn P (raised e l) = P l
EndsIn P fault = ⊥

-- Coroutine `co` is in the registry for a handle or request at `p`.
abbrev pub registered : ℕ → ℕ → Loop → Loop
registered p co l = record l {
  registry = put l.registry (thread_key p) (some Value.thread);
  owner = at l.owner p co;
}

-- The same with its memory.
abbrev pub prepared : ℕ → ℕ → Loop → Loop
prepared p co l = record (registered p co l) { memory = mark l.memory p true }

abbrev pub begun : ℕ → ℕ → Phase → Loop → Loop
begun p co phase l = record (prepared p co l) { phase = at l.phase p phase }

module _ (errname : String) (p co : ℕ) (l : Loop) (P : Loop → Type 0) where
  -- Where `couv_sleep` may end.
  pub couv_sleep-EndsIn :
      (m : Bool) (r : ℤ)
      → P l
      → (p ≢ 0 → P (prepared p co l))
      → (p ≢ 0 → P (begun p co Phase.armed l))
      → EndsIn P (couv_sleep errname p co m r l)
  unfolding couv_sleep allocate register set_data uv_begin in_coroutine alloc
  couv_sleep-EndsIn true r main refused accepted = main
  couv_sleep-EndsIn false r main refused accepted = elim (Bool-cases (p == 0)) [
    | inl e ↦ rw (e, EndsIn) main
    | inr e ↦ elim (Bool-cases (ltb_ℤ r (pos 0))) [
      | inl f ↦ rw (e, f, EndsIn) (refused (λ z. ground arith))
      | inr f ↦ rw (e, f, EndsIn) (accepted (λ z. ground arith))
    ]
  ]

  -- Where `couv_getaddrinfo` may end.
  pub couv_getaddrinfo-EndsIn :
      (node service : Option String) (hints_arg : HintsArg) (m : Bool) (r : ℤ)
      → P l
      → (p ≢ 0 → P (record (registered p co l) { memory = mark (mark l.memory p true) p false }))
      → (p ≢ 0 → P (begun p co Phase.resolving l))
      → EndsIn P (couv_getaddrinfo errname p node service hints_arg co m (λ _ _ _. r) l)
  unfolding couv_getaddrinfo allocate release register set_data uv_begin in_coroutine alloc free
  couv_getaddrinfo-EndsIn node service hints_arg m r early refused accepted =
      elim (Bool-cases (any (is_some node) (is_some service))) [
        | inr g ↦ rw (g, EndsIn) early
        | inl g ↦ elim (checkaddrinfohints-same l 3 hints_arg) [
          | inr (_, f) ↦ rw (g, f, EndsIn) early
          | inl (_, f) ↦ elim (Bool-cases m) [
            | inl e ↦ rw (g, f, e, EndsIn) early
            | inr e ↦ elim (Bool-cases (p == 0)) [
              | inl n ↦ rw (g, f, e, n, EndsIn) early
              | inr n ↦ elim (Bool-cases (ltb_ℤ r (pos 0))) [
                | inl k ↦ rw (g, f, e, n, k, self, EndsIn) (refused (λ z. ground arith))
                | inr k ↦ rw (g, f, e, n, k, EndsIn) (accepted (λ z. ground arith))
              ]
            ]
          ]
        ]
      ]
    where
      self : (p == p) ≡ true
      self = ground arith

-- The loop after a sleeper's handle was closed.
abbrev pub woken : ℕ → Loop → Loop
woken p l = record l {
  memory = mark l.memory p false;
  registry = put l.registry (thread_key p) none;
  phase = at l.phase p Phase.idle;
  resumed = (l.owner p, []) ∷ l.resumed;
}

pub sleep_close_cb_lem :
    (p : ℕ) (l : Loop) → l.memory p ≡ true → on_closes Phase.closing p l ≡ ok tt (woken p l)
unfolding uv_end sleep_close_cb register release resume free
sleep_close_cb_lem p l e = rw e refl

-- The loop after a look-up was answered.
abbrev pub answered : ℕ → List Result → Loop → Loop
answered p results l = record l {
  memory = mark l.memory p false;
  phase = at l.phase p Phase.idle;
  resumed = (l.owner p, results) ∷ l.resumed;
}

abbrev pub all_ip : List AddrInfo → Bool
all_ip [] = true
all_ip (p ∷ ps) = is_ip p.ai_addr && all_ip ps

pub push_addrinfos-ip :
    (res : List AddrInfo) (l : Loop) → all_ip res ≡ true → push_addrinfos res l ≡ ok res l
unfolding push_addrinfos pushsockaddr
push_addrinfos-ip [] l h = refl
push_addrinfos-ip (p ∷ ps) l h = elim (Bool-cases (is_ip p.ai_addr)) [
  | inl e ↦ rw (e, push_addrinfos-ip ps l (ground arith)) refl
  | inr e ↦ absurd (ground arith)
]

pub push_addrinfos-other :
    (res : List AddrInfo) (l : Loop)
    → all_ip res ≡ false
    → push_addrinfos res l ≡ raised (lua_error "ENOTSUP") l
unfolding push_addrinfos pushsockaddr
push_addrinfos-other [] l h = absurd (cc)
push_addrinfos-other (p ∷ ps) l h = elim (Bool-cases (is_ip p.ai_addr)) [
  | inl e ↦ rw (e, push_addrinfos-other ps l (ground arith)) refl
  | inr e ↦ rw e refl
]

-- What a coroutine is resumed with.
abbrev pub results_of : Answer → List Result
results_of (Answer.found res) = Result.table res ∷ []
results_of (Answer.failed errname) = Result.nil ∷ Result.name errname ∷ []

abbrev pub all_ip_in : Answer → Bool
all_ip_in (Answer.found res) = all_ip res
all_ip_in (Answer.failed errname) = true

pub getaddrinfo_cb_lem :
    (p : ℕ) (a : Answer) (l : Loop)
    → l.memory p ≡ true
    → all_ip_in a ≡ true
    → on_answers Phase.resolving p a l ≡ ok tt (answered p (results_of a) l)
unfolding uv_end getaddrinfo_cb release resume free uv_freeaddrinfo
getaddrinfo_cb_lem p (Answer.failed errname) l e h = rw e refl
getaddrinfo_cb_lem p (Answer.found res) l e h =
    rw
      (
        push_addrinfos-ip res
            (listed (Answer.found res) (record l { phase = at l.phase p Phase.idle })) h,
        e,
      )
      (ap (λ n. ok tt (record (answered p (results_of (Answer.found res)) l) { lists = n })) back)
  where
    back : l.lists + 1 - 1 ≡ l.lists
    back = omega arith
