-- ===== src/Native/Tests.antt =====
-- Two coroutines that sleep and look a name up, and the theorems at them.
use couv.Prelude.{
  ◌||◌, not, ℕ, ◌≡◌, ◌≢◌, refl, true, false, none, some, List, [], ◌∷◌, ◌++◌, arith, if◌then◌else◌,
}
use couv.Prelude.Int.{pos}
use couv.Lua.{ok, ◌>>◌}
use couv.Handle.{Value, thread_key}
use couv.Request.{Memory}
use couv.SockAddr.{tosockfamily, af_inet}
use couv.Native.{
  Loop, Phase, Answer, AddrInfo, AddrHints, HintsArg, at, couv_sleep, sleep_cb, couv_getaddrinfo,
  checkaddrinfohints,
}
use couv.Native.Play.{Event, play, on_closes, on_answers}
use couv.Native.Ends.{begun, registered, results_of}
use couv.Native.Steps.{IsConsistent, IsWoken}
use couv.Native.Wakes.{sleeper_wakes, look_up_wakes}
use couv.Native.Balance.{is_idle, nothing_leaks}
use couv.Native.Life.{sleep_restores, look_up_answers}

abbrev start : Loop
start = record {
  memory = λ p. false;
  registry = λ k. none;
  owner = λ p. 0;
  phase = λ p. Phase.idle;
  lists = 0;
  resumed = [];
}

-- There are two places, 10 and 20.
abbrev malloc : Memory → ℕ
malloc m = if m 10 then if m 20 then 0 else 20 else 10

fresh : (m : Memory) → malloc m ≢ 0 → m (malloc m) ≡ false
fresh m n = ground arith

-- Coroutine 7 sleeps at 10; coroutine 8 sleeps at 20 and wakes in between.
abbrev asleep : Loop
asleep = begun 10 7 Phase.armed start

asleep-IsConsistent : IsConsistent asleep
asleep-IsConsistent p h = ground arith

sleeper_wakes_example :
    (l' : Loop) × (play "EINVAL" malloc
        ((Event.sleeps 8 false (pos 0) ∷ [])
          ++ Event.fires 10 ∷ ((Event.fires 20 ∷ Event.closes 20 ∷ []) ++ Event.closes 10 ∷ []))
        asleep
      ≡ some l')
    × IsConsistent l'
    × IsWoken 7 l'
sleeper_wakes_example =
    sleeper_wakes "EINVAL" malloc fresh 10 asleep asleep-IsConsistent
      (Event.sleeps 8 false (pos 0) ∷ []) [] (tt, tt) tt (Event.fires 20 ∷ Event.closes 20 ∷ [])
      (tt, (tt, tt)) refl

abbrev addresses : List AddrInfo
addresses =
    record {
      ai_family = pos 2;
      ai_socktype = pos 1;
      ai_protocol = pos 6;
      ai_addr = record { sa_family = af_inet; sin_port = 80; sin_addr = 127 ∷ 0 ∷ 0 ∷ 1 ∷ [] };
    }
    ∷ []

abbrev asking : Loop
asking = begun 10 7 Phase.resolving start

asking-IsConsistent : IsConsistent asking
asking-IsConsistent p h = ground arith

look_up_wakes_example :
    (l' : Loop) × (play "EINVAL" malloc
        ((Event.sleeps 8 true (pos 0) ∷ [])
          ++ Event.answers 10 (Answer.found addresses) ∷ Event.fires 10 ∷ [])
        asking
      ≡ some l')
    × IsConsistent l'
    × IsWoken 7 l'
look_up_wakes_example =
    look_up_wakes "EINVAL" malloc fresh 10 asking asking-IsConsistent
      (Event.sleeps 8 true (pos 0) ∷ []) (Event.fires 10 ∷ []) (tt, tt) (tt, tt)
      (Answer.found addresses) refl refl

sleep_restores_example :
    (couv_sleep "EINVAL" 10 7 false (pos 0) >> (sleep_cb 10 >> on_closes Phase.closing 10)) start
    ≡ ok tt (record start { owner = at start.owner 10 7; resumed = (7, []) ∷ [] })
sleep_restores_example =
    sleep_restores "EINVAL" 10 7 start (λ e. ground arith) refl refl refl (pos 0) refl

abbrev hints_arg : HintsArg
hints_arg = HintsArg.fields (some (pos 2)) none none none

abbrev hints : AddrHints
hints = record { ai_family = 2; ai_socktype = pos 0; ai_protocol = pos 0; ai_flags = pos 0 }

hints_read : checkaddrinfohints 3 hints_arg start ≡ ok (some hints) start
unfolding checkaddrinfohints tosockfamily
hints_read = refl

look_up_answers_example :
    ((couv_getaddrinfo "EINVAL" 10 (some "localhost") none hints_arg 7 false (λ n s h. pos 0)
          >> on_answers Phase.resolving 10 (Answer.found addresses))
        start
      ≡ ok tt (record (registered 10 7 start) {
        resumed = (7, results_of (Answer.found addresses)) ∷ [];
      }))
    × ((registered 10 7 start).registry (thread_key 10) ≡ some Value.thread)
look_up_answers_example =
    look_up_answers "EINVAL" 10 7 start (λ e. ground arith) refl refl refl (some "localhost") none
      hints_arg (some hints) refl hints_read (λ n s h. pos 0) (Answer.found addresses) refl refl

-- Coroutine 8 sleeps at 10 and wakes; coroutine 9 looks a name up at 20 and fails.
nothing_leaks_example :
    (l' : Loop) × (play "EINVAL" malloc
        (Event.sleeps 8 false (pos 0)
          ∷ Event.looks_up 9 false (some "localhost") none HintsArg.nil (pos 0)
          ∷ Event.fires 10
          ∷ Event.answers 20 (Answer.failed "ENOENT")
          ∷ Event.closes 10
          ∷ [])
        start
      ≡ some l')
    × (l'.lists ≡ 0)
    × ((p : ℕ) → l'.memory p ≡ (false || not (is_idle (l'.phase p))))
nothing_leaks_example =
    nothing_leaks "EINVAL" malloc fresh
      (Event.sleeps 8 false (pos 0)
        ∷ Event.looks_up 9 false (some "localhost") none HintsArg.nil (pos 0)
        ∷ Event.fires 10
        ∷ Event.answers 20 (Answer.failed "ENOENT")
        ∷ Event.closes 10
        ∷ [])
      start (tt, (tt, (tt, (refl, (tt, tt))))) (refl, tt) λ p. refl
