-- ===== src/Native/Play.antt =====
-- What happens in the loop: events one after another, in which the functions of src/couv.c and
-- their callbacks run.
use couv.Prelude.{ℕ, ◌+◌, Bool, Option, none, some, List, [], ◌∷◌, String}
use couv.Prelude.Int.{ℤ}
use couv.Lua.{Call, Run, ok, raised, fault, ◌>>◌}
use couv.Request.{Memory}
use couv.Native.{
  Answer, HintsArg, Loop, Phase, couv_getaddrinfo, couv_sleep, getaddrinfo_cb, sleep_cb,
  sleep_close_cb, uv_end,
}

-- What happens: a coroutine sleeps or looks a name up, its timer fires, its handle is closed, or
-- the look-up is answered. Libuv calls back only about what is under way.
pub data Event : Type 0 where
  sleeps : (co : ℕ) → (is_mainthread : Bool) → (r : ℤ) → Event
  looks_up :
      (co : ℕ)
      → (is_mainthread : Bool) → (node service : Option String) → HintsArg
      → (r : ℤ) → Event
  fires : (p : ℕ) → Event
  closes : (p : ℕ) → Event
  answers : (p : ℕ) → Answer → Event

-- Libuv has made a list that the callback frees.
abbrev pub listed : Answer → Loop → Loop
listed (Answer.found res) l = record l { lists = l.lists + 1 }
listed (Answer.failed errname) l = l

abbrev pub on_fires : Phase → ℕ → Call Loop (Unit {0})
on_fires Phase.armed p = sleep_cb p
on_fires Phase.idle p = ok tt
on_fires Phase.closing p = ok tt
on_fires Phase.resolving p = ok tt

abbrev pub on_closes : Phase → ℕ → Call Loop (Unit {0})
on_closes Phase.closing p = do uv_end p; sleep_close_cb p
on_closes Phase.idle p = ok tt
on_closes Phase.armed p = ok tt
on_closes Phase.resolving p = ok tt

abbrev pub on_answers : Phase → ℕ → Answer → Call Loop (Unit {0})
on_answers Phase.resolving p a = do uv_end p; λ l. getaddrinfo_cb p a (listed a l)
on_answers Phase.idle p a = ok tt
on_answers Phase.armed p a = ok tt
on_answers Phase.closing p a = ok tt

module _ (errname : String) (malloc : Memory → ℕ) where
  unfoldable pub handle : Event → Call Loop (Unit {0})
  handle (Event.sleeps co m r) l = couv_sleep errname (malloc l.memory) co m r l
  handle (Event.looks_up co m node service hints r) l =
      couv_getaddrinfo errname (malloc l.memory) node service hints co m (λ _ _ _. r) l
  handle (Event.fires p) l = on_fires (l.phase p) p l
  handle (Event.closes p) l = on_closes (l.phase p) p l
  handle (Event.answers p a) l = on_answers (l.phase p) p a l

  -- An error ends the call that raised it; `none` is a fault.
  abbrev pub after : Run Loop (Unit {0}) → (Loop → Option Loop) → Option Loop
  after (ok u l) k = k l
  after (raised e l) k = k l
  after fault k = none

  unfoldable pub play : List Event → Loop → Option Loop
  play [] l = some l
  play (e ∷ es) l = after (handle e l) (play es)
