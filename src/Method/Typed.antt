-- ===== src/Method/Typed.antt =====
-- Libuv is called with handles of the classes that its functions take, and no others.
use couv.Prelude.{
  ℕ, ◌≡◌, ◌⊎◌, inl, inr, refl, Bool, true, false, Option, some, List, [], ◌∷◌, String, Bool-cases,
}
use couv.Prelude.Int.{ℤ, pos, ltb_ℤ}
use couv.Lua.{Call, Run, ok, raised, fault, and_then, class_error}
use couv.Class.{Tables, testudataclass}
use couv.Class.Open.{ClassName, name_number, object_at}
use couv.Class.Hierarchy.{is_a, opened, classes_nest}
use couv.Method.{UvCall, State, Arg, checkudataclass, check}

-- Userdata that is of a class, or of one below it.
abbrev pub is_of : (ℕ → Option ClassName) → Arg → ClassName → Bool
is_of classes (Arg.userdata k) c = is_a (classes k) c
is_of classes Arg.other c = false

not_userdata :
    (fuel : ℕ) (s : Tables) (object tname : ℕ)
    → testudataclass fuel s false object tname ≡ some false
unfolding testudataclass
not_userdata fuel s object tname = refl

module _ (classes : ℕ → Option ClassName) where
  pub check-of :
      {S : Type 0} (i : ℤ) (a : Arg) (c : ClassName) (s : S)
      → ((k : ℕ) × (is_a (classes k) c ≡ true)
          × (is_of classes a c ≡ true)
          × (checkudataclass classes i a c s ≡ ok k s))
        ⊎ ((is_of classes a c ≡ false)
            × (checkudataclass classes i a c s ≡ raised (class_error i (name_number c)) s))
  unfolding checkudataclass
  check-of i Arg.other c s =
      inr (refl, rw (not_userdata 5 (opened classes) (object_at 0) (name_number c)) refl)
  check-of i (Arg.userdata k) c s = elim (Bool-cases (is_a (classes k) c)) [
    | inl e ↦ inl (k, e, e, rw (classes_nest classes k c, e) refl)
    | inr e ↦ inr (e, rw (classes_nest classes k c, e) refl)
  ]

  -- The handles of a call are of the classes that libuv's function takes.
  abbrev pub IsTyped : UvCall → Type 0
  IsTyped (UvCall.uv_close h) = is_a (classes h) ClassName.handle ≡ true
  IsTyped (UvCall.uv_is_active h) = is_a (classes h) ClassName.handle ≡ true
  IsTyped (UvCall.uv_is_closing h) = is_a (classes h) ClassName.handle ≡ true
  IsTyped (UvCall.uv_ref h) = is_a (classes h) ClassName.handle ≡ true
  IsTyped (UvCall.uv_unref h) = is_a (classes h) ClassName.handle ≡ true
  IsTyped (UvCall.uv_guess_handle f) = Unit {0}
  IsTyped (UvCall.uv_accept h g) =
      (is_a (classes h) ClassName.stream ≡ true) × (is_a (classes g) ClassName.stream ≡ true)
  IsTyped (UvCall.uv_is_readable h) = is_a (classes h) ClassName.stream ≡ true
  IsTyped (UvCall.uv_is_writable h) = is_a (classes h) ClassName.stream ≡ true
  IsTyped (UvCall.uv_read_start h) = is_a (classes h) ClassName.stream ≡ true
  IsTyped (UvCall.uv_read_stop h) = is_a (classes h) ClassName.stream ≡ true
  IsTyped (UvCall.uv_read2_start h) = is_a (classes h) ClassName.stream ≡ true
  IsTyped (UvCall.uv_tcp_open h x) = is_a (classes h) ClassName.tcp ≡ true
  IsTyped (UvCall.uv_tcp_nodelay h x) = is_a (classes h) ClassName.tcp ≡ true
  IsTyped (UvCall.uv_tcp_keepalive h x y) = is_a (classes h) ClassName.tcp ≡ true
  IsTyped (UvCall.uv_tcp_simultaneous_accepts h x) = is_a (classes h) ClassName.tcp ≡ true
  IsTyped (UvCall.uv_tcp_getsockname h) = is_a (classes h) ClassName.tcp ≡ true
  IsTyped (UvCall.uv_tcp_getpeername h) = is_a (classes h) ClassName.tcp ≡ true
  IsTyped (UvCall.uv_udp_open h x) = is_a (classes h) ClassName.udp ≡ true
  IsTyped (UvCall.uv_udp_recv_start h) = is_a (classes h) ClassName.udp ≡ true
  IsTyped (UvCall.uv_udp_recv_stop h) = is_a (classes h) ClassName.udp ≡ true
  IsTyped (UvCall.uv_udp_getsockname h) = is_a (classes h) ClassName.udp ≡ true
  IsTyped (UvCall.uv_udp_set_multicast_loop h x) = is_a (classes h) ClassName.udp ≡ true
  IsTyped (UvCall.uv_udp_set_broadcast h x) = is_a (classes h) ClassName.udp ≡ true
  IsTyped (UvCall.uv_udp_set_multicast_ttl h x) = is_a (classes h) ClassName.udp ≡ true
  IsTyped (UvCall.uv_udp_set_ttl h x) = is_a (classes h) ClassName.udp ≡ true
  IsTyped (UvCall.uv_pipe_bind h x) = is_a (classes h) ClassName.pipe ≡ true
  IsTyped (UvCall.uv_pipe_open h x) = is_a (classes h) ClassName.pipe ≡ true
  IsTyped (UvCall.uv_tty_set_mode h x) = is_a (classes h) ClassName.tty ≡ true
  IsTyped UvCall.uv_tty_reset_mode = Unit {0}
  IsTyped (UvCall.uv_tty_get_winsize h) = is_a (classes h) ClassName.tty ≡ true
  IsTyped (UvCall.uv_timer_stop h) = is_a (classes h) ClassName.timer ≡ true
  IsTyped (UvCall.uv_timer_again h) = is_a (classes h) ClassName.timer ≡ true
  IsTyped (UvCall.uv_timer_get_repeat h) = is_a (classes h) ClassName.timer ≡ true
  IsTyped (UvCall.uv_timer_set_repeat h x) = is_a (classes h) ClassName.timer ≡ true
  IsTyped (UvCall.uv_process_kill h x) = is_a (classes h) ClassName.process ≡ true

  abbrev pub AllTyped : List UvCall → Type 0
  AllTyped [] = Unit {0}
  AllTyped (c ∷ cs) = IsTyped c × AllTyped cs

  -- A method ends, and only typed calls have been made.
  abbrev pub Keeps : {A : Type 0} → Run State A → Type 0
  Keeps (ok a s) = AllTyped s.calls
  Keeps (raised e s) = AllTyped s.calls
  Keeps fault = ⊥

  module _ (s : State) (typed : AllTyped s.calls) where
    pub checked-Keeps :
        {A : Type 0} (i : ℤ) (a : Arg) (c : ClassName) (K : ℕ → Call State A)
        → ((k : ℕ) → is_a (classes k) c ≡ true → Keeps (K k s))
        → Keeps (and_then (checkudataclass classes i a c s) K)
    checked-Keeps i a c K h = elim (check-of i a c s) [
      | inl (k, e, _, r) ↦ rw r (h k e)
      | inr (e, r) ↦ rw r typed
    ]

    pub check-Keeps :
        {A : Type 0} (errname : String) (r : ℤ) (K : Call State A)
        → Keeps (K s)
        → Keeps (and_then (check errname r s) (λ _. K))
    check-Keeps errname r K h = elim (Bool-cases (ltb_ℤ r (pos 0))) [
      | inl e ↦ rw e typed
      | inr e ↦ rw e h
    ]
