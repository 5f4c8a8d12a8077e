-- ===== src/Method/Shapes.antt =====
-- The shapes that most methods have, and that each keeps the calls typed.
use couv.Prelude.{ℕ, ◌≡◌, inl, inr, true, Option, [], ◌∷◌, String, Bool-cases}
use couv.Prelude.Int.{ℤ, pos}
use couv.Lua.{Call, ok, ◌>>=◌, ◌>>◌}
use couv.Class.Open.{ClassName}
use couv.Class.Hierarchy.{is_a}
use couv.SockAddr.{SockAddr, is_ip, pushsockaddr}
use couv.Method.{UvCall, State, Arg, Reply, Value, checkudataclass, tell, check, nothing}
use couv.Method.Typed.{IsTyped, AllTyped, Keeps, checked-Keeps, check-Keeps}

module _ (classes : ℕ → Option ClassName) (uv : UvCall → ℤ) (errname : String) where
  -- The shape of most methods: check the class, call libuv, check its answer.
  abbrev pub plain : ClassName → (ℕ → UvCall) → Arg → Call State Reply
  plain c call a = do
    h ← checkudataclass classes (pos 1) a c
    r ← tell uv (call h)
    check errname r
    nothing

  -- Check the class, call libuv, return something.
  abbrev pub telling : ClassName → (ℕ → UvCall) → (ℕ → Reply) → Arg → Call State Reply
  telling c call reply a = do
    h ← checkudataclass classes (pos 1) a c
    r ← tell uv (call h)
    ok (reply h)

  -- Check the class, call libuv, check its answer, return the address that it wrote.
  abbrev pub naming : ClassName → (ℕ → UvCall) → (ℕ → SockAddr) → Arg → Call State Reply
  naming c call name a = do
    h ← checkudataclass classes (pos 1) a c
    r ← tell uv (call h)
    check errname r
    addr ← pushsockaddr (name h)
    ok (Reply.returns (Value.address addr ∷ []))

  module _ (s : State) (typed : AllTyped classes s.calls) where
    pub plain-Keeps :
        (c : ClassName) (call : ℕ → UvCall) (a : Arg)
        → ((k : ℕ) → is_a (classes k) c ≡ true → IsTyped classes (call k))
        → Keeps classes (plain c call a s)
    plain-Keeps c call a t = checked-Keeps classes s typed (pos 1) a c _ λ k e.
        check-Keeps classes (record s { calls = call k ∷ s.calls }) (t k e, typed) errname
          (uv (call k)) nothing (t k e, typed)

    pub telling-Keeps :
        (c : ClassName) (call : ℕ → UvCall) (reply : ℕ → Reply) (a : Arg)
        → ((k : ℕ) → is_a (classes k) c ≡ true → IsTyped classes (call k))
        → Keeps classes (telling c call reply a s)
    telling-Keeps c call reply a t =
        checked-Keeps classes s typed (pos 1) a c _ λ k e. (t k e, typed)

    pub named-Keeps :
        (c : ClassName) (call : ℕ → UvCall) (name : ℕ → SockAddr) (a : Arg)
        → ((k : ℕ) → is_a (classes k) c ≡ true → IsTyped classes (call k))
        → Keeps classes (naming c call name a s)
    unfolding pushsockaddr
    named-Keeps c call name a t = checked-Keeps classes s typed (pos 1) a c _ λ k e.
        check-Keeps classes (record s { calls = call k ∷ s.calls }) (t k e, typed) errname
          (uv (call k)) _
          (elim (Bool-cases (is_ip (name k))) [
            | inl f ↦ rw f (t k e, typed)
            | inr f ↦ rw f (t k e, typed)
          ])
