-- ===== src/Fs/Parts.antt =====
-- The part of a buffer that `fs_read` and `fs_write` of src/fs.c give to libuv.
use couv.Prelude.{
  ℕ, ◌+◌, ◌-◌, ◌==◌, ◌≤◌, ◌≡◌, ◌∙◌, refl, none, [], inl, inr, true, Option, some, List, ◌∷◌, String,
  arith, Bool-cases,
}
use couv.Prelude.Int.{ℤ, pos, negsuc, pos_part, ltb_ℤ, ◌+ℤ◌, ◌-ℤ◌}
use couv.Prelude.CInt.{int_max, to_int, to_size, int_of_size}
use couv.Lua.{◌>>=◌, Run, ok, raised, fault, opt}
use couv.Buffer.Access.{Buffer, in_range}
use couv.Fs.{
  Uv, Value, Store, Env, mark, common_values, fs_error, push_common_results, alloc_req,
  after_async_call, make,
}
use couv.Fs.Calls.{checkpart, fs_read, fs_write}

-- The `n` bytes from `first` on are those that a position and a length ask for, the first byte and
-- the rest of the buffer where these are left out, and lie in the buffer.
pub record IsPart (base len : ℕ) (buf_pos? length? : Option ℤ) (first n : ℕ) : Type 0 where
  pub starts : first + 1 ≡ base + pos_part (opt buf_pos? (pos 1))
  pub sized : n ≡ pos_part (opt length? (pos (len + 1 - pos_part (opt buf_pos? (pos 1)))))
  pub not_before : base ≤ first
  pub not_beyond : first + n ≤ base + len

-- A run that asks libuv once, for `n` bytes from `first` on, or raises an error and asks nothing.
abbrev pub AsksPart :
    (ℕ → ℕ → Uv)
    → (base len : ℕ) → (buf_pos? length? : Option ℤ) → Store
    → Run Store (Option (List Value))
    → Type 0
AsksPart u base len buf_pos? length? s (ok vs t) =
    (first : ℕ) × (n : ℕ) × (t.asked ≡ u first n ∷ s.asked)
    × IsPart base len buf_pos? length? first n
AsksPart u base len buf_pos? length? s (raised e t) = t.asked ≡ s.asked
AsksPart u base len buf_pos? length? s fault = ⊥

abbrev Asks : Uv → Store → Run Store (Option (List Value)) → Type 0
Asks u s (ok vs t) = t.asked ≡ u ∷ s.asked
Asks u s (raised e t) = t.asked ≡ s.asked
Asks u s fault = ⊥

module _ (errname : ℕ → String) (env : Env) (s : Store) where
  request-Asks :
      (u : Uv) (vs : List Value)
      → common_values u env.result env.ptr ≡ some vs
      → Asks u s (make env u (push_common_results errname) (fs_error errname) s)
  unfolding make alloc_req after_async_call push_common_results fs_error
  request-Asks u vs h = elim (Bool-cases env.is_mainthread) [
    | inl m ↦ elim (Bool-cases (ltb_ℤ env.result (pos 0))) [
      | inl r ↦ rw (m, r, Asks) refl
      | inr r ↦ rw (m, r, h, Asks) refl
    ]
    | inr m ↦ elim (Bool-cases (env.address == 0)) [
      | inl z ↦ rw (m, z, Asks) refl
      | inr z ↦ elim (Bool-cases (ltb_ℤ env.ret (pos 0))) [
        | inl r ↦ rw (m, z, r, allocated, Asks) refl
        | inr r ↦ rw (m, z, r, Asks) refl
      ]
    ]
  ]
    where
      allocated : mark s.allocated env.address true env.address ≡ true
      allocated = ground arith

in_numbers :
    (len : ℕ) (p l : ℤ)
    → len ≤ int_max
    → in_range p (pos 1) (int_of_size len) ≡ true
    → in_range l (pos 0) (int_of_size len -ℤ p +ℤ pos 1) ≡ true
    → (pos_part (p -ℤ pos 1) + 1 ≡ pos_part p)
      × (pos_part (p -ℤ pos 1) + to_size l ≤ len)
      × (to_size l ≡ pos_part l)
unfolding ◌+ℤ◌ ◌-ℤ◌
in_numbers len (negsuc p) l s f g = ground arith
in_numbers len (pos p) (negsuc l) s f g = ground arith
in_numbers len (pos p) (pos l) s f g = ground arith

rest_length :
    (len : ℕ) (p : ℤ)
    → len ≤ int_max
    → in_range p (pos 1) (int_of_size len) ≡ true
    → pos_part (to_int (pos len -ℤ p +ℤ pos 1)) ≡ len + 1 - pos_part p
unfolding ◌+ℤ◌ ◌-ℤ◌
rest_length len (negsuc p) s f = ground arith
rest_length len (pos p) s f = ground arith

length_lem :
    (len : ℕ) (p : ℤ) (length? : Option ℤ)
    → len ≤ int_max
    → in_range p (pos 1) (int_of_size len) ≡ true
    → pos_part (opt length? (to_int (pos len -ℤ p +ℤ pos 1)))
      ≡ pos_part (opt length? (pos (len + 1 - pos_part p)))
length_lem len p none s f = rest_length len p s f
length_lem len p (some l) s f = refl

in_range-IsPart :
    (base len : ℕ) (buf_pos? length? : Option ℤ)
    → len ≤ int_max
    → in_range (opt buf_pos? (pos 1)) (pos 1) (int_of_size len) ≡ true
    → in_range
        (opt length? (to_int (pos len -ℤ opt buf_pos? (pos 1) +ℤ pos 1)))
        (pos 0)
        (int_of_size len -ℤ opt buf_pos? (pos 1) +ℤ pos 1)
      ≡ true
    → IsPart base len buf_pos? length?
        (base + pos_part (opt buf_pos? (pos 1) -ℤ pos 1))
        (to_size (opt length? (to_int (pos len -ℤ opt buf_pos? (pos 1) +ℤ pos 1))))
in_range-IsPart base len buf_pos? length? small f g =
    let p = opt buf_pos? (pos 1) in
    let l = opt length? (to_int (pos len -ℤ p +ℤ pos 1)) in
    let (starts, inside, size) = in_numbers len p l small f g in
    record {
      starts = omega arith;
      sized = size ∙ length_lem len p length? small f;
      not_before = omega arith;
      not_beyond = omega arith;
    }

module _ (errname : ℕ → String) (env : Env) (s : Store) (base len : ℕ) (buf_pos? length? : Option ℤ)
    (small : len ≤ int_max) where
  -- The checks, and a call of libuv whose answer is a number.
  checked-AsksPart :
      (u : ℕ → ℕ → Uv)
      → ((first n : ℕ)
          → common_values (u first n) env.result env.ptr ≡ some (Value.number env.result ∷ []))
      → AsksPart u base len buf_pos? length? s (
          (checkpart len buf_pos? length? >>= λ part.
          make env (u (base + part.0) part.1) (push_common_results errname) (fs_error errname))
            s)
  unfolding checkpart
  checked-AsksPart u h =
      let p = opt buf_pos? (pos 1) in
      let l = opt length? (to_int (pos len -ℤ p +ℤ pos 1)) in
      elim (Bool-cases (in_range p (pos 1) (int_of_size len))) [
        | inr f ↦ rw (f, AsksPart) refl
        | inl f ↦ elim (Bool-cases (in_range l (pos 0) (int_of_size len -ℤ p +ℤ pos 1))) [
          | inr g ↦ rw (f, g, AsksPart) refl
          | inl g ↦
              let first : ℕ = base + pos_part (p -ℤ pos 1) in
              rw (f, g)
                (with_part u first (to_size l)
                  (make env (u first (to_size l)) (push_common_results errname) (fs_error errname)
                    s)
                  (in_range-IsPart base len buf_pos? length? small f g)
                  (request-Asks errname env s (u first (to_size l)) _ (h first (to_size l))))
        ]
      ]
    where
      with_part :
          (u : ℕ → ℕ → Uv) (first n : ℕ) (r : Run Store (Option (List Value)))
          → IsPart base len buf_pos? length? first n
          → Asks (u first n) s r
          → AsksPart u base len buf_pos? length? s r
      with_part u first n (ok vs t) part a = (first, n, a, part)
      with_part u first n (raised e t) part a = a
      with_part u first n fault part a = a

module _ (errname : ℕ → String) (env : Env) (s : Store) (fd : ℤ)
    (buf_pos? length? file_offset? : Option ℤ) where
  abbrev offset : ℤ
  offset = opt file_offset? (negsuc 0)

  -- For a buffer or a string whose length is an `int`, whatever position and length are given or
  -- left out, and whatever libuv answers: `fs_read` and `fs_write` do not fault, and they raise an
  -- error and ask nothing of libuv, or ask it once, with exactly the part of the bytes that the
  -- position and the length stand for, which lies in the buffer.
  pub parts_lie_within :
      (buf : Buffer) (base len : ℕ)
      → buf.len ≤ int_max
      → len ≤ int_max
      → AsksPart
          (λ first n. Uv.read fd first n offset)
          buf.base
          buf.len
          buf_pos?
          length?
          s
          (fs_read errname env fd buf buf_pos? length? file_offset? s)
        × AsksPart
            (λ first n. Uv.write fd first n offset)
            base
            len
            buf_pos?
            length?
            s
            (fs_write errname env fd base len buf_pos? length? file_offset? s)
  unfolding fs_read fs_write common_values
  parts_lie_within buf base len small small' = (
    checked-AsksPart errname env s buf.base buf.len buf_pos? length? small
        (λ first n. Uv.read fd first n offset) (λ first n. refl),
    checked-AsksPart errname env s base len buf_pos? length? small'
        (λ first n. Uv.write fd first n offset) (λ first n. refl),
  )
