-- ===== src/Native/Hints.antt =====
-- The hints of a look-up: `couvL_checkaddrinfohints` of src/couv.c.
use couv.Prelude.{
  ℕ, ◌≡◌, ◌⊎◌, inl, inr, refl, Bool, true, false, not, Option, none, arith, Option-cases,
}
use couv.Lua.{ok, raised, Error, arg_error}
use couv.SockAddr.{tosockfamily}
use couv.Native.{HintsArg, AddrHints, given, is_some, checkaddrinfohints}

-- It returns hints or raises an error, and changes nothing.
pub checkaddrinfohints-same :
    {S : Type 0} (s : S) (index : ℕ) (h : HintsArg)
    → ((hints : Option AddrHints) × (checkaddrinfohints index h s ≡ ok hints s))
      ⊎ ((e : Error) × (checkaddrinfohints index h s ≡ raised e s))
unfolding checkaddrinfohints
checkaddrinfohints-same s index (HintsArg.fields f t p g) = elim (Option-cases (tosockfamily f)) [
  | inl e ↦
      inr (
        arg_error index "value at \"family\" key must be AF_UNSPEC, AF_INET or AF_INET6",
        rw e refl,
      )
  | inr (family, e) ↦ inl (given f t p g family, rw e refl)
]
checkaddrinfohints-same s index HintsArg.nil = inl (none, refl)
checkaddrinfohints-same s index HintsArg.other = inr (_, refl)

-- Hints that are no table and not nil, or whose family is none of the three.
abbrev pub is_bad : HintsArg → Bool
is_bad (HintsArg.fields family? socktype? protocol? flags?) = not (is_some (tosockfamily family?))
is_bad HintsArg.nil = false
is_bad HintsArg.other = true

pub is_bad-raised :
    {S : Type 0} (s : S) (index : ℕ) (h : HintsArg)
    → is_bad h ≡ true
    → (e : Error) × (checkaddrinfohints index h s ≡ raised e s)
unfolding checkaddrinfohints
is_bad-raised s index (HintsArg.fields f t p g) b = elim (Option-cases (tosockfamily f)) [
  | inl e ↦
      (arg_error index "value at \"family\" key must be AF_UNSPEC, AF_INET or AF_INET6", rw e refl)
  | inr (family, e) ↦ absurd (ground arith)
]
is_bad-raised s index HintsArg.nil b = absurd (cc)
is_bad-raised s index HintsArg.other b = (arg_error index "must be table or nil", refl)
