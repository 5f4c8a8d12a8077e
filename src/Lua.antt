-- ===== src/Lua.antt =====
-- What a C function called from Lua does: it returns, raises a Lua error, or faults.
-- The Lua C API is not part of this library. The conversions of `luaL_checkint` and its kin are
-- made by Lua, so a model takes the converted arguments, an optional one as an `Option`.
use couv.Prelude.Int.{ℤ}
use couv.Prelude.{ℕ, Bool, true, false, Option, none, some, String}

-- `luaL_argerror(L, arg, msg)`, the same with the argument -1, `luaL_error(L, msg)`, and the error
-- of `couvL_checkudataclass` with the number of the class.
pub data Error : Type 0 where
  arg_error : ℕ → String → Error
  top_error : String → Error
  lua_error : String → Error
  class_error : (arg : ℤ) → (tname : ℕ) → Error

-- A raised error keeps what was written before. A fault is undefined behaviour of C: an access
-- outside a block of memory, or of one that is freed, or an overflow of the `int` that counts the
-- users of a block.
pub data Run (S A : Type 0) : Type 0 where
  ok : A → S → Run S A
  raised : Error → S → Run S A
  fault : Run S A

abbrev pub Call : Type 0 → Type 0 → Type 0
Call S A = S → Run S A

module _ {S A : Type 0} where
  abbrev pub pure : A → Call S A
  pure = ok

  abbrev pub raise : Error → Call S A
  raise = raised

module _ {S A B : Type 0} where
  abbrev pub and_then : Run S A → (A → Call S B) → Run S B
  and_then (ok a s) k = k a s
  and_then (raised e s) k = raised e s
  and_then fault k = fault

  infixl 5 ◌>>=◌ ◌>>◌
  abbrev pub ◌>>=◌ : Call S A → (A → Call S B) → Call S B
  m >>= k = λ s. and_then (m s) k

  abbrev pub ◌>>◌ : Call S A → Call S B → Call S B
  m >> n = m >>= λ _. n

-- `luaL_argcheck(L, cond, arg, msg)`.
abbrev pub argcheck : {S : Type 0} → Bool → ℕ → String → Call S (Unit {0})
argcheck true arg msg = ok tt
argcheck false arg msg = raised (arg_error arg msg)

-- `luaL_optint(L, arg, default)`.
abbrev pub opt {ℓ} : {A : Type ℓ} → Option A → A → A
opt none d = d
opt (some a) d = a

-- A value, or an error where there is none.
abbrev pub or_error : {S A : Type 0} → Error → Option A → Call S A
or_error e none = raised e
or_error e (some a) = ok a
