-- ===== src/Fs/Stat/Permission.antt =====
-- The permission of a stat is read back as the mode that it is.
use couv.Prelude.{
  ℕ, zero, suc, ◌+◌, ◌-◌, ◌*◌, ◌/◌, ◌%◌, ◌^◌, ◌≤◌, ◌<◌, ◌==◌, ◌≡◌, refl, ap, ◌∙◌, inl, inr, true,
  false, some, List, [], ◌∷◌, ◌++◌, length, length-append, arith, Bool-cases,
}
use native.Mathlib.Nat.{pow-suc}
use couv.Prelude.Int.{pos}
use couv.Prelude.CInt.{to_int}
use couv.Lua.{ok}
use couv.Fs.Calls.{Mode, fs_checkmode}
use couv.Fs.Stat.{
  Stat, octal, octal_value, is_octal, saturated, strtoul, permission_bits, fs_stat_permission,
}

abbrev AllOctal : List ℕ → Type 0
AllOctal [] = Unit {0}
AllOctal (c ∷ cs) = (is_octal c ≡ true) × AllOctal cs

AllOctal-append : (xs : List ℕ) (d : ℕ) → AllOctal xs → is_octal d ≡ true → AllOctal (xs ++ d ∷ [])
AllOctal-append [] d h k = (k, tt)
AllOctal-append (x ∷ xs) d h k = (h.0, AllOctal-append xs d h.1 k)

digit-octal : (n : ℕ) → is_octal (48 + n % 8) ≡ true
digit-octal n = ground arith

octal-AllOctal : (digits n : ℕ) → AllOctal (octal digits n)
unfolding octal
octal-AllOctal zero n = tt
octal-AllOctal (suc digits) n = elim (Bool-cases (n / 8 == 0)) [
  | inl e ↦ rw e (digit-octal n, tt)
  | inr e ↦ rw e (
      AllOctal-append (octal digits (n / 8)) (48 + n % 8) (octal-AllOctal digits (n / 8))
        (digit-octal n))
]

octal_value-append :
    (acc : ℕ) (xs : List ℕ) (d : ℕ)
    → AllOctal xs
    → is_octal d ≡ true
    → octal_value acc (xs ++ d ∷ []) ≡ octal_value acc xs * 8 + (d - 48)
unfolding octal_value
octal_value-append acc [] d h k = rw k refl
octal_value-append acc (x ∷ xs) d h k = rw h.0 (octal_value-append (acc * 8 + (x - 48)) xs d h.1 k)

octal_value-nil : (acc : ℕ) → octal_value acc [] ≡ acc
unfolding octal_value
octal_value-nil acc = refl

one_digit : (n : ℕ) → n < 8 → octal_value 0 ((48 + n % 8) ∷ []) ≡ n
unfolding octal_value
one_digit n h = rw (digit-octal n) (omega arith)

octal_value-octal : (digits n : ℕ) → n < 8 ^ digits → octal_value 0 (octal digits n) ≡ n
unfolding octal
octal_value-octal zero n h = omega (arith, octal_value-nil 0)
octal_value-octal (suc digits) n h = elim (Bool-cases (n / 8 == 0)) [
  | inl e ↦ rw e (one_digit n (ground arith))
  | inr e ↦ rw e (
      octal_value-append 0 (octal digits (n / 8)) (48 + n % 8) (octal-AllOctal digits (n / 8))
        (digit-octal n)
      ∙ ap (λ (v : ℕ). v * 8 + (48 + n % 8 - 48))
          (octal_value-octal digits (n / 8) (omega (arith, pow-suc 8 digits)))
      ∙ back n)
]
  where
    back : (n : ℕ) → n / 8 * 8 + (48 + n % 8 - 48) ≡ n
    back n = omega arith

length-octal : (digits n : ℕ) → length (octal digits n) ≤ digits
unfolding octal
length-octal zero n = omega arith
length-octal (suc digits) n = elim (Bool-cases (n / 8 == 0)) [
  | inl e ↦ rw e (omega arith)
  | inr e ↦ rw e (
      omega (
        arith,
        length-octal digits (n / 8),
        length-append (octal digits (n / 8)) ((48 + n % 8) ∷ []),
      ))
]

after_zero : (cs : List ℕ) → octal_value 0 (48 ∷ cs) ≡ octal_value 0 cs
unfolding octal_value
after_zero cs = refl

small : (v : ℕ) → v < 4096 → to_int (pos (saturated false v)) ≡ pos v
small v h = ground arith

-- The text of the permission of any stat, whose mode has 16 bits as Linux's modes have, fits the
-- buffer of 16 bytes with its NUL, and given as the mode of a chmod it is the mode without the bits
-- of the file's type.
pub permission_round_trip :
    {S : Type 0} (s : S) (stat : Stat) (index : ℕ)
    → stat.st_mode < 2 ^ 16
    → (text : List ℕ) × (fs_stat_permission (some stat) s ≡ ok text s)
      × (length text + 1 ≤ 16)
      × (fs_checkmode strtoul index (Mode.string text) s ≡ ok (pos (stat.st_mode % 4096)) s)
unfolding fs_stat_permission fs_checkmode strtoul
permission_round_trip s stat index h = (
  48 ∷ octal 11 (permission_bits stat.st_mode),
  refl,
  omega (arith, length-octal 11 (permission_bits stat.st_mode)),
  rw (read_back, small (stat.st_mode % 4096) (omega arith)) refl,
)
  where
    bits : permission_bits stat.st_mode ≡ stat.st_mode % 4096
    bits = omega arith

    read_back : octal_value 0 (48 ∷ octal 11 (permission_bits stat.st_mode)) ≡ stat.st_mode % 4096
    read_back = rw bits (
        after_zero (octal 11 (stat.st_mode % 4096))
        ∙ octal_value-octal 11 (stat.st_mode % 4096) (omega arith))
