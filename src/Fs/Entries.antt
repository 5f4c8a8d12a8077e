-- ===== src/Fs/Entries.antt =====
-- The names of a directory, which `fs_readdir` of src/fs.c takes out of the text that libuv makes of
-- them.
use couv.Prelude.{ℕ, zero, suc, ◌<◌, ◌≡◌, refl, some, List, [], ◌∷◌, ◌++◌, length, arith}
use couv.Fs.{to_nul, readdir_results}

-- A name has no NUL in it.
abbrev pub IsName : List ℕ → Type 0
IsName [] = Unit {0}
IsName (x ∷ xs) = (0 < x) × IsName xs

abbrev pub AllNames : List (List ℕ) → Type 0
AllNames [] = Unit {0}
AllNames (n ∷ ns) = IsName n × AllNames ns

-- Each name with a NUL behind it.
abbrev pub joined : List (List ℕ) → List ℕ
joined [] = []
joined (n ∷ ns) = n ++ 0 ∷ joined ns

to_nul-append : (n rest : List ℕ) → IsName n → to_nul (n ++ 0 ∷ rest) ≡ some (n, rest)
to_nul-append [] rest h = refl
to_nul-append (zero ∷ n) rest h = absurd (omega arith)
to_nul-append (suc x ∷ n) rest h = rw (to_nul-append n rest h.1)

-- The text of any list of names without NULs, each closed by one, is read as those names.
pub readdir_round_trip :
    (names : List (List ℕ))
    → AllNames names
    → readdir_results (length names) (joined names) ≡ some names
unfolding readdir_results
readdir_round_trip [] h = refl
readdir_round_trip (n ∷ ns) h = rw (to_nul-append n (joined ns) h.0, readdir_round_trip ns h.1)
