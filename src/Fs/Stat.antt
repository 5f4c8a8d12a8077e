-- ===== src/Fs/Stat.antt =====
-- The methods of a stat, of src/fs.c, with `sprintf` and `strtoul` of octal numbers.
pub mod Permission
mod Tests
use couv.Prelude.{
  ℕ, zero, suc, ◌+◌, ◌-◌, ◌*◌, ◌/◌, ◌%◌, ◌^◌, ◌==◌, ◌&&◌, ◌||◌, Bool, true, false, Option, none,
  some, List, [], ◌∷◌, ◌++◌, ltb, leb, if◌then◌else◌,
}
use couv.Lua.{Call, pure, arg_error, or_error, ◌>>=◌}

-- `uv_statbuf_t`.
pub record Stat : Type 0 where
  pub st_dev : ℕ
  pub st_ino : ℕ
  pub st_mode : ℕ
  pub st_nlink : ℕ
  pub st_gid : ℕ
  pub st_uid : ℕ
  pub st_rdev : ℕ
  pub st_size : ℕ
  pub st_blksize : ℕ
  pub st_blocks : ℕ
  pub st_atime : ℕ
  pub st_mtime : ℕ
  pub st_ctime : ℕ

-- `couv_checkfsstat`: another value is `none`.
abbrev pub checkfsstat : {S : Type 0} → Option Stat → Call S Stat
checkfsstat = or_error (arg_error 1 "couv.fs.Stat expected")

-- `mode & S_IFMT`, in units of 4096, and `mode & ~S_IFMT`.
abbrev pub file_type : ℕ → ℕ
file_type mode = mode / 4096 % 16

abbrev pub permission_bits : ℕ → ℕ
permission_bits mode = mode / 65536 * 65536 + mode % 4096

-- `sprintf` of `%o`; a number of 32 bits has 11 digits at most.
unfoldable pub octal : (digits : ℕ) → ℕ → List ℕ
octal zero n = []
octal (suc digits) n =
    let more = octal digits (n / 8) in
    if n / 8 == 0 then (48 + n % 8) ∷ [] else more ++ (48 + n % 8) ∷ []

module _ {S : Type 0} where
  unfoldable pub fs_stat_dev : Option Stat → Call S ℕ
  fs_stat_dev a = do s ← checkfsstat a; pure s.st_dev

  unfoldable pub fs_stat_ino : Option Stat → Call S ℕ
  fs_stat_ino a = do s ← checkfsstat a; pure s.st_ino

  unfoldable pub fs_stat_mode : Option Stat → Call S ℕ
  fs_stat_mode a = do s ← checkfsstat a; pure s.st_mode

  unfoldable pub fs_stat_nlink : Option Stat → Call S ℕ
  fs_stat_nlink a = do s ← checkfsstat a; pure s.st_nlink

  unfoldable pub fs_stat_gid : Option Stat → Call S ℕ
  fs_stat_gid a = do s ← checkfsstat a; pure s.st_gid

  unfoldable pub fs_stat_uid : Option Stat → Call S ℕ
  fs_stat_uid a = do s ← checkfsstat a; pure s.st_uid

  unfoldable pub fs_stat_rdev : Option Stat → Call S ℕ
  fs_stat_rdev a = do s ← checkfsstat a; pure s.st_rdev

  unfoldable pub fs_stat_size : Option Stat → Call S ℕ
  fs_stat_size a = do s ← checkfsstat a; pure s.st_size

  unfoldable pub fs_stat_blksize : Option Stat → Call S ℕ
  fs_stat_blksize a = do s ← checkfsstat a; pure s.st_blksize

  unfoldable pub fs_stat_blocks : Option Stat → Call S ℕ
  fs_stat_blocks a = do s ← checkfsstat a; pure s.st_blocks

  unfoldable pub fs_stat_atime : Option Stat → Call S ℕ
  fs_stat_atime a = do s ← checkfsstat a; pure s.st_atime

  unfoldable pub fs_stat_mtime : Option Stat → Call S ℕ
  fs_stat_mtime a = do s ← checkfsstat a; pure s.st_mtime

  unfoldable pub fs_stat_ctime : Option Stat → Call S ℕ
  fs_stat_ctime a = do s ← checkfsstat a; pure s.st_ctime

  unfoldable pub fs_stat_is_file : Option Stat → Call S Bool
  fs_stat_is_file a = do s ← checkfsstat a; pure (file_type s.st_mode == 8)

  unfoldable pub fs_stat_is_directory : Option Stat → Call S Bool
  fs_stat_is_directory a = do s ← checkfsstat a; pure (file_type s.st_mode == 4)

  unfoldable pub fs_stat_is_character_device : Option Stat → Call S Bool
  fs_stat_is_character_device a = do s ← checkfsstat a; pure (file_type s.st_mode == 2)

  unfoldable pub fs_stat_is_block_device : Option Stat → Call S Bool
  fs_stat_is_block_device a = do s ← checkfsstat a; pure (file_type s.st_mode == 6)

  unfoldable pub fs_stat_is_fifo : Option Stat → Call S Bool
  fs_stat_is_fifo a = do s ← checkfsstat a; pure (file_type s.st_mode == 1)

  unfoldable pub fs_stat_is_symbolic_link : Option Stat → Call S Bool
  fs_stat_is_symbolic_link a = do s ← checkfsstat a; pure (file_type s.st_mode == 10)

  unfoldable pub fs_stat_is_socket : Option Stat → Call S Bool
  fs_stat_is_socket a = do s ← checkfsstat a; pure (file_type s.st_mode == 12)

  -- "0%o".
  unfoldable pub fs_stat_permission : Option Stat → Call S (List ℕ)
  fs_stat_permission a = do s ← checkfsstat a; pure (48 ∷ octal 11 (permission_bits s.st_mode))

abbrev pub is_space : ℕ → Bool
is_space c = c == 32 || (leb 9 c && leb c 13)

abbrev pub skip_space : List ℕ → List ℕ
skip_space [] = []
skip_space (c ∷ cs) = if is_space c then skip_space cs else c ∷ cs

abbrev pub is_octal : ℕ → Bool
is_octal c = leb 48 c && leb c 55

-- Digits up to the first character that is none.
unfoldable pub octal_value : ℕ → List ℕ → ℕ
octal_value acc [] = acc
octal_value acc (c ∷ cs) = if is_octal c then octal_value (acc * 8 + (c - 48)) cs else acc

-- Past 64 bits the greatest number is returned.
abbrev pub saturated : (negative : Bool) → ℕ → ℕ
saturated negative v =
    if leb (2 ^ 64) v then 2 ^ 64 - 1 else if negative then (2 ^ 64 - v) % 2 ^ 64 else v

abbrev pub signed_value : List ℕ → ℕ
signed_value [] = 0
signed_value (c ∷ cs) =
    if c == 45
    then saturated true (octal_value 0 cs)
    else if c == 43
    then saturated false (octal_value 0 cs)
    else saturated false (octal_value 0 (c ∷ cs))

-- `strtoul(str, NULL, 8)` of the C library.
unfoldable pub strtoul : List ℕ → ℕ
strtoul cs = signed_value (skip_space cs)
