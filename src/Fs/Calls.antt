-- ===== src/Fs/Calls.antt =====
-- The calls of src/fs.c, one by one: the checks of their arguments and the request they make.
use couv.Prelude.{
  ℕ, ◌+◌, ◌==◌, ◌&&◌, Bool, true, false, Option, none, some, List, [], ◌∷◌, String, if◌then◌else◌,
}
use couv.Prelude.Int.{ℤ, pos, negsuc, pos_part, ◌+ℤ◌, ◌-ℤ◌}
use couv.Prelude.CInt.{to_int, to_size, int_of_size}
use couv.Lua.{Call, raise, pure, arg_error, or_error, opt, ◌>>=◌, ◌>>◌}
use couv.Buffer.Access.{Buffer, argcheckindex}
use couv.Fs.{Uv, Value, Store, Env, fs_error, push_common_results, push_exists_results, make}

abbrev pub same_text : List ℕ → List ℕ → Bool
same_text [] [] = true
same_text [] (y ∷ ys) = false
same_text (x ∷ xs) [] = false
same_text (x ∷ xs) (y ∷ ys) = x == y && same_text xs ys

-- `flag_mapping_t`.
pub record FlagMapping : Type 0 where
  pub name : List ℕ
  pub flags : ℕ

-- Linux's numbers: O_WRONLY is 1, O_RDWR 2, O_CREAT 64, O_TRUNC 512, O_APPEND 1024 and O_SYNC
-- 1052672. The names are r, w, a, r+, w+, a+, rs and rs+.
abbrev pub flag_mappings : List FlagMapping
flag_mappings =
    record { name = 114 ∷ []; flags = 0 }
    ∷ record { name = 119 ∷ []; flags = 1 + 64 + 512 }
    ∷ record { name = 97 ∷ []; flags = 1 + 64 + 1024 }
    ∷ record { name = 114 ∷ 43 ∷ []; flags = 2 }
    ∷ record { name = 119 ∷ 43 ∷ []; flags = 2 + 64 + 512 }
    ∷ record { name = 97 ∷ 43 ∷ []; flags = 2 + 64 + 1024 }
    ∷ record { name = 114 ∷ 115 ∷ []; flags = 1052672 }
    ∷ record { name = 114 ∷ 115 ∷ 43 ∷ []; flags = 2 + 1052672 }
    ∷ []

-- The loop over the mappings; `none` for -1.
abbrev pub find_flags : List ℕ → List FlagMapping → Option ℕ
find_flags flags_str [] = none
find_flags flags_str (m ∷ ms) =
    let rest = find_flags flags_str ms in if same_text flags_str m.name then some m.flags else rest

unfoldable pub fs_toflags : List ℕ → Option ℕ
fs_toflags flags_str = find_flags flags_str flag_mappings

unfoldable pub fs_checkflags : {S : Type 0} → ℕ → List ℕ → Call S ℕ
unfolding fs_toflags
fs_checkflags index flags_str = or_error (arg_error index "Invalid flags") (fs_toflags flags_str)

-- An argument that is to be a mode, by `lua_type`.
pub data Mode : Type 0 where
  number : ℤ → Mode
  string : List ℕ → Mode
  absent : Mode
  other : Mode

-- `strtoul` in base 8 is C's; its result is narrowed to an `int`.
module _ (strtoul : List ℕ → ℕ) where
  unfoldable pub fs_checkmode : {S : Type 0} → ℕ → Mode → Call S ℤ
  fs_checkmode index (Mode.number n) = pure (to_int n)
  fs_checkmode index (Mode.string str) = pure (to_int (pos (strtoul str)))
  fs_checkmode index Mode.absent = raise (arg_error index "must be octal number string or number")
  fs_checkmode index Mode.other = raise (arg_error index "must be octal number string or number")

  unfoldable pub fs_optmode : {S : Type 0} → ℕ → Mode → ℤ → Call S ℤ
  fs_optmode index (Mode.number n) default_value = pure (to_int n)
  fs_optmode index (Mode.string str) default_value = pure (to_int (pos (strtoul str)))
  fs_optmode index Mode.absent default_value = pure default_value
  fs_optmode index Mode.other default_value =
      raise (arg_error index "must be octal number string or number")

-- The two index checks of `fs_read` and `fs_write`, and the part of a buffer that passes them.
unfoldable pub checkpart : {S : Type 0} → (len : ℕ) → (buf_pos? length? : Option ℤ) → Call S (ℕ × ℕ)
checkpart len buf_pos? length? = do
  let buf_pos = opt buf_pos? (pos 1)
  let length = opt length? (to_int (pos len -ℤ buf_pos +ℤ pos 1))
  argcheckindex 3 buf_pos (pos 1) (int_of_size len)
  argcheckindex 4 length (pos 0) (int_of_size len -ℤ buf_pos +ℤ pos 1)
  pure (pos_part (buf_pos -ℤ pos 1), to_size length)

module _ (errname : ℕ → String) (env : Env) where
  -- With `fs_push_common_results`, and `fs_error` where the request is refused.
  abbrev pub request : Uv → Call Store (Option (List Value))
  request u = make env u (push_common_results errname) (fs_error errname)

  unfoldable pub fs_chown : (path : List ℕ) → (uid gid : ℤ) → Call Store (Option (List Value))
  fs_chown path uid gid = request (Uv.chown path uid gid)

  unfoldable pub fs_close : (fd : ℤ) → Call Store (Option (List Value))
  fs_close fd = request (Uv.close fd)

  unfoldable pub fs_fchown : (fd uid gid : ℤ) → Call Store (Option (List Value))
  fs_fchown fd uid gid = request (Uv.fchown fd uid gid)

  unfoldable pub fs_fstat : (fd : ℤ) → Call Store (Option (List Value))
  fs_fstat fd = request (Uv.fstat fd)

  unfoldable pub fs_fsync : (fd : ℤ) → Call Store (Option (List Value))
  fs_fsync fd = request (Uv.fsync fd)

  unfoldable pub fs_ftruncate : (fd : ℤ) → (len? : Option ℤ) → Call Store (Option (List Value))
  fs_ftruncate fd len? = request (Uv.ftruncate fd (opt len? (pos 0)))

  unfoldable pub fs_futime : (fd atime mtime : ℤ) → Call Store (Option (List Value))
  fs_futime fd atime mtime = request (Uv.futime fd atime mtime)

  unfoldable pub fs_link : (path new_path : List ℕ) → Call Store (Option (List Value))
  fs_link path new_path = request (Uv.link path new_path)

  unfoldable pub fs_lstat : (path : List ℕ) → Call Store (Option (List Value))
  fs_lstat path = request (Uv.lstat path)

  unfoldable pub fs_readlink : (path : List ℕ) → Call Store (Option (List Value))
  fs_readlink path = request (Uv.readlink path)

  unfoldable pub fs_rename : (old_path new_path : List ℕ) → Call Store (Option (List Value))
  fs_rename old_path new_path = request (Uv.rename old_path new_path)

  unfoldable pub fs_rmdir : (path : List ℕ) → Call Store (Option (List Value))
  fs_rmdir path = request (Uv.rmdir path)

  unfoldable pub fs_stat : (path : List ℕ) → Call Store (Option (List Value))
  fs_stat path = request (Uv.stat path)

  unfoldable pub fs_symlink : (path new_path : List ℕ) → Call Store (Option (List Value))
  fs_symlink path new_path = request (Uv.symlink path new_path (pos 0))

  unfoldable pub fs_unlink : (path : List ℕ) → Call Store (Option (List Value))
  fs_unlink path = request (Uv.unlink path)

  unfoldable pub fs_utime : (path : List ℕ) → (atime mtime : ℤ) → Call Store (Option (List Value))
  fs_utime path atime mtime = request (Uv.utime path atime mtime)

  unfoldable pub fs_readdir : (path : List ℕ) → Call Store (Option (List Value))
  fs_readdir path = request (Uv.readdir path (pos 0))

  unfoldable pub fs_exists : (path : List ℕ) → Call Store (Option (List Value))
  fs_exists path =
      make env (Uv.stat path) (push_exists_results errname) (push_exists_results errname)

  unfoldable pub fs_read :
      (fd : ℤ)
      → Buffer
      → (buf_pos? length? file_offset? : Option ℤ) → Call Store (Option (List Value))
  fs_read fd buf buf_pos? length? file_offset? = do
    part ← checkpart buf.len buf_pos? length?
    request (Uv.read fd (buf.base + part.0) part.1 (opt file_offset? (negsuc 0)))

  -- A string's bytes are a block of their own, which begins at 0.
  unfoldable pub fs_write :
      (fd : ℤ)
      → (base len : ℕ) → (buf_pos? length? file_offset? : Option ℤ)
      → Call Store (Option (List Value))
  fs_write fd base len buf_pos? length? file_offset? = do
    part ← checkpart len buf_pos? length?
    request (Uv.write fd (base + part.0) part.1 (opt file_offset? (negsuc 0)))

  module _ (strtoul : List ℕ → ℕ) where
    unfoldable pub fs_chmod : (path : List ℕ) → Mode → Call Store (Option (List Value))
    fs_chmod path mode = do m ← fs_checkmode strtoul 2 mode; request (Uv.chmod path m)

    unfoldable pub fs_fchmod : (fd : ℤ) → Mode → Call Store (Option (List Value))
    fs_fchmod fd mode = do m ← fs_checkmode strtoul 2 mode; request (Uv.fchmod fd m)

    -- 0777.
    unfoldable pub fs_mkdir : (path : List ℕ) → Mode → Call Store (Option (List Value))
    fs_mkdir path mode = do m ← fs_optmode strtoul 2 mode (pos 511); request (Uv.mkdir path m)

    -- 0666.
    unfoldable pub fs_open : (path flags_str : List ℕ) → Mode → Call Store (Option (List Value))
    fs_open path flags_str mode = do
      flags ← fs_checkflags 2 flags_str
      m ← fs_optmode strtoul 3 mode (pos 438)
      request (Uv.open_file path (pos flags) m)
