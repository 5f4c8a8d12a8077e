-- ===== src/Fs/Tests.antt =====
-- A file descriptor, a path and a directory of two names, and the theorems of `Fs` at them.
use couv.Prelude.{ℕ, ◌≡◌, ◌≢◌, refl, false, Option, none, some, List, [], ◌∷◌, String, arith}
use couv.Prelude.Int.{pos, negsuc}
use couv.Lua.{Call}
use couv.Buffer.Access.{Buffer}
use couv.Buffer.New.{whole}
use couv.Fs.{Uv, Value, Payload, Store, Env, readdir_results}
use couv.Fs.Calls.{
  fs_toflags, fs_chown, fs_close, fs_fchown, fs_fstat, fs_fsync, fs_ftruncate, fs_futime, fs_link,
  fs_lstat, fs_readlink, fs_rename, fs_rmdir, fs_stat, fs_symlink, fs_unlink, fs_utime, fs_readdir,
  fs_read, fs_write,
}
use couv.Fs.Agree.{Agrees}
use couv.Fs.AllCalls.{calls_agree}
use couv.Fs.Entries.{readdir_round_trip}
use couv.Fs.Parts.{AsksPart, parts_lie_within}

abbrev path : List ℕ
path = 47 ∷ 97 ∷ []

abbrev other : List ℕ
other = 47 ∷ 98 ∷ []

abbrev errname : ℕ → String
errname n = "EPERM"

abbrev env : Env
env = record {
  is_mainthread = false;
  address = 8;
  ret = pos 0;
  result = pos 0;
  errorno = 0;
  ptr = Payload.nothing;
}

abbrev store : Store
store = record { allocated = λ _. false; thread = λ _. false; asked = [] }

real : env.address ≢ 0
real = omega arith

abbrev Same : Uv → (Env → Call Store (Option (List Value))) → Type 0
Same u call = Agrees errname u env store real refl refl call

write_plus : fs_toflags (119 ∷ 43 ∷ []) ≡ some 578
unfolding fs_toflags
write_plus = refl

calls_agree_example :
    Same (Uv.chown path (pos 1000) (pos 100)) (λ e. fs_chown errname e path (pos 1000) (pos 100))
    × Same (Uv.close (pos 3)) (λ e. fs_close errname e (pos 3))
    × Same
        (Uv.fchown (pos 3) (pos 1000) (pos 100))
        (λ e. fs_fchown errname e (pos 3) (pos 1000) (pos 100))
    × Same (Uv.fstat (pos 3)) (λ e. fs_fstat errname e (pos 3))
    × Same (Uv.fsync (pos 3)) (λ e. fs_fsync errname e (pos 3))
    × Same (Uv.ftruncate (pos 3) (pos 0)) (λ e. fs_ftruncate errname e (pos 3) none)
    × Same (Uv.futime (pos 3) (pos 5) (pos 6)) (λ e. fs_futime errname e (pos 3) (pos 5) (pos 6))
    × Same (Uv.link path other) (λ e. fs_link errname e path other)
    × Same (Uv.lstat path) (λ e. fs_lstat errname e path)
    × Same (Uv.readlink path) (λ e. fs_readlink errname e path)
    × Same (Uv.rename path other) (λ e. fs_rename errname e path other)
    × Same (Uv.rmdir path) (λ e. fs_rmdir errname e path)
    × Same (Uv.stat path) (λ e. fs_stat errname e path)
    × Same (Uv.symlink path other (pos 0)) (λ e. fs_symlink errname e path other)
    × Same (Uv.unlink path) (λ e. fs_unlink errname e path)
    × Same (Uv.utime path (pos 5) (pos 6)) (λ e. fs_utime errname e path (pos 5) (pos 6))
    × Same (Uv.readdir path (pos 0)) (λ e. fs_readdir errname e path)
calls_agree_example =
    calls_agree errname env store real refl refl refl path other (pos 3) (pos 1000) (pos 100)
      (pos 5) (pos 6) none

readdir_round_trip_example :
    readdir_results 2 (97 ∷ 0 ∷ 98 ∷ 99 ∷ 0 ∷ []) ≡ some ((97 ∷ []) ∷ (98 ∷ 99 ∷ []) ∷ [])
readdir_round_trip_example = readdir_round_trip ((97 ∷ []) ∷ (98 ∷ 99 ∷ []) ∷ []) (omega arith)

abbrev buffer : Buffer
buffer = whole 100 10

-- The last seven bytes of a buffer of ten, and none of a string of three.
parts_lie_within_example :
    AsksPart
      (λ first n. Uv.read (pos 3) first n (negsuc 0))
      0
      10
      (some (pos 4))
      none
      store
      (fs_read errname env (pos 3) buffer (some (pos 4)) none none store)
    × AsksPart
        (λ first n. Uv.write (pos 3) first n (negsuc 0))
        200
        3
        (some (pos 4))
        none
        store
        (fs_write errname env (pos 3) 200 3 (some (pos 4)) none none store)
parts_lie_within_example =
    parts_lie_within errname env store (pos 3) (some (pos 4)) none none buffer 200 3 (omega arith)
      (omega arith)
