-- ===== src/Fs/AllCalls.antt =====
-- Every call of src/fs.c that makes its request at once gives a coroutine what it gives the main
-- thread.
use couv.Prelude.{ℕ, ◌≡◌, ◌≢◌, false, Option, List, String}
use couv.Prelude.Int.{ℤ, pos, ltb_ℤ}
use couv.Lua.{Call, opt}
use couv.Fs.{Uv, Value, Store, Env}
use couv.Fs.Calls.{
  fs_chown, fs_close, fs_fchown, fs_fstat, fs_fsync, fs_ftruncate, fs_futime, fs_link, fs_lstat,
  fs_readlink, fs_rename, fs_rmdir, fs_stat, fs_symlink, fs_unlink, fs_utime, fs_readdir,
}
use couv.Fs.Agree.{Agrees, request-Agrees}

module _ (errname : ℕ → String) (env : Env) (s : Store) (real : env.address ≢ 0)
    (unused : s.allocated env.address ≡ false) (no_thread : s.thread env.address ≡ false) where
  abbrev Same : Uv → (Env → Call Store (Option (List Value))) → Type 0
  Same u call = Agrees errname u env s real unused no_thread call

  -- At an address that `malloc` gave, with no request and no coroutine under it, and where libuv
  -- accepts the request: each of these calls, whatever its arguments and libuv's answer, asks libuv
  -- once, for the same in both, and yields in
  -- a coroutine, and its callback resumes the coroutine with the values that the call returns in
  -- the main thread, an undefined read of the answer being the same too; the request is freed and
  -- the coroutine taken out of the registry.
  pub calls_agree :
      ltb_ℤ env.ret (pos 0) ≡ false
      → (path new_path : List ℕ) (fd uid gid atime mtime : ℤ) (len? : Option ℤ)
      → Same (Uv.chown path uid gid) (λ e. fs_chown errname e path uid gid)
        × Same (Uv.close fd) (λ e. fs_close errname e fd)
        × Same (Uv.fchown fd uid gid) (λ e. fs_fchown errname e fd uid gid)
        × Same (Uv.fstat fd) (λ e. fs_fstat errname e fd)
        × Same (Uv.fsync fd) (λ e. fs_fsync errname e fd)
        × Same (Uv.ftruncate fd (opt len? (pos 0))) (λ e. fs_ftruncate errname e fd len?)
        × Same (Uv.futime fd atime mtime) (λ e. fs_futime errname e fd atime mtime)
        × Same (Uv.link path new_path) (λ e. fs_link errname e path new_path)
        × Same (Uv.lstat path) (λ e. fs_lstat errname e path)
        × Same (Uv.readlink path) (λ e. fs_readlink errname e path)
        × Same (Uv.rename path new_path) (λ e. fs_rename errname e path new_path)
        × Same (Uv.rmdir path) (λ e. fs_rmdir errname e path)
        × Same (Uv.stat path) (λ e. fs_stat errname e path)
        × Same (Uv.symlink path new_path (pos 0)) (λ e. fs_symlink errname e path new_path)
        × Same (Uv.unlink path) (λ e. fs_unlink errname e path)
        × Same (Uv.utime path atime mtime) (λ e. fs_utime errname e path atime mtime)
        × Same (Uv.readdir path (pos 0)) (λ e. fs_readdir errname e path)
  unfolding fs_chown fs_close fs_fchown fs_fstat fs_fsync fs_ftruncate fs_futime fs_link fs_lstat
      fs_readlink fs_rename fs_rmdir fs_stat fs_symlink fs_unlink fs_utime fs_readdir
  calls_agree a path new_path fd uid gid atime mtime len? = (
    request-Agrees errname (Uv.chown path uid gid) env s real unused no_thread a,
    request-Agrees errname (Uv.close fd) env s real unused no_thread a,
    request-Agrees errname (Uv.fchown fd uid gid) env s real unused no_thread a,
    request-Agrees errname (Uv.fstat fd) env s real unused no_thread a,
    request-Agrees errname (Uv.fsync fd) env s real unused no_thread a,
    request-Agrees errname (Uv.ftruncate fd (opt len? (pos 0))) env s real unused no_thread a,
    request-Agrees errname (Uv.futime fd atime mtime) env s real unused no_thread a,
    request-Agrees errname (Uv.link path new_path) env s real unused no_thread a,
    request-Agrees errname (Uv.lstat path) env s real unused no_thread a,
    request-Agrees errname (Uv.readlink path) env s real unused no_thread a,
    request-Agrees errname (Uv.rename path new_path) env s real unused no_thread a,
    request-Agrees errname (Uv.rmdir path) env s real unused no_thread a,
    request-Agrees errname (Uv.stat path) env s real unused no_thread a,
    request-Agrees errname (Uv.symlink path new_path (pos 0)) env s real unused no_thread a,
    request-Agrees errname (Uv.unlink path) env s real unused no_thread a,
    request-Agrees errname (Uv.utime path atime mtime) env s real unused no_thread a,
    request-Agrees errname (Uv.readdir path (pos 0)) env s real unused no_thread a,
  )
