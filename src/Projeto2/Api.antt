-- ===== src/Projeto2/Api.antt =====
-- fs/operations.c: the functions of the API, under the global lock, and the counter of open files.
-- The results of the pthread calls are arguments, so that their error branches run too.
pub mod Counter
pub mod Steps
pub mod Shutdown
use projeto_sistemas_operati.Base.{
  ℕ, not, Array, if◌then◌else◌, ℤ, pos, minus_one, is_minus_one, is_zero, increment, decrement,
}
use projeto_sistemas_operati.Memory.{CString}
use projeto_sistemas_operati.Projeto2.Types.{Fs}
use projeto_sistemas_operati.Projeto2.Handles.{remove_from_open_file_table}
use projeto_sistemas_operati.Projeto2.Operations.{
  init_fs, lookup_unsynchronized, open_unsynchronized, write_unsynchronized, read_unsynchronized,
}

-- The tables, and the two static counters of operations.c.
pub record Tfs : Type 0 where
  pub fs : Fs
  pub can_open_files : ℤ
  pub open_files : ℤ

-- What `pthread_mutex_lock` and `pthread_mutex_unlock` return in one call of the API.
pub record Locking : Type 0 where
  pub lock : ℤ
  pub unlock : ℤ

-- What `pthread_mutex_init` and `pthread_cond_init` return.
pub record Setup : Type 0 where
  pub mutex_init : ℤ
  pub cond_init : ℤ

unfoldable pub tfs_init : Setup → Tfs → ℤ × Tfs
tfs_init r t =
    let ready = record t { can_open_files = pos 1; open_files = pos 0 } in
    if not (is_zero r.mutex_init)
    then (minus_one, ready)
    else if not (is_zero r.cond_init)
    then (minus_one, ready)
    else (let (root, s) = init_fs t.fs in (root, record ready { fs = s }))

-- `destroyed` is what `pthread_mutex_destroy` returns; `state_destroy` is empty.
unfoldable pub tfs_destroy : ℤ → ℤ
tfs_destroy destroyed = if is_zero destroyed then pos 0 else minus_one

-- The result of a call that has released the lock.
abbrev pub unlocked : Locking → ℤ → ℤ
unlocked l ret = if is_zero l.unlock then ret else minus_one

unfoldable pub tfs_lookup : Locking → CString → Tfs → ℤ
tfs_lookup l name t =
    if is_zero l.lock then unlocked l (lookup_unsynchronized name t.fs) else minus_one

-- The part of `tfs_open` that runs under the lock.
unfoldable pub open_counted : CString → ℕ → Tfs → ℤ × Tfs
open_counted name flags t =
    let (ret, s) = open_unsynchronized name flags t.fs in
    (
      ret,
      record t {
        fs = s;
        open_files = if is_minus_one ret then t.open_files else increment t.open_files;
      },
    )

unfoldable pub tfs_open : Locking → CString → ℕ → Tfs → ℤ × Tfs
tfs_open l name flags t =
    if is_zero t.can_open_files
    then (minus_one, t)
    else if is_zero l.lock
    then (let (ret, t') = open_counted name flags t in (unlocked l ret, t'))
    else (minus_one, t)

-- The part of `tfs_close` that runs under the lock.
unfoldable pub close_counted : ℤ → Tfs → ℤ × Tfs
close_counted fhandle t =
    let (r, s) = remove_from_open_file_table fhandle t.fs in
    (
      r,
      record t {
        fs = s;
        open_files = if is_minus_one r then t.open_files else decrement t.open_files;
      },
    )

unfoldable pub tfs_close : Locking → ℤ → Tfs → ℤ × Tfs
tfs_close l fhandle t =
    if is_zero l.lock
    then (let (r, t') = close_counted fhandle t in (unlocked l r, t'))
    else (minus_one, t)

unfoldable pub tfs_write : Locking → ℤ → Array ℕ → ℕ → Tfs → ℤ × Tfs
tfs_write l fhandle buffer to_write t =
    if is_zero l.lock
    then (let (ret, s) = write_unsynchronized fhandle buffer to_write t.fs in
        (unlocked l ret, record t { fs = s }))
    else (minus_one, t)

unfoldable pub tfs_read : Locking → ℤ → Array ℕ → ℕ → Tfs → ℤ × Array ℕ × Tfs
tfs_read l fhandle buffer len t =
    if is_zero l.lock
    then (let (ret, b, s) = read_unsynchronized fhandle buffer len t.fs in
        (unlocked l ret, b, record t { fs = s }))
    else (minus_one, buffer, t)
