-- ===== src/Projeto2/Server/Workers.antt =====
-- fs/tfs_server.c: what the thread of a session does with a request, and `tfs_mount`.
use mathlib.Core.Option
use projeto_sistemas_operati.Base.{
  is_nonneg, true, is_minus_one, update, false, some, negsuc, minus_one, none, ◌==◌, ◌+◌,
  if◌then◌else◌, List, pos, Array, Option, ℤ, ℕ, ◌∷◌, Bool,
}
use projeto_sistemas_operati.Projeto2.Server.{
  name_reach, tfs_op_code_read, tfs_op_code_write, tfs_op_code_close, set_buffer, tfs_op_code_open,
  failed, waiting, received, tfs_op_code_unmount, sizeof_mount_message, take_session, read_message,
  length_in, tfs_op_code_mount, session_of, Delivery, sizeof_write_message, Sessions,
}
use projeto_sistemas_operati.Projeto2.Api.{tfs_write, tfs_read, tfs_close, tfs_open, Locking, Tfs}
use projeto_sistemas_operati.Memory.{from_word, to_word, cstring_at, load_int, sizeof_int, Mem}
use projeto_sistemas_operati.Projeto2.Types.{free, is_free}

-- What is written to the pipe of a client: an `int`, and for a read the bytes after it.
pub data Reply : Type 0 where
  reply : ℤ → ℤ → Reply
  reply_bytes : ℤ → ℤ → Array ℕ → Reply

-- The file system and the sessions; the replies, the last first.
pub record ServerState : Type 0 where
  pub tfs : Tfs
  pub sessions : Sessions
  pub sent : List Reply

abbrev pub send : Reply → ServerState → ServerState
send r s = record s { sent = r ∷ s.sent }

abbrev pub with_sessions : Sessions → ServerState → ServerState
with_sessions t s = record s { sessions = t }

-- `session_table[i].client_fd`
abbrev pub fd_of : ServerState → ℕ → ℤ
fd_of s i = (s.sessions.session_table i).client_fd

-- What a function whose last step is a `write` to a client returns; `written` is whether the `write`
-- succeeds.
abbrev pub answer : Bool → Reply → ServerState → ℤ × ServerState
answer written r s = if written then (pos 0, send r s) else (minus_one, s)

-- `tfs_mount` once the message is read and the client's pipe is open. `none` is a call that does not
-- return: it waits for `table_lock`.
unfoldable pub mount_client : Mem → Mem → ℤ → Bool → ServerState → Option (ℤ × ServerState)
mount_client fresh message fdc written s =
    if s.sessions.table_lock
    then none
    else let (i, t) = take_session fresh message fdc s.sessions in
      elim i [
        | some i ↦ some (pos 0, with_sessions t s)
        | none ↦ some (answer written (reply fdc minus_one) s)
      ]

-- `open_pipe` is what `open` returns for the name in the message.
unfoldable pub tfs_mount :
    (Mem → ℤ) → Mem → Mem → List Delivery → Bool → ServerState → Option (ℤ × ServerState)
tfs_mount open_pipe fresh message rs written s =
    elim (read_message sizeof_mount_message message rs) [
      | failed ↦ some (minus_one, s)
      | waiting ↦ none
      | received m rest ↦
          if is_nonneg (open_pipe m)
          then mount_client fresh m (open_pipe m) written s
          else some (minus_one, s)
    ]

unfoldable pub worker_mount : Bool → ℕ → ServerState → ℤ × ServerState
worker_mount written s_id s = answer written (reply (fd_of s s_id) (pos s_id)) s

-- The message of a request stands after the code.
abbrev pub message_of : Mem → Mem
message_of buffer k = buffer (sizeof_int + k)

-- It waits for `table_lock`, as `tfs_mount` does; a failed `write` returns with the lock held.
unfoldable pub worker_unmount : Bool → Mem → ServerState → Option (ℤ × ServerState)
worker_unmount written buffer s =
    let i = session_of (message_of buffer) in
    let t = s.sessions in
    let outcome = if is_free (t.freesession_entries i) then minus_one else pos 0 in
    let freed = record t { freesession_entries = update t.freesession_entries i free } in
    if t.table_lock
    then none
    else if written
    then some (pos 0, send (reply (fd_of s i) outcome) (with_sessions freed s))
    else some (minus_one, with_sessions (record freed { table_lock = true }) s)

unfoldable pub worker_open : Locking → Bool → Mem → ServerState → ℤ × ServerState
worker_open l written buffer s =
    let m = message_of buffer in
    let (outcome, t) = tfs_open l (cstring_at name_reach m 4) (to_word (load_int m 44)) s.tfs in
    answer written (reply (fd_of s (session_of m)) outcome) (record s { tfs = t })

unfoldable pub worker_close : Locking → Bool → Mem → ServerState → ℤ × ServerState
worker_close l written buffer s =
    let m = message_of buffer in
    let (outcome, t) = tfs_close l (load_int m 4) s.tfs in
    answer written (reply (fd_of s (session_of m)) outcome) (record s { tfs = t })

-- The reply has the four low bytes of the `ssize_t`.
unfoldable pub worker_write : Locking → Bool → Mem → ServerState → ℤ × ServerState
worker_write l written buffer s =
    let m = message_of buffer in
    let content : Array ℕ = λ k. m (sizeof_write_message + k) in
    let (bytes_written, t) = tfs_write l (load_int m 4) content (length_in m 8) s.tfs in
    answer written (reply (fd_of s (session_of m)) (from_word (to_word bytes_written)))
      (record s { tfs = t })

-- `content` is the local array, before it is filled.
unfoldable pub worker_read : Locking → Bool → Array ℕ → Mem → ServerState → ℤ × ServerState
worker_read l written content buffer s =
    let m = message_of buffer in
    let (bytes_file, out, t) = tfs_read l (load_int m 4) content (length_in m 8) s.tfs in
    let fdc = fd_of s (session_of m) in
    let bytes_file_read = from_word (to_word bytes_file) in
    if is_minus_one bytes_file
    then answer written (reply fdc bytes_file_read) (record s { tfs = t })
    else answer written (reply_bytes fdc bytes_file_read out) (record s { tfs = t })

abbrev pub is_code : ℤ → ℕ → Bool
is_code (pos n) code = n == code
is_code (negsuc n) code = false

-- The switch of `thread_func`; the results of the workers are not used there.
unfoldable pub dispatch : Locking → Bool → Array ℕ → ℕ → Mem → ServerState → Option ServerState
dispatch l written content s_id buffer s =
    let opcode = load_int buffer 0 in
    if is_code opcode tfs_op_code_mount
    then some (worker_mount written s_id s).1
    else if is_code opcode tfs_op_code_unmount
    then Option.map (λ r. r.1) (worker_unmount written buffer s)
    else if is_code opcode tfs_op_code_open
    then some (worker_open l written buffer s).1
    else if is_code opcode tfs_op_code_close
    then some (worker_close l written buffer s).1
    else if is_code opcode tfs_op_code_write
    then some (worker_write l written buffer s).1
    else if is_code opcode tfs_op_code_read
    then some (worker_read l written content buffer s).1
    else some s

-- One round of the loop of `thread_func`: `none` while it waits, for a request or for `table_lock`;
-- a request that is done is cleared.
unfoldable pub thread_round : Locking → Bool → Array ℕ → ℕ → ServerState → Option ServerState
thread_round l written content s_id s = elim (s.sessions.session_table s_id).thread_buffer [
  | none ↦ none
  | some buffer ↦
      Option.map (λ (done : ServerState). with_sessions (set_buffer done.sessions s_id none) done)
        (dispatch l written content s_id buffer s)
]
