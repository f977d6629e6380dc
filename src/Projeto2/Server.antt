-- ===== src/Projeto2/Server.antt =====
-- fs/tfs_server.c: the sessions, the requests that the main loop reads, and where it leaves them for
-- the threads of the sessions. What the pipes deliver and what `open`, `write` and `malloc` return
-- is an argument.
pub mod Workers
pub mod Reading
pub mod Requests
pub mod Arrival
pub mod Mounting
pub mod Main
pub mod Tables
pub mod Threads
pub mod Start
use projeto_sistemas_operati.Memory.{sizeof_int, load_int, store_int, memcpy, word_at, Mem}
use projeto_sistemas_operati.Base.{
  false, negsuc, ◌∷◌, [], ◌*◌, none, ◌^◌, pos, length, find_first, update, minus_one, ltb, ◌+◌,
  Bool, if◌then◌else◌, some, Option, ℤ, List, Array, ℕ,
}
use projeto_sistemas_operati.Projeto2.Types.{taken, is_free, AllocationState, index}

-- `MAX_CLIENTS`, `MAX_PIPENAME_SIZE` and the codes of the requests.
abbrev pub max_clients : ℕ
max_clients = 20

abbrev pub max_pipename_size : ℕ
max_pipename_size = 40

abbrev pub tfs_op_code_mount : ℕ
tfs_op_code_mount = 1

abbrev pub tfs_op_code_unmount : ℕ
tfs_op_code_unmount = 2

abbrev pub tfs_op_code_open : ℕ
tfs_op_code_open = 3

abbrev pub tfs_op_code_close : ℕ
tfs_op_code_close = 4

abbrev pub tfs_op_code_write : ℕ
tfs_op_code_write = 5

abbrev pub tfs_op_code_read : ℕ
tfs_op_code_read = 6

abbrev pub tfs_op_code_shutdown : ℕ
tfs_op_code_shutdown = 7

-- The sizes of the packed messages of common.h.
abbrev pub sizeof_mount_message : ℕ
sizeof_mount_message = 40

abbrev pub sizeof_unmount_message : ℕ
sizeof_unmount_message = 4

abbrev pub sizeof_open_message : ℕ
sizeof_open_message = 48

abbrev pub sizeof_close_message : ℕ
sizeof_close_message = 8

abbrev pub sizeof_write_message : ℕ
sizeof_write_message = 16

abbrev pub sizeof_read_message : ℕ
sizeof_read_message = 16

abbrev pub sizeof_shutdown_message : ℕ
sizeof_shutdown_message = 4

-- A session; `none` is a buffer that is NULL.
pub record SessionEntry : Type 0 where
  pub client_fd : ℤ
  pub thread_buffer : Option Mem

-- The table of sessions, and whether `table_lock` is held.
pub record Sessions : Type 0 where
  pub session_table : Array SessionEntry
  pub freesession_entries : Array AllocationState
  pub table_lock : Bool

-- What one `read` of a pipe gives: -1, or bytes.
pub data Delivery : Type 0 where
  read_error : Delivery
  bytes : List ℕ → Delivery

-- What a loop of reads comes to: -1, no end (the pipe gives no more), or a message and what is left.
pub data Received : Type 0 where
  failed waiting : Received
  received : Mem → List Delivery → Received

-- Bytes stored from address `a` on.
unfoldable pub store_bytes : Mem → ℕ → List ℕ → Mem
store_bytes m a [] = m
store_bytes m a (b ∷ bs) = store_bytes (update m a b) (a + 1) bs

-- `while (bytes_read < size) read(fds, p + bytes_read, …)` where `*p` has `stride` bytes: `p` is
-- `&message` of the whole size, and for the content of a write an array of `char`. The memory after
-- the message, which the stores past it overwrite, is not part of the model.
unfoldable pub read_loop : ℕ → ℕ → ℕ → Mem → List Delivery → Received
read_loop stride size bytes_read m [] = if ltb bytes_read size then waiting else received m []
read_loop stride size bytes_read m (read_error ∷ rs) =
    if ltb bytes_read size then failed else received m (read_error ∷ rs)
read_loop stride size bytes_read m (bytes bs ∷ rs) =
    let more =
      read_loop stride size (bytes_read + length bs) (store_bytes m (bytes_read * stride) bs) rs in
    if ltb bytes_read size then more else received m (bytes bs ∷ rs)

-- The loop for a message of `size` bytes.
unfoldable pub read_message : ℕ → Mem → List Delivery → Received
read_message size m rs = read_loop size size 0 m rs

-- The buffer of a request: the code, then the message; `fresh` is what `malloc` returns.
unfoldable pub request : Mem → ℕ → ℕ → Mem → Mem
request fresh opcode size message =
    memcpy (store_int fresh 0 (pos opcode)) sizeof_int message 0 size

-- `session_table[i].thread_buffer = b`
abbrev pub set_buffer : Sessions → ℕ → Option Mem → Sessions
set_buffer s i b = record s {
  session_table = update s.session_table i (record (s.session_table i) { thread_buffer = b });
}

-- A `char *` to the name of an opening's message: a name without a NUL goes on in the flags, up to the
-- end of the message. The model says nothing of what the code would read after it.
abbrev pub name_reach : ℕ
name_reach = 44

-- `message.session_id` is the number of a session. The code does not test it.
abbrev pub has_session : Mem → Bool
has_session message = elim (load_int message 0) [ pos n ↦ ltb n max_clients | negsuc n ↦ false ]

-- `session_table[message.session_id]`, for the number of a session.
abbrev pub session_of : Mem → ℕ
session_of message = index (load_int message 0)

-- `tfs_unmount`, `tfs_open_server`, `tfs_close_server`, `tfs_read_server` and `tfs_shutdown_server`
-- once the message is read: the request is left for the thread of its session.
unfoldable pub post : Mem → ℕ → ℕ → Mem → Sessions → Sessions
post fresh opcode size message s =
    set_buffer s (session_of message) (some (request fresh opcode size message))

-- The whole of such a function. `none` is a call of which nothing is known: its pipe gives no more and
-- it waits, or the number is not that of a session and it writes outside `session_table`.
unfoldable pub request_server : ℕ → ℕ → Mem → Mem → List Delivery → Sessions → Option (ℤ × Sessions)
request_server opcode size fresh message rs s = elim (read_message size message rs) [
  | failed ↦ some (minus_one, s)
  | waiting ↦ none
  | received m rest ↦ if has_session m then some (pos 0, post fresh opcode size m s) else none
]

unfoldable pub tfs_unmount : Mem → Mem → List Delivery → Sessions → Option (ℤ × Sessions)
tfs_unmount = request_server tfs_op_code_unmount sizeof_unmount_message

unfoldable pub tfs_open_server : Mem → Mem → List Delivery → Sessions → Option (ℤ × Sessions)
tfs_open_server = request_server tfs_op_code_open sizeof_open_message

unfoldable pub tfs_close_server : Mem → Mem → List Delivery → Sessions → Option (ℤ × Sessions)
tfs_close_server = request_server tfs_op_code_close sizeof_close_message

unfoldable pub tfs_read_server : Mem → Mem → List Delivery → Sessions → Option (ℤ × Sessions)
tfs_read_server = request_server tfs_op_code_read sizeof_read_message

unfoldable pub tfs_shutdown_server : Mem → Mem → List Delivery → Sessions → Option (ℤ × Sessions)
tfs_shutdown_server = request_server tfs_op_code_shutdown sizeof_shutdown_message

-- `message.len` of a write or a read, a `size_t`.
abbrev pub length_in : Mem → ℕ → ℕ
length_in m a = word_at m a + 2 ^ 32 * word_at m (a + 4)

-- `tfs_write_server`: the message, then as many bytes of content as it says.
unfoldable pub tfs_write_server : Mem → Mem → Mem → List Delivery → Sessions → Option (ℤ × Sessions)
tfs_write_server fresh message content rs s = elim (read_message sizeof_write_message message rs) [
  | failed ↦ some (minus_one, s)
  | waiting ↦ none
  | received m rest ↦
      (let len = length_in m 8 in
        elim (read_loop 1 len 0 content rest) [
          | failed ↦ some (minus_one, s)
          | waiting ↦ none
          | received c left ↦
              if has_session m
              then some (
                  (
                    pos 0,
                    set_buffer s (session_of m) (
                        some (
                          memcpy (request fresh tfs_op_code_write sizeof_write_message m)
                            (sizeof_int + sizeof_write_message) c 0 len)),
                  ))
              else none
        ])
]

-- What `tfs_mount` does under `table_lock`: the first free session takes the client, and its thread
-- gets the request. The result is the session, if there is one.
unfoldable pub take_session : Mem → Mem → ℤ → Sessions → Option ℕ × Sessions
take_session fresh message fdc s =
    elim (find_first (λ i. is_free (s.freesession_entries i)) max_clients 0) [
      | none ↦ (none, s)
      | some i ↦ (
        some i,
        record s {
          freesession_entries = update s.freesession_entries i taken;
          session_table = update s.session_table i (record {
            client_fd = fdc;
            thread_buffer = some (request fresh tfs_op_code_mount sizeof_mount_message message);
          });
        },
      )
    ]
