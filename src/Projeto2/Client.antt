-- ===== src/Projeto2/Client.antt =====
-- client/tecnicofs_client_api.c: each call sends a request, the code and a packed message, and waits
-- for an `int`. What the pipes accept and deliver and what `open` and `mkfifo` return is an argument.
pub mod Messages
pub mod Exchange
pub mod EndToEnd
pub mod Reading
use projeto_sistemas_operati.Base.{
  ◌-◌, length, negsuc, is_nonneg, ◌/◌, ◌&&◌, not, ◌^◌, none, take, true, ◌%◌, is_minus_one, drop,
  ◌++◌, ltb, pos, minus_one, if◌then◌else◌, some, false, ◌∷◌, [], Array, ◌+◌, ℕ, List, Option, ℤ,
  Bool,
}
use projeto_sistemas_operati.Memory.{
  load_int, char_at, sizeof_int, bytes_of, store_int, Mem, CString,
}
use projeto_sistemas_operati.Projeto2.Server.{
  read_error, bytes, waiting, received, max_pipename_size, sizeof_write_message, failed,
  sizeof_read_message, sizeof_shutdown_message, tfs_op_code_read, sizeof_close_message,
  sizeof_unmount_message, tfs_op_code_write, sizeof_mount_message, sizeof_open_message,
  tfs_op_code_open, Delivery, store_bytes, tfs_op_code_mount, tfs_op_code_close,
  tfs_op_code_unmount, tfs_op_code_shutdown, read_loop,
}
use projeto_sistemas_operati.Projeto2.Types.{index}

-- The static variables of the client.
pub record Client : Type 0 where
  pub client_pipe_name : Mem
  pub session_id : ℤ
  pub client_pipe_fd : ℤ
  pub server_pipe_fd : ℤ

-- The results of the calls to the system in one request: how many bytes each `write` takes (`none`
-- is -1), what `open` returns, the memory of `server_answer`, and what the client's pipe delivers.
pub record Pipes : Type 0 where
  pub writes : List (Option ℕ)
  pub opened : ℤ
  pub server_answer : Mem
  pub replies : List Delivery

-- What a loop of writes comes to, and the bytes that went out.
pub data Sent : Type 0 where
  send_fails send_waits sent_all : List ℕ → Sent

-- `while (bytes_written < to_write) write(server_pipe_fd, …)`: the bytes left, and those gone.
unfoldable pub send_loop : List (Option ℕ) → List ℕ → List ℕ → Sent
send_loop rs [] sent = sent_all sent
send_loop [] (b ∷ bs) sent = send_waits sent
send_loop (none ∷ rs) (b ∷ bs) sent = send_fails sent
send_loop (some n ∷ rs) (b ∷ bs) sent = send_loop rs (drop n (b ∷ bs)) (sent ++ take n (b ∷ bs))

-- The reading of `server_answer`, whose loop moves on by whole `int`s.
unfoldable pub read_answer : Pipes → Client → Option (ℤ × Client)
read_answer p c = elim (read_loop sizeof_int sizeof_int 0 p.server_answer p.replies) [
  | failed ↦ some (minus_one, c)
  | waiting ↦ none
  | received m rest ↦ some (load_int m 0, c)
]

-- `none` is a call that waits for ever. `open_client_pipe` is whether the client's pipe is opened.
unfoldable pub request_handler : Pipes → List ℕ → Bool → Client → List ℕ × Option (ℤ × Client)
request_handler p write_buffer open_client_pipe c = elim (send_loop p.writes write_buffer []) [
  | send_fails sent ↦ (sent, some (minus_one, c))
  | send_waits sent ↦ (sent, none)
  | sent_all sent ↦
      let c' = if open_client_pipe then record c { client_pipe_fd = p.opened } else c in
      if open_client_pipe && is_minus_one p.opened
      then (sent, some (minus_one, c'))
      else (sent, read_answer p c')
]

-- The first digit of the code: those of the requests have one.
unfoldable pub opcode_convert : ℕ → ℕ
opcode_convert opcode = b'0' + opcode

-- The request in `write_buffer`: the code, and the `size` bytes of the message.
unfoldable pub write_buffer_of : ℕ → ℕ → Mem → List ℕ
write_buffer_of opcode size message = opcode_convert opcode ∷ bytes_of size message

-- `strcpy`, the NUL included.
unfoldable pub strcpy : Mem → ℕ → CString → Mem
strcpy m a s = store_bytes m a (s ++ 0 ∷ [])

-- `store_size m a n` is `*p = n` through a `size_t *`.
abbrev pub store_size : Mem → ℕ → ℕ → Mem
store_size m a n = store_int (store_int m a (pos (n % 2 ^ 32))) (a + 4) (pos (n / 2 ^ 32))

-- The messages; `fresh` is the local variable before it is filled. A name of 40 bytes or more runs
-- into the flags, which are stored after it.
unfoldable pub session_message : Mem → Client → Mem
session_message fresh c = store_int fresh 0 c.session_id

unfoldable pub open_message : Mem → Client → CString → ℤ → Mem
open_message fresh c name flags = store_int (strcpy (session_message fresh c) 4 name) 44 flags

unfoldable pub close_message : Mem → Client → ℤ → Mem
close_message fresh c fhandle = store_int (session_message fresh c) 4 fhandle

unfoldable pub transfer_message : Mem → Client → ℤ → ℕ → Mem
transfer_message fresh c fhandle len = store_size (close_message fresh c fhandle) 8 len

-- A request whose result the call returns.
unfoldable pub call : Pipes → ℕ → ℕ → Mem → Client → List ℕ × Option (ℤ × Client)
call p opcode size message c = request_handler p (write_buffer_of opcode size message) false c

-- 0 in place of a result that is not -1.
abbrev pub zero_unless_error : Option (ℤ × Client) → Option (ℤ × Client)
zero_unless_error none = none
zero_unless_error (some (r, c)) = if is_minus_one r then some (minus_one, c) else some (pos 0, c)

-- `client_pipe_name`: the path and NULs. A path of more than 40 bytes does not fit.
abbrev pub pipe_name : CString → Mem → Mem
pipe_name path old k = if ltb k max_pipename_size then char_at path k else old k

-- `server_fd` and `made` are what `open` and `mkfifo` return.
unfoldable pub tfs_mount : Pipes → CString → ℤ → ℤ → Client → List ℕ × Option (ℤ × Client)
tfs_mount p client_pipe_path server_fd made c =
    let named = record c {
      client_pipe_name = pipe_name client_pipe_path c.client_pipe_name;
      server_pipe_fd = server_fd;
    } in
    let buffer = write_buffer_of tfs_op_code_mount sizeof_mount_message named.client_pipe_name in
    let (sent, answer) = request_handler p buffer true named in
    if not (is_nonneg server_fd)
    then ([], some (minus_one, named))
    else if not (is_nonneg made)
    then ([], some (minus_one, named))
    else elim answer [
      | none ↦ (sent, none)
      | some (r, c') ↦
          let c'' = record c' { session_id = r } in
          if is_minus_one r then (sent, some (minus_one, c'')) else (sent, some (pos 0, c''))
    ]

unfoldable pub tfs_unmount : Pipes → Mem → Client → List ℕ × Option (ℤ × Client)
tfs_unmount p fresh c =
    let (sent, r) = call p tfs_op_code_unmount sizeof_unmount_message (session_message fresh c) c in
    (sent, zero_unless_error r)

unfoldable pub tfs_open : Pipes → Mem → CString → ℤ → Client → List ℕ × Option (ℤ × Client)
tfs_open p fresh name flags c =
    call p tfs_op_code_open sizeof_open_message (open_message fresh c name flags) c

unfoldable pub tfs_close : Pipes → Mem → ℤ → Client → List ℕ × Option (ℤ × Client)
tfs_close p fresh fhandle c =
    let (sent, r) =
      call p tfs_op_code_close sizeof_close_message (close_message fresh c fhandle) c in
    (sent, zero_unless_error r)

unfoldable pub tfs_write : Pipes → Mem → ℤ → Array ℕ → ℕ → Client → List ℕ × Option (ℤ × Client)
tfs_write p fresh fhandle buffer len c =
    let message = transfer_message fresh c fhandle len in
    request_handler p
      (write_buffer_of tfs_op_code_write sizeof_write_message message ++ bytes_of len buffer) false
      c

-- An `int` as a `size_t`, which `bytes_read < file_bytes_read` compares.
abbrev pub to_size : ℤ → ℕ
to_size (pos n) = n
to_size (negsuc n) = 2 ^ 64 - (n + 1)

-- The loop that reads the content: `count` is `file_bytes_read`, `at` is `bytes_read`.
unfoldable pub content_loop : ℤ → ℕ → Array ℕ → List Delivery → Option (ℤ × Array ℕ)
content_loop count at buffer [] = if ltb at (to_size count) then none else some (count, buffer)
content_loop count at buffer (read_error ∷ rs) =
    if ltb at (to_size count) then some (minus_one, buffer) else some (count, buffer)
content_loop count at buffer (bytes bs ∷ rs) =
    let more = content_loop count (at + length bs) (store_bytes buffer at bs) rs in
    if ltb at (to_size count) then more else some (count, buffer)

-- `file_bytes_read`, and the bytes after it.
unfoldable pub read_file : Mem → Array ℕ → List Delivery → Option (ℤ × Array ℕ)
read_file number buffer rs = elim (read_loop sizeof_int sizeof_int 0 number rs) [
  | failed ↦ some (minus_one, buffer)
  | waiting ↦ none
  | received m rest ↦
      if is_minus_one (load_int m 0)
      then some (minus_one, buffer)
      else content_loop (load_int m 0) 0 buffer rest
]

unfoldable pub tfs_read : Pipes → Mem → ℤ → Array ℕ → ℕ → Client → List ℕ × Option (ℤ × Array ℕ)
tfs_read p fresh fhandle buffer len c =
    elim (send_loop p.writes
      (write_buffer_of tfs_op_code_read sizeof_read_message (transfer_message fresh c fhandle len))
      []) [
        | send_fails sent ↦ (sent, some (minus_one, buffer))
        | send_waits sent ↦ (sent, none)
        | sent_all sent ↦ (sent, read_file (store_int p.server_answer 0 (pos 0)) buffer p.replies)
      ]

-- `closes` is whether both of its `close` calls succeed.
unfoldable pub tfs_shutdown_after_all_closed :
    Pipes → Bool → Mem → Client → List ℕ × Option (ℤ × Client)
tfs_shutdown_after_all_closed p closes fresh c =
    let (sent, r) =
      call p tfs_op_code_shutdown sizeof_shutdown_message (session_message fresh c) c in
    elim (zero_unless_error r) [
      | none ↦ (sent, none)
      | some (z, c') ↦ if closes then (sent, some (z, c')) else (sent, some (minus_one, c'))
    ]
