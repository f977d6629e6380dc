-- ===== src/Projeto2/Server/Main.antt =====
-- fs/tfs_server.c: `close_all_pipes` and one round of the loop of `main`.

use projeto_sistemas_operati.Base.{
  refl, subst, ◌≤◌, true, length, Array, arith, ◌<◌, ◌⊎◌, ◌==◌, minus_one, ◌+◌, ◌≡◌, ◌-◌,
  is_minus_one, pos, ltb, if◌then◌else◌, Bool, ℕ, Option, List, ℤ, [], ◌∷◌, zero, suc, none, some,
}
use projeto_sistemas_operati.Projeto2.Server.{
  read_loop, read_message, request_server, name_reach, max_pipename_size, store_bytes,
  sizeof_open_message, tfs_shutdown_server, tfs_read_server, tfs_op_code_read, tfs_write_server,
  tfs_op_code_write, tfs_close_server, tfs_op_code_close, tfs_open_server, tfs_op_code_open,
  tfs_unmount, tfs_op_code_unmount, tfs_op_code_shutdown, tfs_op_code_mount, Delivery, max_clients,
  Sessions, read_error, bytes,
}
use projeto_sistemas_operati.Projeto2.Server.Workers.{
  thread_round, fd_of, reply, tfs_mount, with_sessions, ServerState,
}
use projeto_sistemas_operati.Memory.{load_int, to_word, cstring_at, Mem}
use projeto_sistemas_operati.Projeto2.Types.{is_free}
use projeto_sistemas_operati.Projeto2.Api.{tfs_open, Locking}
use projeto_sistemas_operati.Projeto2.Server.Requests.{Serves}
use projeto_sistemas_operati.Projeto2.Server.Arrival.{tfs_open_server-Serves}

-- The sessions from `i` on, `n` of them: -1 where a `close` fails. `closes` is whether `close`
-- succeeds; the list has the descriptors that were closed, the last first.
unfoldable pub close_clients : (ℤ → Bool) → Sessions → ℕ → ℕ → List ℤ → ℤ × List ℤ
close_clients closes s zero i closed = (pos 0, closed)
close_clients closes s (suc n) i closed =
    let fd = (s.session_table i).client_fd in
    let after_close = close_clients closes s n (i + 1) (fd ∷ closed) in
    let after_skip = close_clients closes s n (i + 1) closed in
    if is_free (s.freesession_entries i)
    then (if closes fd then after_close else (minus_one, closed))
    else after_skip

unfoldable pub close_all_pipes : (ℤ → Bool) → ℤ → Sessions → ℤ × List ℤ
close_all_pipes closes fd1 s =
    let (r, closed) = close_clients closes s max_clients 0 [] in
    if is_minus_one r
    then (minus_one, closed)
    else if closes fd1
    then (pos 0, fd1 ∷ closed)
    else (minus_one, closed)

-- The server goes on, is in a call of which nothing more is known, or returns -1 after closing the
-- pipes.
pub data Round : Type 0 where
  goes_on : ServerState → Round
  waits : Round
  returns_error : ServerState → List ℤ → Round

-- What `read` leaves in the buffer, which was cleared before, and `atoi` of it.
unfoldable pub op_code_of : List ℕ → ℕ
op_code_of [] = 0
op_code_of (c ∷ cs) = if ltb c 48 then 0 else if ltb c 58 then c - 48 else 0

-- What `main` does with the result of a request's function.
unfoldable pub after_request : (ℤ → Bool) → ℤ → Option (ℤ × ServerState) → Round
after_request closes fd1 none = waits
after_request closes fd1 (some (r, s)) =
    if is_minus_one r then returns_error s (close_all_pipes closes fd1 s.sessions).1 else goes_on s

-- The functions that touch the sessions only.
abbrev on_sessions : ServerState → Option (ℤ × Sessions) → Option (ℤ × ServerState)
on_sessions s none = none
on_sessions s (some (r, t)) = some (r, with_sessions t s)

-- One round: `first` is what the reading of the code gives, `rs` what the pipe delivers after it.
unfoldable pub main_round :
    (ℤ → Bool)
    → (Mem → ℤ)
    → Bool
    → ℤ
    → Mem
    → Mem
    → Mem
    → Delivery
    → List Delivery
    → ServerState
    → Round
main_round closes open_pipe written fd1 fresh message content read_error rs s = returns_error s []
main_round closes open_pipe written fd1 fresh message content (bytes cs) rs s =
    let op_code = op_code_of cs in
    let finish = after_request closes fd1 in
    if op_code == tfs_op_code_mount
    then finish (tfs_mount open_pipe fresh message rs written s)
    else if op_code == tfs_op_code_unmount
    then finish (on_sessions s (tfs_unmount fresh message rs s.sessions))
    else if op_code == tfs_op_code_open
    then finish (on_sessions s (tfs_open_server fresh message rs s.sessions))
    else if op_code == tfs_op_code_close
    then finish (on_sessions s (tfs_close_server fresh message rs s.sessions))
    else if op_code == tfs_op_code_write
    then finish (on_sessions s (tfs_write_server fresh message content rs s.sessions))
    else if op_code == tfs_op_code_read
    then finish (on_sessions s (tfs_read_server fresh message rs s.sessions))
    else if op_code == tfs_op_code_shutdown
    then finish (on_sessions s (tfs_shutdown_server fresh message rs s.sessions))
    else goes_on s

-- A code and then a pipe that fails, from b'1' on.
main_round-fails :
    (closes : ℤ → Bool) (open_pipe : Mem → ℤ) (written : Bool) (fd1 : ℤ)
    (fresh message content : Mem) (n : ℕ) (rs : List Delivery) (s : ServerState)
    → n < 7
    → main_round closes open_pipe written fd1 fresh message content
        (bytes ((49 + n) ∷ []))
        (read_error ∷ rs)
        s
      ≡ returns_error s (close_all_pipes closes fd1 s.sessions).1
unfolding main_round op_code_of after_request tfs_mount tfs_unmount tfs_open_server tfs_close_server
    tfs_write_server tfs_read_server tfs_shutdown_server request_server read_message read_loop
main_round-fails closes open_pipe written fd1 fresh message content zero rs s lt = refl
main_round-fails closes open_pipe written fd1 fresh message content (suc zero) rs s lt = refl
main_round-fails closes open_pipe written fd1 fresh message content (suc (suc zero)) rs s lt = refl
main_round-fails closes open_pipe written fd1 fresh message content (suc (suc (suc zero))) rs s lt =
    refl
main_round-fails closes open_pipe written fd1 fresh message content (suc (suc (suc (suc zero)))) rs
      s lt =
    refl
main_round-fails closes open_pipe written fd1 fresh message content
      (suc (suc (suc (suc (suc zero))))) rs s lt =
    refl
main_round-fails closes open_pipe written fd1 fresh message content
      (suc (suc (suc (suc (suc (suc zero)))))) rs s lt =
    refl
main_round-fails closes open_pipe written fd1 fresh message content
      (suc (suc (suc (suc (suc (suc (suc n))))))) rs s lt =
    absurd (omega (arith, lt))

-- One round of the loop of main by what the pipe delivers for the code: no byte, as at its end, or
-- a byte below '1' or above '7', and the loop goes on with everything as it was; a byte from '1'
-- to '7', and a request is read: where the next read of the pipe fails, main closes the pipes and
-- returns -1, with the sessions and the file system as they were.
pub main_round-codes :
    (closes : ℤ → Bool) (open_pipe : Mem → ℤ) (written : Bool) (fd1 : ℤ)
    (fresh message content : Mem) (c : ℕ) (rs : List Delivery) (s : ServerState)
    → let round = λ (cs : List ℕ) (ds : List Delivery).
      main_round closes open_pipe written fd1 fresh message content (bytes cs) ds s in
      (round [] rs ≡ goes_on s)
      × ((c < b'1') ⊎ (b'7' < c) → round (c ∷ []) rs ≡ goes_on s)
      × (b'1' ≤ c
          → c ≤ b'7'
          → round (c ∷ []) (read_error ∷ rs)
            ≡ returns_error s (close_all_pipes closes fd1 s.sessions).1)
unfolding main_round op_code_of
main_round-codes closes open_pipe written fd1 fresh message content c rs s = (
  ground arith,
  (λ other. ground (arith, other)),
  (λ lo hi.
      subst
        (λ k.
          main_round closes open_pipe written fd1 fresh message content (bytes (k ∷ []))
            (read_error ∷ rs) s
          ≡ returns_error s (close_all_pipes closes fd1 s.sessions).1)
        {x = 49 + (c - 49)} {y = c} (omega (arith, lo, hi))
        (main_round-fails closes open_pipe written fd1 fresh message content (c - 49) rs s
          (omega (arith, lo, hi)))),
)

-- Where the pipe delivers the code of an opening and then its whole message, with the number of a
-- session below 20 and a NUL within its name, the loop goes on, and the thread of that session then
-- calls tfs_open with the name and the flags of the message, replies to the session's client with the
-- result, clears the request and leaves the other sessions as they are. The write to the client
-- succeeds.
pub main_round-open :
    (closes : ℤ → Bool) (open_pipe : Mem → ℤ) (written : Bool) (fd1 : ℤ)
    (fresh scratch content : Mem) (bs : List ℕ) (rest : List Delivery) (l : Locking)
    (local_array : Array ℕ) (s : ServerState) (i k : ℕ)
    → let message = store_bytes scratch 0 bs in
      load_int message 0 ≡ pos i
      → i < max_clients
      → length bs ≡ sizeof_open_message
      → k < max_pipename_size
      → message (4 + k) ≡ 0
      → let (outcome, t) =
          tfs_open l (cstring_at name_reach message 4) (to_word (load_int message 44)) s.tfs in
        (w : ServerState) × (main_round closes open_pipe written fd1 fresh scratch content
            (bytes (b'3' ∷ []))
            (bytes bs ∷ rest)
            s
          ≡ goes_on w)
        × Serves s i t (reply (fd_of s i) outcome ∷ s.sent) (thread_round l true local_array i w)
unfolding main_round op_code_of after_request
main_round-open closes open_pipe written fd1 fresh scratch content bs rest l local_array s i k id
      below e short nul =
    let (u, handled, serves) =
      tfs_open_server-Serves l local_array fresh scratch bs rest s i id below k e short nul in
    (with_sessions u s, rw handled, serves)
