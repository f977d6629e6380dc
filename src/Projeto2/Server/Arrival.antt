-- ===== src/Projeto2/Server/Arrival.antt =====
-- A request from the pipe of the server to the reply of the session's thread.
use projeto_sistemas_operati.Projeto2.Api.{Tfs, tfs_open, tfs_close, Locking}
use projeto_sistemas_operati.Projeto2.Server.{
  has_session, max_clients, name_reach, tfs_op_code_open, tfs_op_code_shutdown, tfs_op_code_close,
  post, max_pipename_size, bytes, sizeof_close_message, sizeof_open_message,
  sizeof_shutdown_message, tfs_open_server, tfs_shutdown_server, store_bytes, tfs_close_server,
  Sessions, Delivery, request_server,
}
use projeto_sistemas_operati.Base.{
  ap, ◌+◌, subst, arith, true, pos, some, ◌∷◌, ◌≡◌, length, ◌<◌, List, ℕ, Array,
}
use projeto_sistemas_operati.Memory.{to_word, cstring_at, load_int, Mem}
use projeto_sistemas_operati.Projeto2.Server.Workers.{
  Reply, with_sessions, fd_of, reply, thread_round, ServerState,
}
use projeto_sistemas_operati.Projeto2.Server.Requests.{
  posted, thread_round-close, thread_round-open, thread_round-shutdown, Serves,
}
use projeto_sistemas_operati.Projeto2.Server.Reading.{read_message-whole}
use projeto_sistemas_operati.Projeto2.Types.{index}

has_session-number :
    (m : Mem) (i : ℕ) → load_int m 0 ≡ pos i → i < max_clients → has_session m ≡ true
has_session-number m i id below = ground (arith, id, below)

request_server-whole :
    (opcode size : ℕ) (fresh scratch : Mem) (bs : List ℕ) (rest : List Delivery) (t : Sessions)
    → 0 < size
    → length bs ≡ size
    → has_session (store_bytes scratch 0 bs) ≡ true
    → request_server opcode size fresh scratch (bytes bs ∷ rest) t
      ≡ some (pos 0, post fresh opcode size (store_bytes scratch 0 bs) t)
unfolding request_server
request_server-whole opcode size fresh scratch bs rest t p e ok =
    rw (read_message-whole size scratch bs rest p e, ok, request_server)

Serves-session :
    (l : Locking) (content : Array ℕ) (s w : ServerState) (t : Tfs) (sent : ℕ → List Reply)
    {j i : ℕ}
    → j ≡ i
    → Serves s j t (sent j) (thread_round l true content j w)
    → Serves s i t (sent i) (thread_round l true content i w)
Serves-session l content s w t sent e =
    subst (λ k. Serves s k t (sent k) (thread_round l true content k w)) e

-- A message that one delivery brings whole, from the session `i`.
module _ (l : Locking) (content : Array ℕ) (fresh scratch : Mem) (bs : List ℕ)
    (rest : List Delivery) (s : ServerState) (i : ℕ)
    (id : load_int (store_bytes scratch 0 bs) 0 ≡ pos i) (below : i < max_clients) where
  abbrev message : Mem
  message = store_bytes scratch 0 bs

  -- Where one delivery brings the whole message of an opening, with the number of a session below
  -- 20 and a NUL within its name, tfs_open_server returns 0, and then the thread of that session
  -- calls tfs_open with the name and the flags of the message, replies to the session's client
  -- with the result, clears the request and leaves the other sessions as they are. The write to
  -- the client succeeds.
  pub tfs_open_server-Serves :
      (k : ℕ)
      → length bs ≡ sizeof_open_message
      → k < max_pipename_size
      → message (4 + k) ≡ 0
      → let (outcome, t) =
          tfs_open l (cstring_at name_reach message 4) (to_word (load_int message 44)) s.tfs in
        (u : Sessions) × (tfs_open_server fresh scratch (bytes bs ∷ rest) s.sessions
          ≡ some (pos 0, u))
        × Serves s i t
            (reply (fd_of s i) outcome ∷ s.sent)
            (thread_round l true content i (with_sessions u s))
  unfolding tfs_open_server
  tfs_open_server-Serves k e short nul = (
    _,
    request_server-whole tfs_op_code_open sizeof_open_message fresh scratch bs rest s.sessions
        (omega arith) e (has_session-number message i id below),
    (let (outcome, t) =
          tfs_open l (cstring_at name_reach message 4) (to_word (load_int message 44)) s.tfs in
        Serves-session l content s (posted fresh tfs_op_code_open sizeof_open_message message s) t
          (λ j. reply (fd_of s j) outcome ∷ s.sent) (ap index id)
          (thread_round-open l content fresh message s)),
  )

  -- Where one delivery brings the whole message of a closing, with the number of a session below 20,
  -- tfs_close_server returns 0, and then the thread of that session calls tfs_close with the handle
  -- of the message, replies to the session's client with the result, clears the request and leaves
  -- the other sessions as they are. The write to the client succeeds.
  pub tfs_close_server-Serves :
      length bs ≡ sizeof_close_message
      → let (outcome, t) = tfs_close l (load_int message 4) s.tfs in
        (u : Sessions) × (tfs_close_server fresh scratch (bytes bs ∷ rest) s.sessions
          ≡ some (pos 0, u))
        × Serves s i t
            (reply (fd_of s i) outcome ∷ s.sent)
            (thread_round l true content i (with_sessions u s))
  unfolding tfs_close_server
  tfs_close_server-Serves e = (
    _,
    request_server-whole tfs_op_code_close sizeof_close_message fresh scratch bs rest s.sessions
        (omega arith) e (has_session-number message i id below),
    (let (outcome, t) = tfs_close l (load_int message 4) s.tfs in
        Serves-session l content s (posted fresh tfs_op_code_close sizeof_close_message message s) t
          (λ j. reply (fd_of s j) outcome ∷ s.sent) (ap index id)
          (thread_round-close l content fresh message s)),
  )

  -- Where one delivery brings the whole message of a shutdown, with the number of a session below
  -- 20, tfs_shutdown_server returns 0, and then the thread of that session clears the request and
  -- does nothing else: the file system is as before, and the client gets no reply.
  pub tfs_shutdown_server-Serves :
      length bs ≡ sizeof_shutdown_message
      → (u : Sessions) × (tfs_shutdown_server fresh scratch (bytes bs ∷ rest) s.sessions
          ≡ some (pos 0, u))
        × Serves s i s.tfs s.sent (thread_round l true content i (with_sessions u s))
  unfolding tfs_shutdown_server
  tfs_shutdown_server-Serves e = (
    _,
    request_server-whole tfs_op_code_shutdown sizeof_shutdown_message fresh scratch bs rest
        s.sessions (omega arith) e (has_session-number message i id below),
    Serves-session l content s (posted fresh tfs_op_code_shutdown sizeof_shutdown_message message s)
        s.tfs (λ j. s.sent) (ap index id) (thread_round-shutdown l content fresh message s),
  )
