-- ===== src/Projeto2/Server/Requests.antt =====
-- A request that the main loop of fs/tfs_server.c leaves for a session, and what its thread does
-- with it.
use projeto_sistemas_operati.Projeto2.Api.{tfs_close, tfs_open, Tfs, Locking}
use projeto_sistemas_operati.Memory.{
  load_int-store_int, sizeof_int, memcpy_outside, to_word, store_int, memcpy_inside, load_int-ext,
  load_int, cstring_at, Mem,
}
use projeto_sistemas_operati.Projeto2.Server.Workers.{
  worker_close, fd_of, reply, Reply, message_of, worker_open, thread_round, with_sessions, dispatch,
  ServerState,
}
use projeto_sistemas_operati.Base.{
  ap, ◌∷◌, inl, ◌≢◌, ◌∙◌, none, refl, zero, some, arith, true, Option, suc, pos, ◌≡◌, ◌^◌, List,
  ◌<◌, ◌+◌, ◌≤◌, Array, ℕ,
}
use projeto_sistemas_operati.Projeto2.Server.{
  name_reach, sizeof_close_message, tfs_op_code_close, sizeof_shutdown_message,
  tfs_op_code_shutdown, set_buffer, sizeof_open_message, tfs_op_code_open, post, session_of,
  request,
}

pub cstring_at-ext :
    (n : ℕ) (m m' : Mem) (a : ℕ)
    → ((j : ℕ) → a ≤ j → j < a + n → m j ≡ m' j)
    → cstring_at n m a ≡ cstring_at n m' a
unfolding cstring_at
cstring_at-ext zero m m' a same = refl
cstring_at-ext (suc n) m m' a same =
    let head : m a ≡ m' a = same a (omega arith) (omega arith) in
    let rest : cstring_at n m (a + 1) ≡ cstring_at n m' (a + 1) =
      cstring_at-ext n m m' (a + 1) (λ j lo hi. same j (omega (arith, lo)) (omega (arith, hi))) in
    ground (arith, head, rest)

module _ (fresh : Mem) (opcode size : ℕ) (message : Mem) where
  message_of-request :
      (k : ℕ) → k < size → message_of (request fresh opcode size message) k ≡ message k
  unfolding request
  message_of-request k lt =
      memcpy_inside (store_int fresh 0 (pos opcode)) sizeof_int message 0 size (sizeof_int + k)
        (omega arith) (omega (arith, lt))
      ∙ ap message (omega arith)

  pub load_int-request :
      opcode < 2 ^ 31 → load_int (request fresh opcode size message) 0 ≡ pos opcode
  unfolding request
  load_int-request small =
      load_int-ext (request fresh opcode size message) (store_int fresh 0 (pos opcode)) 0
        (λ j lo hi.
          memcpy_outside (store_int fresh 0 (pos opcode)) sizeof_int message 0 size j
            (inl (omega (arith, hi))))
      ∙ load_int-store_int fresh 0 (pos opcode) small

  pub load_int-message_of :
      (a : ℕ)
      → a + 4 ≤ size
      → load_int (message_of (request fresh opcode size message)) a ≡ load_int message a
  load_int-message_of a le =
      load_int-ext (message_of (request fresh opcode size message)) message a
        (λ j lo hi. message_of-request j (omega (arith, le, hi)))

  pub cstring_at-message_of :
      (n a : ℕ)
      → a + n ≤ size
      → cstring_at n (message_of (request fresh opcode size message)) a ≡ cstring_at n message a
  cstring_at-message_of n a le =
      cstring_at-ext n (message_of (request fresh opcode size message)) message a
        (λ j lo hi. message_of-request j (omega (arith, le, hi)))

-- The thread of the session `i` has served a request: the file system is `t`, the replies are
-- `sent`, no request is left, the other sessions and the client are as before.
pub record Serves (s : ServerState) (i : ℕ) (t : Tfs) (sent : List Reply) (r : Option ServerState)
    : Type 0 where
  pub done : ServerState
  pub returns : r ≡ some done
  pub file_system : done.tfs ≡ t
  pub replies : done.sent ≡ sent
  pub cleared : (done.sessions.session_table i).thread_buffer ≡ none
  pub client : (done.sessions.session_table i).client_fd ≡ (s.sessions.session_table i).client_fd
  pub others : (j : ℕ) → i ≢ j → done.sessions.session_table j ≡ s.sessions.session_table j
  pub in_use : done.sessions.freesession_entries ≡ s.sessions.freesession_entries

-- The state with a request left by `post`.
abbrev pub posted : Mem → ℕ → ℕ → Mem → ServerState → ServerState
posted fresh opcode size message s = with_sessions (post fresh opcode size message s.sessions) s

module _ (l : Locking) (content : Array ℕ) (fresh message : Mem) (s : ServerState) where
  abbrev i : ℕ
  i = session_of message

  served :
      (opcode size : ℕ) (t : Tfs) (sent : List Reply)
      → dispatch l true content i
          (request fresh opcode size message)
          (posted fresh opcode size message s)
        ≡ some (record (posted fresh opcode size message s) { tfs = t; sent = sent })
      → Serves s i t sent (thread_round l true content i (posted fresh opcode size message s))
  unfolding thread_round post
  served opcode size t sent e =
      let after : ServerState = record (posted fresh opcode size message s) {
        tfs = t;
        sent = sent;
      } in
      record {
        done = with_sessions (set_buffer after.sessions i none) after;
        returns = ground (arith, e);
        file_system = refl;
        replies = refl;
        cleared = ground arith;
        client = ground arith;
        others = λ j ne. ground (arith, ne);
        in_use = refl;
      }

  -- The request of an opening is served with the name and the flags of the message: the thread of
  -- the session calls `tfs_open` on them and replies to the session's client with its result. The
  -- request is cleared, and the other sessions are as before.
  pub thread_round-open :
      let (outcome, t) =
        tfs_open l (cstring_at name_reach message 4) (to_word (load_int message 44)) s.tfs in
      Serves s i t (reply (fd_of s i) outcome ∷ s.sent) (
        thread_round l true content i (posted fresh tfs_op_code_open sizeof_open_message message s))
  unfolding dispatch worker_open post
  thread_round-open = served tfs_op_code_open sizeof_open_message _ _ (
      rw
        (
          load_int-request fresh tfs_op_code_open sizeof_open_message message (omega arith),
          load_int-message_of fresh tfs_op_code_open sizeof_open_message message 0 (omega arith),
          load_int-message_of fresh tfs_op_code_open sizeof_open_message message 44 (omega arith),
          cstring_at-message_of fresh tfs_op_code_open sizeof_open_message message name_reach 4
              (omega arith),
        )
        (ground arith))

  -- The request of a closing is served with the handle of the message: the thread of the session
  -- calls `tfs_close` on it and replies to the session's client with its result. The request is
  -- cleared, and the other sessions are as before.
  pub thread_round-close :
      let (outcome, t) = tfs_close l (load_int message 4) s.tfs in
      Serves s i t (reply (fd_of s i) outcome ∷ s.sent) (
        thread_round l true content i
          (posted fresh tfs_op_code_close sizeof_close_message message s))
  unfolding dispatch worker_close post
  thread_round-close = served tfs_op_code_close sizeof_close_message _ _ (
      rw
        (
          load_int-request fresh tfs_op_code_close sizeof_close_message message (omega arith),
          load_int-message_of fresh tfs_op_code_close sizeof_close_message message 0 (omega arith),
          load_int-message_of fresh tfs_op_code_close sizeof_close_message message 4 (omega arith),
        )
        (ground arith))

  -- The request of a shutdown is cleared by the thread of its session, and nothing else happens: the
  -- file system is as before, and the client gets no reply.
  pub thread_round-shutdown : Serves s i s.tfs s.sent (
      thread_round l true content i
        (posted fresh tfs_op_code_shutdown sizeof_shutdown_message message s))
  unfolding dispatch post
  thread_round-shutdown = served tfs_op_code_shutdown sizeof_shutdown_message _ _ (
      rw (load_int-request fresh tfs_op_code_shutdown sizeof_shutdown_message message (omega arith))
        (ground arith))
