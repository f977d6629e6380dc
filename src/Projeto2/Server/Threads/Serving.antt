-- ===== src/Projeto2/Server/Threads/Serving.antt =====
-- From the pipe to the file system: an opening that the main loop takes up is served by the thread.
use projeto_sistemas_operati.Memory.{load_int, to_word, cstring_at, Mem}
use projeto_sistemas_operati.Projeto2.Server.Threads.{
  at_work, fills, ThreadStep, MainStep, fill_request, asleep, at_test, buffer_of, allocated,
  Threads, woken,
}
use projeto_sistemas_operati.Projeto2.Server.Workers.{
  fd_of, reply, answer, ServerState, worker_open, dispatch,
}
use projeto_sistemas_operati.Projeto2.Server.{
  max_clients, name_reach, max_pipename_size, sizeof_open_message, session_of, tfs_op_code_open,
  request,
}
use projeto_sistemas_operati.Base.{
  ◌+◌, ℤ, pos, refl, ap, inr, inl, none, ◌≤◌, false, ◌<◌, arith, ◌∷◌, ◌⊎◌, true, some, ◌∙◌, sym,
  ◌≡◌, Array, Bool, ℕ,
}
use projeto_sistemas_operati.Projeto2.Server.Threads.Runs.{
  OwnStepIn-map, OwnStepIn, Called, Local, Run,
}
use projeto_sistemas_operati.Projeto2.Server.Requests.{
  cstring_at-message_of, load_int-message_of, load_int-request,
}
use projeto_sistemas_operati.Projeto2.Api.{Tfs, tfs_open, Locking}
use projeto_sistemas_operati.Projeto2.Server.Threads.Taking.{fill_request-Local}
use projeto_sistemas_operati.Projeto2.Server.Threads.Progress.{Run-serves}
use projeto_sistemas_operati.Projeto2.Types.{index}

-- In the step from `u` to `x` the worker of an opening of `message` has called `tfs_open` on the file
-- system as it was in `u`, and has replied to the client of the session `i`, if the `write` succeeded.
pub record OpenCalled (message : Mem) (i : ℕ) (u x : Threads) : Type 0 where
  pub at_worker : u.phase i ≡ at_work
  pub locking : Locking
  pub written : Bool
  pub called :
      x.server.tfs
      ≡ (tfs_open locking
          (cstring_at name_reach message 4)
          (to_word (load_int message 44))
          u.server.tfs).1
  pub replied :
      written ≡ true
      → x.server.sent
        ≡ reply
            (fd_of u.server i)
            (tfs_open locking
              (cstring_at name_reach message 4)
              (to_word (load_int message 44))
              u.server.tfs).0
          ∷ u.server.sent
  pub sessions_same : x.server.sessions ≡ u.server.sessions

abbrev open_request : Mem → Mem → Mem
open_request fresh message = request fresh tfs_op_code_open sizeof_open_message message

-- What `answer` leaves.
answer_lem :
    (written : Bool) (fd : ℤ) (r : ℤ × Tfs) (s x : ServerState)
    → (answer written (reply fd r.0) (record s { tfs = r.1 })).1 ≡ x
    → (x.tfs ≡ r.1) × (x.sessions ≡ s.sessions) × (written ≡ true → x.sent ≡ reply fd r.0 ∷ s.sent)
answer_lem true fd r s x e = (
  ap (λ (y : ServerState). y.tfs) (sym e),
  ap (λ (y : ServerState). y.sessions) (sym e),
  λ ok. ap (λ (y : ServerState). y.sent) (sym e),
)
answer_lem false fd r s x e = (
  ap (λ (y : ServerState). y.tfs) (sym e),
  ap (λ (y : ServerState). y.sessions) (sym e),
  λ ok. absurd (cc ok),
)

-- The thread goes on once its buffer is filled.
filled-Local :
    (i : ℕ) (m b : Mem) (w : Threads)
    → buffer_of w i ≡ some b
    → (w.phase i ≡ at_test) ⊎ (w.phase i ≡ asleep)
    → Local (fill_request i m w) i at_test (some m)
unfolding woken
filled-Local i m b w full (inl p) = (fill_request-Local i w m (p, full)).0
filled-Local i m b w full (inr p) = (fill_request-Local i w m (p, full)).0

module _ (fresh message : Mem) where
  dispatch-open :
      (l : Locking) (written : Bool) (content : Array ℕ) (i : ℕ) (s : ServerState)
      → let (outcome, t) =
          tfs_open l (cstring_at name_reach message 4) (to_word (load_int message 44)) s.tfs in
        dispatch l written content i (open_request fresh message) s
        ≡ some
            (answer written (reply (fd_of s (session_of message)) outcome) (record s { tfs = t })).1
  unfolding dispatch worker_open
  dispatch-open l written content i s =
      rw
        (
          load_int-request fresh tfs_op_code_open sizeof_open_message message (omega arith),
          load_int-message_of fresh tfs_op_code_open sizeof_open_message message 0 (omega arith),
          load_int-message_of fresh tfs_op_code_open sizeof_open_message message 44 (omega arith),
          cstring_at-message_of fresh tfs_op_code_open sizeof_open_message message name_reach 4
              (omega arith),
        )
        (ground arith)

  answered :
      (l : Locking) (written : Bool) (content : Array ℕ) (i : ℕ) (before after : ServerState)
      → dispatch l written content i (open_request fresh message) before ≡ some after
      → let (outcome, t) =
          tfs_open l (cstring_at name_reach message 4) (to_word (load_int message 44)) before.tfs in
        (answer written
          (reply (fd_of before (session_of message)) outcome)
          (record before { tfs = t })).1
        ≡ after
  answered l written content i before after e =
      cc (sym (dispatch-open l written content i before) ∙ e)

  module _ (i : ℕ) (id : load_int message 0 ≡ pos i) (u x : Threads) where
    Called-open : Called i (open_request fresh message) u x → OpenCalled message i u x
    Called-open h =
        let same = answered h.locking h.written h.content i u.server x.server h.worked_to in
        let (tfs_same, sessions_same, sent_same) =
          answer_lem h.written (fd_of u.server (session_of message))
            (tfs_open h.locking (cstring_at name_reach message 4) (to_word (load_int message 44))
              u.server.tfs)
            u.server x.server same in
        record {
          at_worker = h.at_worker;
          locking = h.locking;
          written = h.written;
          called = tfs_same;
          replied = λ ok.
              sent_same ok
              ∙ ap
                  (λ j.
                    reply (fd_of u.server j)
                      (tfs_open h.locking (cstring_at name_reach message 4)
                        (to_word (load_int message 44)) u.server.tfs).0
                    ∷ u.server.sent)
                  (ap index id);
          sessions_same = sessions_same;
        }

  -- Where the main loop is about to fill the buffer of a session below 20 with an opening, whose
  -- message has the number of this session and a NUL within its name, and the thread of the
  -- session waits or is before its test of thread_buffer: the main loop can make that step, and in
  -- every run of the main loop and of all threads after it in which the main loop takes up nothing
  -- else for the session, the thread can make a step as long as it has made fewer than three and
  -- table_lock is not held; once it has made two, one of its steps in this run was that of the
  -- worker, which called tfs_open with the name and the flags of the message on the file system as
  -- it was before that step, left the sessions as they were, and, if its write succeeded, replied
  -- to the session's client with the result; once it has made three, thread_buffer is NULL.
  pub fill_request-serves :
      (l : Locking) (i k n : ℕ) (b : Mem) (w u : Threads)
      → load_int message 0 ≡ pos i
      → i < max_clients
      → k < max_pipename_size
      → message (4 + k) ≡ 0
      → w.main ≡ allocated i (open_request fresh message)
      → buffer_of w i ≡ some b
      → (w.phase i ≡ at_test) ⊎ (w.phase i ≡ asleep)
      → (r : Run i (fill_request i (open_request fresh message) w) n u)
      → MainStep i w (fill_request i (open_request fresh message) w)
        × (n < 3 → u.server.sessions.table_lock ≡ false → (x : Threads) × ThreadStep i u x)
        × (2 ≤ n → OwnStepIn (OpenCalled message i) r)
        × (3 ≤ n → buffer_of u i ≡ none)
  fill_request-serves l i k n b w u id below short nul main_at full awake r =
      let m : Mem = open_request fresh message in
      let (steps, calls, over) =
        Run-serves l i n m (fill_request i m w) u (filled-Local i m b w full awake) r in
      (
        fills m main_at refl,
        steps,
        λ le. OwnStepIn-map r (λ y z. Called-open i id y z) (calls le),
        over,
      )
