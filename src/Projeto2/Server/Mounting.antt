-- ===== src/Projeto2/Server/Mounting.antt =====
-- The sessions of fs/tfs_server.c: mounting, unmounting, and the lock of the table.
use projeto_sistemas_operati.Projeto2.Server.Workers.{
  message_of, with_sessions, send, reply, worker_mount, dispatch, thread_round, mount_client,
  worker_unmount, ServerState,
}
use projeto_sistemas_operati.Projeto2.Server.{
  session_of, sizeof_mount_message, tfs_op_code_mount, request, max_clients, Sessions, take_session,
}
use projeto_sistemas_operati.Projeto2.Api.{Locking}
use projeto_sistemas_operati.Memory.{Mem}
use projeto_sistemas_operati.Base.{
  update_ne, update-update, find_first-IsFirst, IsFirst, ◌⊎◌, ◌≢◌, inr, ◌∷◌, pos, refl,
  find_first-none, arith, update, true, Bool, inl, minus_one, ◌<◌, some, none, find_first, Option,
  Option-cases, false, ◌≡◌, ℕ, Array, ℤ,
}
use projeto_sistemas_operati.Projeto2.Types.{taken, free, is_free}
use projeto_sistemas_operati.Projeto2.Blocks.Allocation.{free_of_is_free, taken_of_is_free}
use projeto_sistemas_operati.Projeto2.Server.Requests.{load_int-request}

-- All sessions are taken; or the first free one takes the client and gets the request.
pub data Takes (fresh message : Mem) (fdc : ℤ) (s : Sessions) (r : Option ℕ × Sessions)
    : Type 0 where
  all_taken :
      r ≡ (none, s)
      → ((i : ℕ) → i < max_clients → s.freesession_entries i ≡ taken)
      → Takes fresh message fdc s r
  took :
      (i : ℕ)
      → i < max_clients
      → s.freesession_entries i ≡ free
      → ((j : ℕ) → j < i → s.freesession_entries j ≡ taken)
      → r ≡ (
        some i,
        record s {
          freesession_entries = update s.freesession_entries i taken;
          session_table = update s.session_table i (record {
            client_fd = fdc;
            thread_buffer = some (request fresh tfs_op_code_mount sizeof_mount_message message);
          });
        },
      )
      → Takes fresh message fdc s r

take_session-Takes :
    (fresh message : Mem) (fdc : ℤ) (s : Sessions)
    → Takes fresh message fdc s (take_session fresh message fdc s)
unfolding take_session
take_session-Takes fresh message fdc s =
    elim (Option-cases (find_first (λ i. is_free (s.freesession_entries i)) max_clients 0)) [
      | inl e ↦ all_taken (rw (e, take_session)) (λ i lt.
          taken_of_is_free _ (find_first-none _ max_clients 0 e i (omega arith) (omega arith)))
      | inr (i, e) ↦
          (let first : IsFirst _ max_clients 0 i = find_first-IsFirst _ max_clients 0 i e in
            took i (omega (arith, first.below)) (free_of_is_free _ first.passes)
              (λ j lt. taken_of_is_free _ (first.least j (omega arith) lt)) (rw (e, take_session)))
    ]

-- The session `i` taken by a client.
abbrev pub with_client : ServerState → ℤ → ℕ → Option Mem → ServerState
with_client s fdc i buffer =
    with_sessions
      (record (s.sessions) {
        freesession_entries = update s.sessions.freesession_entries i taken;
        session_table =
            update s.sessions.session_table i (record { client_fd = fdc; thread_buffer = buffer });
      })
      s

tells_client :
    (l : Locking) (content : Array ℕ) (fresh message : Mem) (fdc : ℤ) (s : ServerState) (i : ℕ)
    → thread_round l true content i
        (with_client s fdc i (some (request fresh tfs_op_code_mount sizeof_mount_message message)))
      ≡ some (record (with_client s fdc i none) { sent = reply fdc (pos i) ∷ s.sent })
unfolding thread_round dispatch worker_mount
tells_client l content fresh message fdc s i =
    let buffer : Mem = request fresh tfs_op_code_mount sizeof_mount_message message in
    let told : dispatch l true content i buffer (with_client s fdc i (some buffer))
        ≡ some (record (with_client s fdc i (some buffer)) { sent = reply fdc (pos i) ∷ s.sent }) =
      rw (load_int-request fresh tfs_op_code_mount sizeof_mount_message message (omega arith))
        (ground arith) in
    ground (arith, told, update-update s.sessions.session_table i)

-- A client has the session `i`, which was the first free one, and has been told so.
pub record Mounted (s : ServerState) (fdc : ℤ) (i : ℕ) (r : Option ServerState) : Type 0 where
  pub below : i < max_clients
  pub was_free : s.sessions.freesession_entries i ≡ free
  pub lowest : (j : ℕ) → j < i → s.sessions.freesession_entries j ≡ taken
  pub done : ServerState
  pub returns : r ≡ some done
  pub file_system : done.tfs ≡ s.tfs
  pub told : done.sent ≡ reply fdc (pos i) ∷ s.sent
  pub client : (done.sessions.session_table i).client_fd ≡ fdc
  pub idle : (done.sessions.session_table i).thread_buffer ≡ none
  pub in_use : done.sessions.freesession_entries ≡ update s.sessions.freesession_entries i taken
  pub others : (j : ℕ) → i ≢ j → done.sessions.session_table j ≡ s.sessions.session_table j

module _ (l : Locking) (content : Array ℕ) (fresh message : Mem) (fdc : ℤ) (s : ServerState)
    (unlocked : s.sessions.table_lock ≡ false) where
  -- Where table_lock is not held, the message is read and the client's pipe is open, mount_client
  -- returns 0: either every session is taken and the client is told -1; or the first free session
  -- takes the client, and its thread then tells the client the number of the session and waits for
  -- requests. The writes to the client succeed.
  pub mount_client-Mounted :
      ((mount_client fresh message fdc true s ≡ some (pos 0, send (reply fdc minus_one) s))
        × ((i : ℕ) → i < max_clients → s.sessions.freesession_entries i ≡ taken))
      ⊎ ((i : ℕ) × (t : ServerState) × (mount_client fresh message fdc true s ≡ some (pos 0, t))
          × Mounted s fdc i (thread_round l true content i t))
  unfolding mount_client
  mount_client-Mounted = elim (take_session-Takes fresh message fdc s.sessions) [
    | all_taken e all ↦ inl (ground (arith, unlocked, e), all)
    | took i lt f low e ↦ inr (
      i,
      with_client s fdc i (some (request fresh tfs_op_code_mount sizeof_mount_message message)),
      ground (arith, unlocked, e),
      record {
        below = lt;
        was_free = f;
        lowest = low;
        done = record (with_client s fdc i none) { sent = reply fdc (pos i) ∷ s.sent };
        returns = tells_client l content fresh message fdc s i;
        file_system = refl;
        told = refl;
        client = ground arith;
        idle = ground arith;
        in_use = refl;
        others = λ j ne. update_ne s.sessions.session_table i j _ ne;
      },
    )
  ]

-- Where table_lock is not held and the write of an unmounting fails, worker_unmount returns with
-- table_lock held; mount_client, which a mounting comes to once its message is read and the
-- client's pipe is open, never returns then.
pub worker_unmount-blocks :
    (buffer : Mem) (s : ServerState)
    → s.sessions.table_lock ≡ false
    → (t : ServerState) × (worker_unmount false buffer s ≡ some (minus_one, t))
      × ((fresh message : Mem) (fdc : ℤ) (written : Bool)
          → mount_client fresh message fdc written t ≡ none)
unfolding worker_unmount mount_client
worker_unmount-blocks buffer s unheld =
    let i : ℕ = session_of (message_of buffer) in
    (
      with_sessions
          (record (s.sessions) {
            freesession_entries = update s.sessions.freesession_entries i free;
            table_lock = true;
          })
          s,
      ground (arith, unheld),
      λ fresh message fdc written. refl,
    )
