-- ===== src/Projeto2/Server/Start.antt =====
-- fs/tfs_server.c: `main` up to its loop, and `worker_shutdown`.
use projeto_sistemas_operati.Base.{
  inr, sym, inl, Array, refl, zero, ap, ◌∙◌, is_zero, true, not, ℕ_discrete, is_nonneg, pos, ◌+◌,
  ◌<◌, update, ltb, false, some, suc, none, minus_one, List, Option, arith, Bool, ◌≡◌, ◌≤◌,
  if◌then◌else◌, ℕ, ℤ, is_minus_one,
}
use projeto_sistemas_operati.Projeto2.Server.{session_of, max_clients, SessionEntry, Sessions}
use projeto_sistemas_operati.Projeto2.Server.Workers.{
  thread_round, mount_client, message_of, fd_of, reply, with_sessions, send, ServerState,
}
use projeto_sistemas_operati.Projeto2.Api.{Locking, Setup, tfs_init}
use projeto_sistemas_operati.Projeto2.Invariant.{TfsInv}
use projeto_sistemas_operati.Projeto2.Api.Counter.{tfs_init-TfsInv}
use projeto_sistemas_operati.Memory.{Mem}
use projeto_sistemas_operati.Projeto2.Types.{free}
use projeto_sistemas_operati.Projeto2.Server.Main.{close_all_pipes}
use projeto_sistemas_operati.Projeto2.Server.Mounting.{mount_client-Mounted, Mounted}
use projeto_sistemas_operati.Projeto2.Api.Shutdown.{destroy_result}

-- What the calls of the system return to `main`; `garbage` is what the local `new_session` holds in
-- `client_fd`, which is never set there. The `unlink` and `mkfifo` of the pipe have no other effect.
pub record StartCalls : Type 0 where
  pub table_mutex_init : ℤ
  pub cond_init : ℕ → ℤ
  pub mutex_init : ℕ → ℤ
  pub thread_create : ℕ → ℤ
  pub garbage : ℕ → ℤ
  pub opened : ℤ
  pub setup : Setup

-- `main` has returned, or it is before its loop, with the descriptor of its pipe.
pub data Started : Type 0 where
  exits : ℤ → Started
  serving : ℤ → ServerState → Started

-- A session that is new in the table.
abbrev pub new_session : StartCalls → ℕ → SessionEntry
new_session c i = record { client_fd = c.garbage i; thread_buffer = none }

-- The sessions from `i` on, `n` of them; `none` where `main` returns -1.
unfoldable pub init_sessions : StartCalls → ℕ → ℕ → Sessions → Option Sessions
init_sessions c zero i s = some s
init_sessions c (suc n) i s =
    let rest = init_sessions c n (i + 1) (record s {
      session_table = update s.session_table i (new_session c i);
      freesession_entries = update s.freesession_entries i free;
    }) in
    if not (is_zero (c.cond_init i))
    then none
    else if not (is_zero (c.mutex_init i))
    then none
    else if is_minus_one (c.thread_create i)
    then none
    else rest

-- `main` after the loop over the sessions.
unfoldable pub open_server : StartCalls → ℕ → ServerState → Started
open_server c argc s =
    let (r, t) = tfs_init c.setup s.tfs in
    if ltb argc 2
    then exits (pos 1)
    else if is_nonneg c.opened
    then (if is_minus_one r then exits minus_one else serving c.opened (record s { tfs = t }))
    else exits minus_one

unfoldable pub main_start : StartCalls → ℕ → ServerState → Started
main_start c argc s =
    if is_minus_one c.table_mutex_init
    then exits minus_one
    else elim (init_sessions c max_clients 0 (record (s.sessions) { table_lock = false })) [
      | none ↦ exits minus_one
      | some t ↦ open_server c argc (with_sessions t s)
    ]

-- It returns -1, or the process ends, with the descriptors that were closed, the last first.
pub data Ended : Type 0 where
  returned : ℤ → ServerState → Ended
  process_exits : ServerState → List ℤ → Ended

-- The worker once the waiting of `tfs_destroy_after_all_closed` is over; `server_pipe_fd` is the
-- static variable.
unfoldable pub worker_shutdown : (ℤ → Bool) → ℤ → Locking → Bool → Mem → ServerState → Ended
worker_shutdown closes server_pipe_fd l written buffer s =
    let told = send (reply (fd_of s (session_of (message_of buffer))) (destroy_result l)) s in
    if written
    then process_exits told (close_all_pipes closes server_pipe_fd s.sessions).1
    else returned minus_one s

-- The calls succeed; `pthread_create` may fail, with an error number, which is not -1.
pub record StartSucceeds (c : StartCalls) : Type 0 where
  pub table_lock_made : is_minus_one c.table_mutex_init ≡ false
  pub conds_made : (i : ℕ) → c.cond_init i ≡ pos 0
  pub mutexes_made : (i : ℕ) → c.mutex_init i ≡ pos 0
  pub threads_made : (i : ℕ) → is_minus_one (c.thread_create i) ≡ false
  pub pipe_opened : is_nonneg c.opened ≡ true
  pub setup_mutex : is_zero c.setup.mutex_init ≡ true
  pub setup_cond : is_zero c.setup.cond_init ≡ true

-- The sessions from `i` on, `n` of them, are free and without a request, those below `i` as before.
record InitSessions (s : Sessions) (n i : ℕ) (r : Option Sessions) : Type 0 where
  pub table : Sessions
  pub returns : r ≡ some table
  pub now_free : (j : ℕ) → i ≤ j → j < i + n → table.freesession_entries j ≡ free
  pub no_request : (j : ℕ) → i ≤ j → j < i + n → (table.session_table j).thread_buffer ≡ none
  pub entries_before : (j : ℕ) → j < i → table.freesession_entries j ≡ s.freesession_entries j
  pub table_before : (j : ℕ) → j < i → table.session_table j ≡ s.session_table j
  pub same_lock : table.table_lock ≡ s.table_lock

module _ (c : StartCalls) (ok : StartSucceeds c) where
  init_sessions-InitSessions : (n i : ℕ) (s : Sessions) → InitSessions s n i (init_sessions c n i s)
  unfolding init_sessions
  init_sessions-InitSessions zero i s = record {
    table = s;
    returns = refl;
    now_free = λ j lo hi. absurd (omega (arith, lo, hi));
    no_request = λ j lo hi. absurd (omega (arith, lo, hi));
    entries_before = λ j lt. refl;
    table_before = λ j lt. refl;
    same_lock = refl;
  }
  init_sessions-InitSessions (suc n) i s =
      let t : Sessions = record s {
        session_table = update s.session_table i (new_session c i);
        freesession_entries = update s.freesession_entries i free;
      } in
      let rest : InitSessions t n (i + 1) (init_sessions c n (i + 1) t) =
        init_sessions-InitSessions n (i + 1) t in
      record {
        table = rest.table;
        returns = rw (ok.conds_made i, ok.mutexes_made i, ok.threads_made i) rest.returns;
        now_free = λ j lo hi. elim (ℕ_discrete i j) [
          | yes e ↦ rest.entries_before j (omega (arith, e)) ∙ ground (arith, e)
          | no ne ↦ rest.now_free j (omega (arith, lo, ne)) (omega (arith, hi))
        ];
        no_request = λ j lo hi. elim (ℕ_discrete i j) [
          | yes e ↦
              ap (λ (x : SessionEntry). x.thread_buffer) (rest.table_before j (omega (arith, e)))
              ∙ ground (arith, e)
          | no ne ↦ rest.no_request j (omega (arith, lo, ne)) (omega (arith, hi))
        ];
        entries_before = λ j lt. rest.entries_before j (omega (arith, lt)) ∙ ground (arith, lt);
        table_before = λ j lt. rest.table_before j (omega (arith, lt)) ∙ ground (arith, lt);
        same_lock = rest.same_lock;
      }

-- The server before its loop: every session is free and without a request, the tables are well
-- formed, and `table_lock` is not held.
pub record Ready (c : StartCalls) (r : Started) : Type 0 where
  pub state : ServerState
  pub returns : r ≡ serving c.opened state
  pub file_system : TfsInv state.tfs
  pub all_free : (i : ℕ) → i < max_clients → state.sessions.freesession_entries i ≡ free
  pub no_request : (i : ℕ) → i < max_clients → (state.sessions.session_table i).thread_buffer ≡ none
  pub lock_free : state.sessions.table_lock ≡ false

module _ (c : StartCalls) (ok : StartSucceeds c) (argc : ℕ) (args : 2 ≤ argc) where
  open_server-serving :
      (s : ServerState)
      → open_server c argc s ≡ serving c.opened (record s { tfs = (tfs_init c.setup s.tfs).1 })
  unfolding open_server
  open_server-serving s =
      let (zero', inv) = tfs_init-TfsInv c.setup s.tfs ok.setup_mutex ok.setup_cond in
      ground (arith, zero', ok.pipe_opened, args)

module _ (c : StartCalls) (ok : StartSucceeds c) (argc : ℕ) (args : 2 ≤ argc)
    (s : ServerState) where
  main_start-Ready : Ready c (main_start c argc s)
  unfolding main_start
  main_start-Ready =
      let t : Sessions = record (s.sessions) { table_lock = false } in
      let made : InitSessions t max_clients 0 (init_sessions c max_clients 0 t) =
        init_sessions-InitSessions c ok max_clients 0 t in
      record {
        state = record (with_sessions made.table s) { tfs = (tfs_init c.setup s.tfs).1 };
        returns =
            rw (ok.table_lock_made, made.returns)
              (open_server-serving c ok argc args (with_sessions made.table s));
        file_system = (tfs_init-TfsInv c.setup s.tfs ok.setup_mutex ok.setup_cond).1;
        all_free = λ i lt. made.now_free i (omega arith) (omega (arith, lt));
        no_request = λ i lt. made.no_request i (omega arith) (omega (arith, lt));
        lock_free = made.same_lock;
      }

  -- Where main gets an argument, and its calls of pthread_mutex_init, pthread_cond_init and open
  -- succeed and pthread_create does not return -1, main comes to its loop with well-formed tables
  -- and open_files right, every session free and without a request. The first client to mount then
  -- gets the session 0, and a round of thread_func for it, which runs if pthread_create made the
  -- thread, tells it so; the write to the client succeeds.
  pub main_start-Mounted :
      (l : Locking) (content : Array ℕ) (fresh message : Mem) (fdc : ℤ)
      → (u t : ServerState) × (main_start c argc s ≡ serving c.opened u)
        × TfsInv u.tfs
        × ((i : ℕ)
            → i < max_clients
            → (u.sessions.freesession_entries i ≡ free)
              × ((u.sessions.session_table i).thread_buffer ≡ none))
        × (mount_client fresh message fdc true u ≡ some (pos 0, t))
        × Mounted u fdc 0 (thread_round l true content 0 t)
  main_start-Mounted l content fresh message fdc =
      let ready : Ready c (main_start c argc s) = main_start-Ready in
      let u : ServerState = ready.state in
      elim (mount_client-Mounted l content fresh message fdc u ready.lock_free) [
        | inl (e, all) ↦ absurd (cc (sym (ready.all_free 0 (omega arith)) ∙ all 0 (omega arith)))
        | inr (zero, t, e, mounted) ↦ (
          u,
          t,
          ready.returns,
          ready.file_system,
          λ i lt. (ready.all_free i lt, ready.no_request i lt),
          e,
          mounted,
        )
        | inr (suc i, t, e, mounted) ↦
            absurd (cc (sym (ready.all_free 0 (omega arith)) ∙ mounted.lowest 0 (omega arith)))
      ]
