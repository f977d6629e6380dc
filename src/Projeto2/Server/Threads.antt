-- ===== src/Projeto2/Server/Threads.antt =====
-- fs/tfs_server.c: the main loop and the threads of the sessions as steps. The main loop stores a
-- request and signals without the lock of the session, so that its steps fall between those of the
-- thread. A thread that waits goes on when it is signalled only.
pub mod Runs
pub mod Progress
pub mod Taking
pub mod Races
pub mod Orderly
pub mod Serving
use projeto_sistemas_operati.Base.{
  refl, false, true, update, some, Array, Option, ◌≡◌, none, ℕ, Bool,
}
use projeto_sistemas_operati.Projeto2.Server.Workers.{
  worker_read, worker_write, worker_close, worker_open, answer, with_sessions, worker_unmount,
  worker_mount, Reply, ServerState, dispatch,
}
use projeto_sistemas_operati.Memory.{Mem}
use projeto_sistemas_operati.Projeto2.Api.{Locking}
use projeto_sistemas_operati.Projeto2.Server.{set_buffer}

-- Where `thread_func` is: before the test of `thread_buffer`, between the test and the waiting, in
-- `pthread_cond_wait`, past its loop, or between the worker's return and the clearing of the request.
pub data Phase : Type 0 where
  at_test before_wait asleep at_work after_work : Phase

-- Where the main loop is: it reads the pipe; it has a new buffer for a session, to be filled with a
-- request; or it has written through NULL.
pub data MainPhase : Type 0 where
  listening main_crashed : MainPhase
  allocated : ℕ → Mem → MainPhase

pub record Threads : Type 0 where
  pub server : ServerState
  pub phase : Array Phase
  pub main : MainPhase

abbrev pub buffer_of : Threads → ℕ → Option Mem
buffer_of w i = (w.server.sessions.session_table i).thread_buffer

abbrev pub with_buffer : ServerState → ℕ → Option Mem → ServerState
with_buffer s i b = with_sessions (set_buffer s.sessions i b) s

-- `pthread_cond_signal`: it wakes the thread if it waits.
unfoldable pub woken : Phase → Phase
woken asleep = at_test
woken p = p

-- `thread_buffer = malloc(…)` for the session `i`, whose request will be `m`.
unfoldable pub allocate : ℕ → Mem → Mem → Threads → Threads
allocate i fresh m w = record w {
  server = with_buffer w.server i (some fresh);
  main = allocated i m;
}

-- The `memcpy`s into `thread_buffer`, and the signal.
unfoldable pub fill_request : ℕ → Mem → Threads → Threads
fill_request i m w = elim (buffer_of w i) [
  | none ↦ record w { main = main_crashed }
  | some b ↦ record {
    server = with_buffer w.server i (some m);
    phase = update w.phase i (woken (w.phase i));
    main = listening;
  }
]

-- `while (thread_buffer == NULL)`
unfoldable pub test_buffer : ℕ → Threads → Threads
test_buffer i w = elim (buffer_of w i) [
  | none ↦ record w { phase = update w.phase i before_wait }
  | some b ↦ record w { phase = update w.phase i at_work }
]

-- `free(thread_buffer); thread_buffer = NULL;`
unfoldable pub clear_request : ℕ → Threads → Threads
clear_request i w = record w {
  server = with_buffer w.server i none;
  phase = update w.phase i at_test;
}

-- A step of the thread of the session `i`.
pub data ThreadStep (i : ℕ) (w u : Threads) : Type 0 where
  tests : w.phase i ≡ at_test → u ≡ test_buffer i w → ThreadStep i w u
  falls_asleep :
      w.phase i ≡ before_wait → u ≡ record w { phase = update w.phase i asleep } → ThreadStep i w u
  works :
      (l : Locking) (written : Bool) (content : Array ℕ) (b : Mem) (s : ServerState)
      → w.phase i ≡ at_work
      → buffer_of w i ≡ some b
      → dispatch l written content i b w.server ≡ some s
      → u ≡ record w { server = s; phase = update w.phase i after_work }
      → ThreadStep i w u
  clears : w.phase i ≡ after_work → u ≡ clear_request i w → ThreadStep i w u

-- A step of the main loop for a request of the session `i`. The mounting, which also takes the
-- session for a client, is not one of these steps.
pub data MainStep (i : ℕ) (w u : Threads) : Type 0 where
  allocates : (fresh m : Mem) → w.main ≡ listening → u ≡ allocate i fresh m w → MainStep i w u
  fills : (m : Mem) → w.main ≡ allocated i m → u ≡ fill_request i m w → MainStep i w u
