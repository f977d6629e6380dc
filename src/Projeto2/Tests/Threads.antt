-- ===== src/Projeto2/Tests/Threads.antt =====
-- The theorems on the main loop and the threads of the server at small states.
use projeto_sistemas_operati.Projeto2.Server.Start.{
  main_start-Mounted, serving, main_start, StartCalls, StartSucceeds,
}
use projeto_sistemas_operati.Projeto2.Server.Threads.{
  clear_request, clears, works, woken, allocates, falls_asleep, tests, allocated, fill_request,
  buffer_of, main_crashed, asleep, listening, before_wait, ThreadStep, after_work, MainStep,
  with_buffer, at_test, allocate, Phase, test_buffer, Threads,
}
use projeto_sistemas_operati.Projeto2.Server.Workers.{
  dispatch, worker_open, thread_round, mount_client, ServerState,
}
use projeto_sistemas_operati.Base.{
  Option, update_self, inr, arith, true, ◌⊎◌, none, ◌≢◌, ◌≤◌, ℕ, update, some, false, ◌≡◌, refl,
  pos, ◌<◌,
}
use projeto_sistemas_operati.Projeto2.Server.{
  sizeof_open_message, tfs_op_code_open, store_bytes, max_clients, request,
}
use projeto_sistemas_operati.Projeto2.Tests.{hello, blank}
use projeto_sistemas_operati.Projeto2.Tests.Server.{
  open_message-session, open_message-nul, open_message, locking, idle_server,
}
use projeto_sistemas_operati.Projeto2.Invariant.{TfsInv}
use projeto_sistemas_operati.Projeto2.Server.Threads.Runs.{
  here, own_step, Local, Run, OwnStepIn, Called,
}
use projeto_sistemas_operati.Projeto2.Server.Threads.Races.{
  request-lost, signal-lost, unfilled-crashes,
}
use projeto_sistemas_operati.Projeto2.Types.{free}
use projeto_sistemas_operati.Projeto2.Server.Threads.Progress.{Run-serves}
use projeto_sistemas_operati.Memory.{memcpy, store_int, load_int, word_at, from_word, to_word, Mem}
use projeto_sistemas_operati.Projeto2.Server.Mounting.{Mounted}
use projeto_sistemas_operati.Projeto2.Server.Threads.Orderly.{
  start, by_thread, by_main, OrderlyRun-keeps,
}
use projeto_sistemas_operati.Projeto2.Server.Threads.Taking.{fill_request-Local}
use projeto_sistemas_operati.Projeto2.Server.Threads.Serving.{fill_request-serves, OpenCalled}

-- No session has a request, and its thread is at `p`.
abbrev threads_at : Phase → Threads
threads_at p = record { server = idle_server; phase = λ i. p; main = listening }

-- The session 2 has a request.
abbrev with_request : Phase → Threads
with_request p = record (threads_at p) { server = with_buffer idle_server 2 (some blank) }

-- The thread of the session 2 has taken up its request.
abbrev tested : Threads
tested = test_buffer 2 (with_request at_test)

test_made : Run 2 (with_request at_test) 1 tested
test_made = own_step here (tests refl refl)

Run-serves_example :
    (1 < 3 → tested.server.sessions.table_lock ≡ false → (x : Threads) × ThreadStep 2 tested x)
    × (2 ≤ 1 → OwnStepIn (Called 2 blank) test_made)
    × (3 ≤ 1 → buffer_of tested 2 ≡ none)
Run-serves_example =
    Run-serves locking 2 1 blank (with_request at_test) tested (refl, refl) test_made

signal-lost_example :
    (v x u : Threads) × MainStep 2 (threads_at before_wait) v
    × MainStep 2 v x
    × ThreadStep 2 x u
    × ((n : ℕ) (y : Threads) → Run 2 u n y → (n ≡ 0) × Local y 2 asleep (some hello))
signal-lost_example = signal-lost 2 blank hello (threads_at before_wait) refl (refl, refl)

request-lost_example :
    (v x u : Threads) × MainStep 2 (with_request after_work) v
    × MainStep 2 v x
    × ThreadStep 2 x u
    × (u.server.tfs ≡ (with_request after_work).server.tfs)
    × (u.server.sent ≡ (with_request after_work).server.sent)
    × ((n : ℕ) (y : Threads) → Run 2 u n y → buffer_of y 2 ≡ none)
request-lost_example = request-lost 2 blank hello blank (with_request after_work) refl (refl, refl)

unfilled-crashes_example :
    (v x y z u : Threads) × MainStep 2 (threads_at at_test) v
    × ThreadStep 2 v x
    × ThreadStep 2 x y
    × ThreadStep 2 y z
    × MainStep 2 z u
    × Called 2 blank x y
    × (u.main ≡ main_crashed)
unfilled-crashes_example =
    unfilled-crashes locking 2 blank hello (threads_at at_test) refl (refl, refl) refl

-- Every thread waits, and the main loop takes up a request of the session 2.
abbrev first_waits : Threads
first_waits = record (test_buffer 2 (threads_at at_test)) {
  phase = update (test_buffer 2 (threads_at at_test)).phase 2 asleep;
}

OrderlyRun-keeps_example :
    ((allocate 2 blank hello first_waits).main ≢ main_crashed)
    × ((i : ℕ)
        → (allocate 2 blank hello first_waits).phase i ≡ asleep
        → (buffer_of (allocate 2 blank hello first_waits) i ≡ none)
          ⊎ ((m : Mem) × ((allocate 2 blank hello first_waits).main ≡ allocated i m)))
unfolding test_buffer
OrderlyRun-keeps_example =
    OrderlyRun-keeps (threads_at at_test) (allocate 2 blank hello first_waits) (λ i. refl) refl
      (by_main 2 (λ e. refl)
        (by_thread 2 (by_thread 2 start (tests refl refl)) (falls_asleep refl refl))
        (allocates blank hello refl refl))

-- Every call succeeds.
abbrev start_calls : StartCalls
start_calls = record {
  table_mutex_init = pos 0;
  cond_init = λ i. pos 0;
  mutex_init = λ i. pos 0;
  thread_create = λ i. pos 0;
  garbage = λ i. pos 5;
  opened = pos 3;
  setup = record { mutex_init = pos 0; cond_init = pos 0 };
}

start_calls-StartSucceeds : StartSucceeds start_calls
start_calls-StartSucceeds = record {
  table_lock_made = refl;
  conds_made = λ i. refl;
  mutexes_made = λ i. refl;
  threads_made = λ i. refl;
  pipe_opened = refl;
  setup_mutex = refl;
  setup_cond = refl;
}

-- The first client mounts after a start.
main_start-Mounted_example :
    (u t : ServerState) × (main_start start_calls 2 idle_server ≡ serving (pos 3) u)
    × TfsInv u.tfs
    × ((i : ℕ)
        → i < max_clients
        → (u.sessions.freesession_entries i ≡ free)
          × ((u.sessions.session_table i).thread_buffer ≡ none))
    × (mount_client blank hello (pos 9) true u ≡ some (pos 0, t))
    × Mounted u (pos 9) 0 (thread_round locking true blank 0 t)
main_start-Mounted_example =
    main_start-Mounted start_calls start_calls-StartSucceeds 2 (omega arith) idle_server locking
      blank blank hello (pos 9)

-- An opening by the session 0, whose thread waits and whose buffer is to be filled.
abbrev opening : Mem
opening = store_bytes blank 0 open_message

abbrev opening_request : Mem
opening_request = request blank tfs_op_code_open sizeof_open_message opening

abbrev to_be_filled : Threads
to_be_filled = record {
  server = with_buffer idle_server 0 (some blank);
  phase = λ i. asleep;
  main = allocated 0 opening_request;
}

abbrev opening_filled : Threads
opening_filled = fill_request 0 opening_request to_be_filled

opening_filled-Local : Local opening_filled 0 at_test (some opening_request)
unfolding woken
opening_filled-Local = (fill_request-Local 0 to_be_filled opening_request (refl, refl)).0

-- Its thread has taken up the request, then has called the worker, then has cleared the request.
abbrev opening_tested : Threads
opening_tested = test_buffer 0 opening_filled

abbrev server_after : Option ServerState → ServerState
server_after none = idle_server
server_after (some s) = s

abbrev opening_worked : Threads
opening_worked = record opening_tested {
  server = server_after (dispatch locking true blank 0 opening_request opening_tested.server);
  phase = update opening_tested.phase 0 after_work;
}

opening_worked-step : ThreadStep 0 opening_tested opening_worked
unfolding test_buffer fill_request dispatch worker_open request load_int word_at from_word to_word
    store_bytes memcpy store_int
opening_worked-step =
    works locking true blank opening_request opening_worked.server refl refl refl refl

opening_served : Run 0 opening_filled 3 (clear_request 0 opening_worked)
opening_served =
    own_step (own_step (own_step here (tests opening_filled-Local.0 refl)) opening_worked-step)
      (clears (update_self opening_tested.phase 0 after_work) refl)

fill_request-serves_example :
    let u = clear_request 0 opening_worked in
    MainStep 0 to_be_filled opening_filled
    × (3 < 3 → u.server.sessions.table_lock ≡ false → (x : Threads) × ThreadStep 0 u x)
    × (2 ≤ 3 → OwnStepIn (OpenCalled opening 0) opening_served)
    × (3 ≤ 3 → buffer_of u 0 ≡ none)
fill_request-serves_example =
    fill_request-serves blank opening locking 0 3 3 blank to_be_filled
      (clear_request 0 opening_worked) open_message-session (omega arith) (omega arith)
      open_message-nul refl refl (inr refl) opening_served
