-- ===== src/Projeto2/Tests/Server.antt =====
-- The theorems on the server at small requests.
use projeto_sistemas_operati.Projeto2.Server.Workers.{
  with_sessions, thread_round, fd_of, reply, send, worker_unmount, ServerState, mount_client,
}
use projeto_sistemas_operati.Base.{
  ◌⊎◌, refl, Bool, ◌<◌, arith, ℤ, ◌≤◌, length, minus_one, some, none, [], ◌++◌, ◌≡◌, ◌+◌, ◌∷◌,
  false, true, pos, ℕ, List,
}
use projeto_sistemas_operati.Memory.{from_word, word_at, to_word, cstring_at, load_int, Mem}
use projeto_sistemas_operati.Projeto2.Api.{tfs_open, tfs_init, Locking}
use projeto_sistemas_operati.Projeto2.Server.{
  name_reach, Delivery, max_clients, tfs_open_server, read_error, received, tfs_shutdown_server,
  bytes, Sessions, read_message, read_loop, store_bytes,
}
use projeto_sistemas_operati.Projeto2.Tests.{path_f, name_f, repeat, zeroed, blank, hello}
use projeto_sistemas_operati.Projeto2.Server.Reading.{
  read_message-split, read_loop-content, concat, deliveries,
}
use projeto_sistemas_operati.Projeto2.Server.Requests.{Serves}
use projeto_sistemas_operati.Projeto2.Types.{taken, free}
use projeto_sistemas_operati.Projeto2.Server.Mounting.{
  mount_client-Mounted, Mounted, worker_unmount-blocks,
}
use projeto_sistemas_operati.Projeto2.Server.Arrival.{
  tfs_shutdown_server-Serves, tfs_open_server-Serves,
}
use projeto_sistemas_operati.Projeto2.Server.Main.{
  main_round-codes, goes_on, main_round, close_all_pipes, returns_error,
}

abbrev pub locking : Locking
locking = record { lock = pos 0; unlock = pos 0 }

-- No session is taken, and no request is left.
abbrev pub idle_server : ServerState
idle_server = record {
  tfs = (tfs_init (record { mutex_init = pos 0; cond_init = pos 0 }) zeroed).1;
  sessions = record {
    session_table = λ i. record { client_fd = pos (i + 3); thread_buffer = none };
    freesession_entries = λ i. free;
    table_lock = false;
  };
  sent = [];
}

-- The session 0 opens the file of the tests, with O_CREAT.
abbrev pub open_message : List ℕ
open_message = repeat 4 0 ++ path_f ++ repeat 37 0 ++ 1 ∷ repeat 3 0

-- The session 2 shuts the server down.
abbrev shutdown_message : List ℕ
shutdown_message = 2 ∷ repeat 3 0

read_loop-content_example :
    read_loop 1 5 0 blank (deliveries (name_f ∷ (1 ∷ 2 ∷ 3 ∷ []) ∷ []) (read_error ∷ []))
    ≡ received (store_bytes blank 0 (concat (name_f ∷ (1 ∷ 2 ∷ 3 ∷ []) ∷ []))) (read_error ∷ [])
read_loop-content_example =
    read_loop-content 5 blank (name_f ∷ (1 ∷ 2 ∷ 3 ∷ []) ∷ []) (read_error ∷ [])
      (omega arith, (omega arith, tt)) refl

read_message-split_example :
    (m' : Mem) × (read_message 8 hello (bytes (repeat 3 1) ∷ bytes (repeat 5 2) ∷ [])
      ≡ received m' [])
    × ((k : ℕ) → length (repeat 3 1) ≤ k → k < 8 → m' k ≡ hello k)
read_message-split_example =
    read_message-split 8 hello (repeat 3 1) (repeat 5 2) [] (omega arith) (omega arith) refl

pub open_message-session : load_int (store_bytes blank 0 open_message) 0 ≡ pos 0
unfolding store_bytes load_int word_at to_word from_word
open_message-session = refl

pub open_message-nul : store_bytes blank 0 open_message (4 + 3) ≡ 0
unfolding store_bytes
open_message-nul = refl

tfs_open_server-Serves_example :
    let message = store_bytes blank 0 open_message in
    let (outcome, t) =
      tfs_open locking
        (cstring_at name_reach message 4)
        (to_word (load_int message 44))
        idle_server.tfs in
    (u : Sessions) × (tfs_open_server hello blank (bytes open_message ∷ []) idle_server.sessions
      ≡ some (pos 0, u))
    × Serves idle_server 0 t
        (reply (fd_of idle_server 0) outcome ∷ [])
        (thread_round locking true blank 0 (with_sessions u idle_server))
tfs_open_server-Serves_example =
    tfs_open_server-Serves locking blank hello blank open_message [] idle_server 0
      open_message-session (omega arith) 3 refl (omega arith) open_message-nul

shutdown_message-session : load_int (store_bytes blank 0 shutdown_message) 0 ≡ pos 2
unfolding store_bytes load_int word_at to_word from_word
shutdown_message-session = refl

tfs_shutdown_server-Serves_example :
    (u : Sessions) × (tfs_shutdown_server hello blank
        (bytes shutdown_message ∷ [])
        idle_server.sessions
      ≡ some (pos 0, u))
    × Serves idle_server 2 idle_server.tfs []
        (thread_round locking true blank 2 (with_sessions u idle_server))
tfs_shutdown_server-Serves_example =
    tfs_shutdown_server-Serves locking blank hello blank shutdown_message [] idle_server 2
      shutdown_message-session (omega arith) refl

mount_client-Mounted_example :
    ((mount_client hello blank (pos 7) true idle_server
        ≡ some (pos 0, send (reply (pos 7) minus_one) idle_server))
      × ((i : ℕ) → i < max_clients → idle_server.sessions.freesession_entries i ≡ taken))
    ⊎ ((i : ℕ) × (t : ServerState) × (mount_client hello blank (pos 7) true idle_server
          ≡ some (pos 0, t))
        × Mounted idle_server (pos 7) i (thread_round locking true blank i t))
mount_client-Mounted_example =
    mount_client-Mounted locking blank hello blank (pos 7) idle_server refl

worker_unmount-blocks_example :
    (t : ServerState) × (worker_unmount false blank idle_server ≡ some (minus_one, t))
    × ((fresh message : Mem) (fdc : ℤ) (written : Bool)
        → mount_client fresh message fdc written t ≡ none)
worker_unmount-blocks_example = worker_unmount-blocks blank idle_server refl

main_round-codes_example :
    let round = λ (cs : List ℕ) (ds : List Delivery).
      main_round
        (λ fd. true)
        (λ m. pos 7)
        true
        (pos 3)
        hello
        blank
        blank
        (bytes cs)
        ds
        idle_server in
    (round [] [] ≡ goes_on idle_server)
    × ((b'3' < b'1') ⊎ (b'7' < b'3') → round (b'3' ∷ []) [] ≡ goes_on idle_server)
    × (b'1' ≤ b'3'
        → b'3' ≤ b'7'
        → round (b'3' ∷ []) (read_error ∷ [])
          ≡ returns_error idle_server (close_all_pipes (λ fd. true) (pos 3) idle_server.sessions).1)
main_round-codes_example =
    main_round-codes (λ fd. true) (λ m. pos 7) true (pos 3) hello blank blank b'3' [] idle_server
