-- ===== src/Projeto2/Tests/Client.antt =====
-- The theorems on the client at small requests.
use projeto_sistemas_operati.Projeto2.Client.{
  close_message, transfer_message, tfs_read, tfs_open, sent_all, strcpy, session_message,
  open_message, opcode_convert, write_buffer_of, send_loop, Client, Pipes,
}
use projeto_sistemas_operati.Base.{refl, ◌≡◌, arith, [], ◌∷◌, true, some, pos, ℕ, List, ℤ}
use projeto_sistemas_operati.Projeto2.Server.Workers.{thread_round, fd_of, reply, ServerState}
use projeto_sistemas_operati.Projeto2.Client.EndToEnd.{tfs_open-EndToEnd}
use projeto_sistemas_operati.Projeto2.Tests.{name_f, not_nul_f, path_f, hello, blank}
use projeto_sistemas_operati.Projeto2.Server.{
  sizeof_read_message, store_bytes, tfs_op_code_read, bytes, sizeof_open_message, tfs_op_code_open,
}
use projeto_sistemas_operati.Projeto2.Types.{tfs_o_creat}
use projeto_sistemas_operati.Projeto2.Client.Exchange.{int_bytes}
use projeto_sistemas_operati.Memory.{bytes_of, Mem, IsText, to_word, store_int}
use projeto_sistemas_operati.Projeto2.Api.{tfs_open as local_open}
use projeto_sistemas_operati.Projeto2.Tests.Server.{locking, idle_server}
use projeto_sistemas_operati.Projeto2.Server.Main.{goes_on, main_round}
use projeto_sistemas_operati.Projeto2.Server.Requests.{Serves}
use projeto_sistemas_operati.Projeto2.Server.Reading.{concat, deliveries}
use projeto_sistemas_operati.Projeto2.Client.Reading.{tfs_read-answered}

-- A client of the session 2.
abbrev client : Client
client = record {
  client_pipe_name = blank;
  session_id = pos 2;
  client_pipe_fd = pos 4;
  server_pipe_fd = pos 5;
}

abbrev answer : ℤ
answer = (local_open locking path_f (to_word (pos tfs_o_creat)) idle_server.tfs).0

-- The request goes out in two parts, and the answer comes in one.
abbrev pipes : Pipes
pipes = record {
  writes = some 20 ∷ some 29 ∷ [];
  opened = pos 4;
  server_answer = blank;
  replies = bytes (int_bytes blank answer) ∷ [];
}

abbrev message : Mem
message = open_message blank client path_f (pos tfs_o_creat)

abbrev request_bytes : List ℕ
request_bytes = write_buffer_of tfs_op_code_open sizeof_open_message message

request_sent : send_loop pipes.writes request_bytes [] ≡ sent_all request_bytes
unfolding send_loop write_buffer_of opcode_convert open_message session_message strcpy store_int
    to_word
request_sent = refl

path_f-IsText : IsText path_f
path_f-IsText = ((λ e. absurd (omega (arith, e))), not_nul_f)

tfs_open-EndToEnd_example :
    (request_bytes ≡ opcode_convert tfs_op_code_open ∷ bytes_of sizeof_open_message message)
    × (tfs_open pipes blank path_f (pos tfs_o_creat) client
        ≡ (request_bytes, some (answer, client)))
    × ((w : ServerState) × (main_round
            (λ fd. true)
            (λ m. pos 7)
            true
            (pos 3)
            hello
            blank
            blank
            (bytes (opcode_convert tfs_op_code_open ∷ []))
            (bytes (bytes_of sizeof_open_message message) ∷ [])
            idle_server
          ≡ goes_on w)
        × Serves idle_server 2
            (local_open locking path_f (to_word (pos tfs_o_creat)) idle_server.tfs).1
            (reply (fd_of idle_server 2) answer ∷ [])
            (thread_round locking true blank 2 w))
tfs_open-EndToEnd_example =
    tfs_open-EndToEnd (λ fd. true) (λ m. pos 7) true (pos 3) hello blank blank locking blank
      idle_server pipes blank blank client 2 path_f (pos tfs_o_creat) request_bytes [] [] refl
      (omega arith) path_f-IsText (omega arith) (omega arith) request_sent refl

-- The answer to a reading comes in three parts.
abbrev read_pipes : Pipes
read_pipes = record pipes {
  writes = some 10 ∷ some 7 ∷ [];
  replies = bytes (int_bytes blank (pos 5)) ∷ deliveries (name_f ∷ (1 ∷ 2 ∷ 3 ∷ []) ∷ []) [];
}

abbrev read_request : List ℕ
read_request =
    write_buffer_of tfs_op_code_read sizeof_read_message (transfer_message blank client (pos 1) 9)

read_sent : send_loop read_pipes.writes read_request [] ≡ sent_all read_request
unfolding send_loop write_buffer_of opcode_convert transfer_message close_message session_message
    store_int to_word
read_sent = refl

tfs_read-answered_example :
    tfs_read read_pipes blank (pos 1) hello 9 client
    ≡ (read_request, some (pos 5, store_bytes hello 0 (concat (name_f ∷ (1 ∷ 2 ∷ 3 ∷ []) ∷ []))))
tfs_read-answered_example =
    tfs_read-answered read_pipes blank blank (pos 1) hello 9 client read_request
      (name_f ∷ (1 ∷ 2 ∷ 3 ∷ []) ∷ []) [] read_sent (omega arith, (omega arith, tt)) (omega arith)
      refl
