-- ===== src/Projeto2/Client/EndToEnd.antt =====
-- A call of the client, the server's work on it, and the answer.
use projeto_sistemas_operati.Projeto2.Operations.{
  lookup_unsynchronized, open_unsynchronized, open_new, open_existing,
}
use projeto_sistemas_operati.Projeto2.Handles.{add_to_open_file_table}
use projeto_sistemas_operati.Base.{
  sym, subst, is_nonneg, ◌∙◌, ap, some, ◌∷◌, length, [], ◌<◌, ◌≡◌, ◌≤◌, ◌+◌, List, Array, is_zero,
  false, true, Bool, minus_one, Bool-cases, pos, find_first-IsFirst, IsFirst, if◌then◌else◌, inr,
  arith, inl, find_first, Option-cases, IsInt, ℕ, ℤ,
}
use projeto_sistemas_operati.Projeto2.Types.{tfs_o_creat, has_flag, max_open_files, is_free, Fs}
use projeto_sistemas_operati.Projeto2.Inodes.{inode_get}
use projeto_sistemas_operati.Projeto2.Client.{
  read_answer, tfs_open, opcode_convert, sent_all, write_buffer_of, send_loop, open_message, Client,
  Pipes, request_handler, call,
}
use projeto_sistemas_operati.Projeto2.Api.{
  Tfs, tfs_open as local_open, open_counted, unlocked, Locking,
}
use projeto_sistemas_operati.Memory.{
  to_word, IsText, load_int-ext, load_int, bytes_of, cstring_at, CString, Mem,
}
use projeto_sistemas_operati.Projeto2.Server.Workers.{thread_round, fd_of, reply, ServerState}
use projeto_sistemas_operati.Projeto2.Server.{
  name_reach, tfs_op_code_open, bytes, max_clients, sizeof_open_message, Delivery,
  max_pipename_size, store_bytes,
}
use projeto_sistemas_operati.Projeto2.Server.Requests.{Serves, cstring_at-ext}
use projeto_sistemas_operati.Projeto2.Client.Messages.{
  open_message-nul, open_message-flags, open_message-name, length-bytes_of, open_message-session,
  store_bytes-bytes_of,
}
use projeto_sistemas_operati.Projeto2.Client.Exchange.{read_answer-int, send_loop-whole, int_bytes}
use projeto_sistemas_operati.Projeto2.Server.Main.{main_round-open, goes_on, main_round}
use projeto_sistemas_operati.Projeto2.Operations.Opening.{
  made, no_entry, no_inode, open_new-OpensNew,
}

add_to_open_file_table-IsInt :
    (z : ℤ) (offset : ℕ) (s : Fs) → IsInt (add_to_open_file_table z offset s).0
unfolding add_to_open_file_table
add_to_open_file_table-IsInt z offset s =
    elim (Option-cases (find_first (λ i. is_free (s.free_open_file_entries i)) max_open_files 0)) [
      | inl e ↦ rw (e, add_to_open_file_table) (omega arith)
      | inr (h, e) ↦
          (let first : IsFirst _ max_open_files 0 h = find_first-IsFirst _ max_open_files 0 h e in
            rw (e, add_to_open_file_table) (omega (arith, first.below)))
    ]

-- A conditional of results that are `int`s.
if_IsInt {ℓ} :
    {A : Type ℓ} (b : Bool) (x y : ℤ × A) → IsInt x.0 → IsInt y.0 → IsInt (if b then x else y).0
if_IsInt true x y hx hy = hx
if_IsInt false x y hx hy = hy

open_existing-IsInt : (inum : ℤ) (flags : ℕ) (s : Fs) → IsInt (open_existing inum flags s).0
unfolding open_existing
open_existing-IsInt inum flags s = elim (Option-cases (inode_get inum)) [
  | inl e ↦ rw (e, open_existing) (omega arith)
  | inr (i, e) ↦
      rw (e, open_existing)
        (if_IsInt _ (minus_one, _) _ (omega arith) (add_to_open_file_table-IsInt inum _ _))
]

open_new-IsInt : (name : CString) (s : Fs) → IsInt (open_new name s).0
open_new-IsInt name s = elim (open_new-OpensNew s name) [
  | no_inode e ↦ rw e (omega arith)
  | no_entry i f e ↦ rw e (omega arith)
  | made i lt f ok e ↦ rw e (add_to_open_file_table-IsInt (pos i) 0 _)
]

open_unsynchronized-IsInt :
    (name : CString) (flags : ℕ) (s : Fs) → IsInt (open_unsynchronized name flags s).0
unfolding open_unsynchronized
open_unsynchronized-IsInt name flags s =
    elim (Bool-cases (is_nonneg (lookup_unsynchronized name s))) [
      | inl e ↦ rw (e, open_unsynchronized) (open_existing-IsInt _ flags s)
      | inr e ↦ elim (Bool-cases (has_flag flags tfs_o_creat)) [
        | inl creat ↦ rw (e, creat, open_unsynchronized) (open_new-IsInt name s)
        | inr plain ↦ rw (e, plain, open_unsynchronized) (omega arith)
      ]
    ]

unlocked-IsInt : (l : Locking) (z : ℤ) → IsInt z → IsInt (unlocked l z)
unlocked-IsInt l z int = elim (Bool-cases (is_zero l.unlock)) [
  | inl e ↦ rw e int
  | inr e ↦ rw e (omega arith)
]

-- What `tfs_open` returns is an `int`, as the server sends it.
local_open-IsInt :
    (l : Locking) (name : CString) (flags : ℕ) (t : Tfs) → IsInt (local_open l name flags t).0
unfolding local_open open_counted
local_open-IsInt l name flags t = elim (Bool-cases (is_zero t.can_open_files)) [
  | inl e ↦ rw (e, local_open) (omega arith)
  | inr e ↦ elim (Bool-cases (is_zero l.lock)) [
    | inl held ↦
        rw (e, held, local_open) (unlocked-IsInt l _ (open_unsynchronized-IsInt name flags t.fs))
    | inr fails ↦ rw (e, fails, local_open) (omega arith)
  ]
]

-- Where the client's pipe delivers the answer in one piece, and the request goes out whole, the call
-- returns the number answered.
call-answered :
    (p : Pipes) (opcode size : ℕ) (message : Mem) (c : Client) (out : List ℕ) (m : Mem) (z : ℤ)
    (more : List Delivery)
    → send_loop p.writes (write_buffer_of opcode size message) [] ≡ sent_all out
    → IsInt z
    → p.replies ≡ bytes (int_bytes m z) ∷ more
    → call p opcode size message c ≡ (write_buffer_of opcode size message, some (z, c))
unfolding call request_handler
call-answered p opcode size message c out m z more e int answered =
    rw (e, request_handler)
      (ap (λ bs. (bs, read_answer p c)) (send_loop-whole p.writes _ out e)
        ∙ ap (λ r. (write_buffer_of opcode size message, r))
            (read_answer-int p c m z more int answered))

module _ (closes : ℤ → Bool) (open_pipe : Mem → ℤ) (written : Bool) (fd1 : ℤ)
    (fresh_server scratch content : Mem) (l : Locking) (local_array : Array ℕ) (s : ServerState)
    (p : Pipes) (fresh answer : Mem) (c : Client) (i : ℕ) (name : CString) (flags : ℤ) where
  abbrev sent_message : Mem
  sent_message = open_message fresh c name flags

  abbrev sent_bytes : List ℕ
  sent_bytes = bytes_of sizeof_open_message sent_message

  -- The message as the server has read it.
  abbrev read_back : Mem
  read_back = store_bytes scratch 0 sent_bytes

  int-read_back :
      (a : ℕ) → a + 4 ≤ sizeof_open_message → load_int read_back a ≡ load_int sent_message a
  int-read_back a le = load_int-ext read_back sent_message a (λ j lo hi.
      store_bytes-bytes_of scratch sent_message sizeof_open_message j (omega (arith, hi, le)))

  name-read_back : cstring_at name_reach read_back 4 ≡ cstring_at name_reach sent_message 4
  name-read_back = cstring_at-ext name_reach read_back sent_message 4 (λ j lo hi.
      store_bytes-bytes_of scratch sent_message sizeof_open_message j (omega (arith, hi)))

  abbrev outcome : ℤ
  outcome = (local_open l name (to_word flags) s.tfs).0

  -- The server's part, for the session, the name and the flags that the message holds.
  abbrev pub Served : List Delivery → ℕ → CString → ℤ → Type 0
  Served rest j nm fl =
      (w : ServerState) × (main_round closes open_pipe written fd1 fresh_server scratch content
          (bytes (opcode_convert tfs_op_code_open ∷ [])) (bytes sent_bytes ∷ rest) s
        ≡ goes_on w)
      × Serves s j (local_open l nm (to_word fl) s.tfs).1
          (reply (fd_of s j) (local_open l nm (to_word fl) s.tfs).0 ∷ s.sent)
          (thread_round l true local_array j w)

  -- The NUL of the name.
  nul-read_back : length name < max_pipename_size → read_back (4 + length name) ≡ 0
  nul-read_back fits =
      store_bytes-bytes_of scratch sent_message sizeof_open_message (4 + length name)
        (omega (arith, fits))
      ∙ open_message-nul fresh c name flags fits

  Served-read_back :
      (rest : List Delivery)
      → load_int read_back 0 ≡ pos i
      → i < max_clients
      → length name < max_pipename_size
      → Served rest i (cstring_at name_reach read_back 4) (load_int read_back 44)
  unfolding opcode_convert
  Served-read_back rest id below fits =
      main_round-open closes open_pipe written fd1 fresh_server scratch content sent_bytes rest l
        local_array s i (length name) id below (length-bytes_of sizeof_open_message sent_message)
        fits (nul-read_back fits)

  -- The client's tfs_open, with the server's work on its request. A client has the number of a
  -- session below 20, a name of fewer than 40 bytes, none of them 0, and flags that are an `int`.
  -- Where its request goes out, it has gone out as the code and the message, whole. Where one
  -- delivery brings the server its code and another the message, the loop of main goes on, and
  -- then the thread of that session calls the tfs_open of the file system with this name and these
  -- flags and replies with its result; the write to the client succeeds. Where one delivery brings
  -- this result to the client, its call returns it.
  pub tfs_open-EndToEnd :
      (out : List ℕ) (rest more : List Delivery)
      → c.session_id ≡ pos i
      → i < max_clients
      → IsText name
      → length name < max_pipename_size
      → IsInt flags
      → send_loop p.writes (write_buffer_of tfs_op_code_open sizeof_open_message sent_message) []
        ≡ sent_all out
      → p.replies ≡ bytes (int_bytes answer outcome) ∷ more
      → (out ≡ opcode_convert tfs_op_code_open ∷ sent_bytes)
        × (tfs_open p fresh name flags c ≡ (out, some (outcome, c)))
        × Served rest i name flags
  unfolding write_buffer_of tfs_open
  tfs_open-EndToEnd out rest more id below text fits int sends answered =
      let whole : out ≡ write_buffer_of tfs_op_code_open sizeof_open_message sent_message =
        send_loop-whole p.writes _ out sends in
      let session : load_int read_back 0 ≡ pos i =
        int-read_back 0 (omega arith)
        ∙ open_message-session fresh c name flags (subst IsInt (sym id) (omega (arith, below))) fits
        ∙ id in
      (
        whole,
        call-answered p tfs_op_code_open sizeof_open_message sent_message c out answer outcome more
              sends (local_open-IsInt l name (to_word flags) s.tfs) answered
            ∙ ap (λ bs. (bs, some (outcome, c))) (sym whole),
        subst (λ nm. Served rest i nm flags)
            (name-read_back ∙ open_message-name fresh c name flags text fits)
            (subst (λ fl. Served rest i (cstring_at name_reach read_back 4) fl)
              (int-read_back 44 (omega arith) ∙ open_message-flags fresh c name flags int)
              (Served-read_back rest session below fits)),
      )
