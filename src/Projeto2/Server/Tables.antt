-- ===== src/Projeto2/Server/Tables.antt =====
-- The workers of fs/tfs_server.c leave the requests and the clients of the sessions alone.
use mathlib.Core.Option
use projeto_sistemas_operati.Projeto2.Server.Workers.{
  is_code, message_of, worker_mount, worker_write, worker_unmount, dispatch, worker_read,
  worker_open, worker_close, answer, Reply, ServerState,
}
use projeto_sistemas_operati.Base.{
  inr, inl, ap, is_minus_one, Bool-cases, refl, false, true, some, ℕ, if◌then◌else◌, Option, Array,
  ◌≡◌, none, Bool,
}
use projeto_sistemas_operati.Projeto2.Api.{Locking}
use projeto_sistemas_operati.Memory.{load_int, Mem}
use projeto_sistemas_operati.Projeto2.Server.{
  tfs_op_code_read, tfs_op_code_write, tfs_op_code_close, tfs_op_code_open, tfs_op_code_unmount,
  tfs_op_code_mount, length_in, SessionEntry, Sessions,
}
use projeto_sistemas_operati.Projeto2.Api.{tfs_read}

abbrev KeepsTable : ServerState → Option ServerState → Type 0
KeepsTable s r =
    (t : ServerState) → r ≡ some t → t.sessions.session_table ≡ s.sessions.session_table

KeepsTable-some :
    (s t : ServerState)
    → t.sessions.session_table ≡ s.sessions.session_table
    → KeepsTable s (some t)
KeepsTable-some s t same u e = cc (e, same)

KeepsTable-none : (s : ServerState) → KeepsTable s none
KeepsTable-none s u e = absurd (cc e)

if_KeepsTable :
    (c : Bool) (s : ServerState) (x y : Option ServerState)
    → KeepsTable s x
    → KeepsTable s y
    → KeepsTable s (if c then x else y)
if_KeepsTable true s x y hx hy = hx
if_KeepsTable false s x y hx hy = hy

answer-sessions :
    (written : Bool) (r : Reply) (s : ServerState) → (answer written r s).1.sessions ≡ s.sessions
answer-sessions true r s = refl
answer-sessions false r s = refl

module _ (l : Locking) (written : Bool) (content : Array ℕ) (b : Mem) (s : ServerState) where
  abbrev table_of : Sessions → Array SessionEntry
  table_of t = t.session_table

  worker_open-table : (worker_open l written b s).1.sessions ≡ s.sessions
  unfolding worker_open
  worker_open-table = answer-sessions written _ _

  worker_close-table : (worker_close l written b s).1.sessions ≡ s.sessions
  unfolding worker_close
  worker_close-table = answer-sessions written _ _

  worker_write-table : (worker_write l written b s).1.sessions ≡ s.sessions
  unfolding worker_write
  worker_write-table = answer-sessions written _ _

  worker_read-table : (worker_read l written content b s).1.sessions ≡ s.sessions
  unfolding worker_read
  worker_read-table =
      elim (Bool-cases (
        is_minus_one
          (tfs_read l (load_int (message_of b) 4) content (length_in (message_of b) 8) s.tfs).0)) [
            | inl e ↦ rw (e, worker_read) (answer-sessions written _ _)
            | inr e ↦ rw (e, worker_read) (answer-sessions written _ _)
          ]

  worker_unmount-KeepsTable : KeepsTable s (Option.map (λ r. r.1) (worker_unmount written b s))
  unfolding worker_unmount
  worker_unmount-KeepsTable t e = elim (Bool-cases s.sessions.table_lock) [
    | inl held ↦ absurd (cc (rw (held, worker_unmount) at e))
    | inr free_lock ↦ elim (Bool-cases written) [
      | inl w ↦ KeepsTable-some s _ refl t (rw (free_lock, w, worker_unmount) at e)
      | inr w ↦ KeepsTable-some s _ refl t (rw (free_lock, w, worker_unmount) at e)
    ]
  ]

  worker_mount-table : (i : ℕ) → (worker_mount written i s).1.sessions ≡ s.sessions
  unfolding worker_mount
  worker_mount-table i = answer-sessions written _ s

  -- A branch of the switch, and what follows it.
  case_KeepsTable :
      (code : ℕ) (t : ServerState) (rest : Option ServerState)
      → t.sessions ≡ s.sessions
      → KeepsTable s rest
      → KeepsTable s (if is_code (load_int b 0) code then some t else rest)
  case_KeepsTable code t rest same h =
      if_KeepsTable (is_code (load_int b 0) code) s (some t) rest
        (KeepsTable-some s t (ap table_of same)) h

  pub dispatch-KeepsTable : (i : ℕ) → KeepsTable s (dispatch l written content i b s)
  unfolding dispatch
  dispatch-KeepsTable i =
      case_KeepsTable tfs_op_code_mount (worker_mount written i s).1 _ (worker_mount-table i) (
        if_KeepsTable (is_code (load_int b 0) tfs_op_code_unmount) s
          (Option.map (λ r. r.1) (worker_unmount written b s)) _ worker_unmount-KeepsTable
          (case_KeepsTable tfs_op_code_open (worker_open l written b s).1 _ worker_open-table (
            case_KeepsTable tfs_op_code_close (worker_close l written b s).1 _ worker_close-table (
              case_KeepsTable tfs_op_code_write (worker_write l written b s).1 _ worker_write-table
                (case_KeepsTable tfs_op_code_read (worker_read l written content b s).1 _
                  worker_read-table (KeepsTable-some s s refl))))))
