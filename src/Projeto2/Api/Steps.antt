-- ===== src/Projeto2/Api/Steps.antt =====
-- The states that calls of the API reach, one call at a time under the lock.
use projeto_sistemas_operati.Projeto2.Api.{
  tfs_close, tfs_init, tfs_open, Locking, tfs_write, Setup, Tfs, tfs_read,
}
use projeto_sistemas_operati.Projeto2.Types.{max_open_files, is_taken, block_size, Fs}
use projeto_sistemas_operati.Projeto2.Invariant.{Inv, TfsInv}
use projeto_sistemas_operati.Base.{
  inr, inl, Bool-cases, sym, ◌^◌, count, ◌<◌, ◌≤◌, pos, ◌+◌, ap, true, ◌∙◌, Array, ◌≡◌, ℤ, is_zero,
  ℕ,
}
use projeto_sistemas_operati.Memory.{CString}
use projeto_sistemas_operati.Projeto2.Api.Counter.{
  tfs_init-TfsInv, tfs_close-TfsInv, tfs_open-TfsInv,
}
use projeto_sistemas_operati.Projeto2.Operations.Writing.{
  wrote, no_block, nothing, write_unsynchronized-Writes, size_of, offset_of, Opened,
}
use projeto_sistemas_operati.Projeto2.Operations.{write_unsynchronized, read_unsynchronized}
use projeto_sistemas_operati.Projeto2.Operations.Read.{
  read_unsynchronized-Inv, read_unsynchronized-Reads,
}
use projeto_sistemas_operati.Projeto2.Operations.Write.{write_unsynchronized-Inv}

-- A call. Reads and writes go through handles in use; a read starts within the file.
pub data Step (t : Tfs) : Tfs → Type 0 where
  opens : (l : Locking) (name : CString) (flags : ℕ) → Step t (tfs_open l name flags t).1
  closes : (l : Locking) (fhandle : ℤ) → Step t (tfs_close l fhandle t).1
  writes :
      {h i : ℕ} (l : Locking) (fhandle : ℤ) (buffer : Array ℕ) (to_write : ℕ)
      → Opened t.fs fhandle h i
      → to_write + block_size < 2 ^ 64
      → Step t (tfs_write l fhandle buffer to_write t).1
  reads :
      {h i : ℕ} (l : Locking) (fhandle : ℤ) (buffer : Array ℕ) (len : ℕ)
      → Opened t.fs fhandle h i
      → offset_of t.fs h ≤ size_of t.fs i
      → Step t (tfs_read l fhandle buffer len t).2

pub data Reach (t : Tfs) : Tfs → Type 0 where
  here : Reach t t
  next : {u w : Tfs} → Reach t u → Step u w → Reach t w

entries-write :
    {s : Fs} {fhandle : ℤ} {h i : ℕ} (buffer : Array ℕ) (to_write : ℕ)
    → Inv s
    → Opened s fhandle h i
    → to_write + block_size < 2 ^ 64
    → (write_unsynchronized fhandle buffer to_write s).1.free_open_file_entries
      ≡ s.free_open_file_entries
entries-write buffer to_write v o small =
    elim (write_unsynchronized-Writes buffer to_write v o small) [
      | nothing z e ↦ rw e
      | no_block z all e ↦ rw e
      | wrote s' r p fits e ↦ rw e r.same_entries
    ]

TfsInv-with_fs :
    (t : Tfs) (s : Fs)
    → TfsInv t
    → Inv s
    → s.free_open_file_entries ≡ t.fs.free_open_file_entries
    → TfsInv (record t { fs = s })
TfsInv-with_fs t s v inv same = record {
  tables = inv;
  counter = v.counter ∙ ap (λ f. pos (count (λ h. is_taken (f h)) max_open_files)) (sym same);
}

-- `tfs_write` through a handle in use keeps the invariant.
tfs_write-TfsInv :
    {h i : ℕ} (l : Locking) (fhandle : ℤ) (buffer : Array ℕ) (to_write : ℕ) (t : Tfs)
    → TfsInv t
    → Opened t.fs fhandle h i
    → to_write + block_size < 2 ^ 64
    → TfsInv (tfs_write l fhandle buffer to_write t).1
unfolding tfs_write
tfs_write-TfsInv l fhandle buffer to_write t v o small =
    let done : TfsInv (record t { fs = (write_unsynchronized fhandle buffer to_write t.fs).1 }) =
      TfsInv-with_fs t _ v (write_unsynchronized-Inv buffer to_write v.tables o small)
        (entries-write buffer to_write v.tables o small) in
    elim (Bool-cases (is_zero l.lock)) [
      | inl e ↦ rw (e, tfs_write) done
      | inr e ↦ rw (e, tfs_write) v
    ]

-- `tfs_read` through a handle in use whose offset is within the file keeps the invariant.
tfs_read-TfsInv :
    {h i : ℕ} (l : Locking) (fhandle : ℤ) (buffer : Array ℕ) (len : ℕ) (t : Tfs)
    → TfsInv t
    → Opened t.fs fhandle h i
    → offset_of t.fs h ≤ size_of t.fs i
    → TfsInv (tfs_read l fhandle buffer len t).2
unfolding tfs_read
tfs_read-TfsInv l fhandle buffer len t v o le =
    let same : (read_unsynchronized fhandle buffer len t.fs).2.free_open_file_entries
        ≡ t.fs.free_open_file_entries =
      ap (λ (s : Fs). s.free_open_file_entries)
        (read_unsynchronized-Reads buffer len v.tables o le).state in
    let done : TfsInv (record t { fs = (read_unsynchronized fhandle buffer len t.fs).2 }) =
      TfsInv-with_fs t _ v (read_unsynchronized-Inv buffer len v.tables o le) same in
    elim (Bool-cases (is_zero l.lock)) [
      | inl e ↦ rw (e, tfs_read) done
      | inr e ↦ rw (e, tfs_read) v
    ]

-- Every such call keeps the tables well formed and the counter equal to the handles in use.
pub Step-TfsInv : {t u : Tfs} → Step t u → TfsInv t → TfsInv u
Step-TfsInv {t} (opens l name flags) v = tfs_open-TfsInv l name flags t v
Step-TfsInv {t} (closes l fhandle) v = tfs_close-TfsInv l fhandle t v
Step-TfsInv {t} (writes l fhandle buffer to_write o small) v =
    tfs_write-TfsInv l fhandle buffer to_write t v o small
Step-TfsInv {t} (reads l fhandle buffer len o le) v = tfs_read-TfsInv l fhandle buffer len t v o le

Reach-TfsInv : {t u : Tfs} → Reach t u → TfsInv t → TfsInv u
Reach-TfsInv here v = v
Reach-TfsInv (next r st) v = Step-TfsInv st (Reach-TfsInv r v)

-- In every state that calls reach from a successful tfs_init, whatever the tables held before it,
-- the tables are well formed and open_files is the number of handles in use. The calls are
-- openings and closings of any kind, writes of fewer than 2^64 - 1024 bytes through handles in
-- use, and reads through handles in use that do not start past the end of their file.
pub tfs_init-Reach :
    (r : Setup) (t u : Tfs)
    → is_zero r.mutex_init ≡ true
    → is_zero r.cond_init ≡ true
    → Reach (tfs_init r t).1 u
    → TfsInv u
tfs_init-Reach r t u m c calls = Reach-TfsInv calls (tfs_init-TfsInv r t m c).1
