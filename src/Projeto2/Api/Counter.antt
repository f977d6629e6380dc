-- ===== src/Projeto2/Api/Counter.antt =====
-- The counter of open files is the number of handles in use, after any call.
use projeto_sistemas_operati.Projeto2.Api.{
  Tfs, Setup, Locking, open_counted, tfs_init, tfs_close, tfs_open, close_counted,
}
use projeto_sistemas_operati.Projeto2.Operations.{
  lookup_unsynchronized, open_existing, open_new, truncate, open_unsynchronized,
}
use projeto_sistemas_operati.Projeto2.Types.{
  tfs_o_creat, has_flag, root_dir_inum, max_open_files, index, is_taken, Fs,
}
use projeto_sistemas_operati.Memory.{CString}
use projeto_sistemas_operati.Projeto2.Blocks.{data_block_free}
use projeto_sistemas_operati.Base.{
  drop, inr, sym, ap, inl, count, pos, suc, is_nonneg, true, Bool-cases, is_minus_one, arith, subst,
  if◌then◌else◌, is_zero, ◌≡◌, ℕ, ℤ,
}
use projeto_sistemas_operati.Projeto2.Invariant.{Names, TfsInv, Inv, open_handles}
use projeto_sistemas_operati.Projeto2.Directory.{add_dir_entry}
use projeto_sistemas_operati.Projeto2.Directory.Outcomes.{added, refused, add_dir_entry-Adds}
use projeto_sistemas_operati.Projeto2.Operations.Opening.{
  made, no_entry, no_inode, open_new-OpensNew,
}
use projeto_sistemas_operati.Projeto2.Invariant.Handles.{remove_from_open_file_table-Inv}
use projeto_sistemas_operati.Projeto2.Invariant.Open.{
  first_offset, lookup-Names, open_existing_lem, after_trunc, open_unsynchronized-Inv,
}
use projeto_sistemas_operati.Projeto2.Invariant.Counter.{open_handles-add, open_handles-remove}
use projeto_sistemas_operati.Projeto2.Invariant.Start.{init_fs-Inv}
use projeto_sistemas_operati.Projeto2.Inodes.Creation.{with_file}
use projeto_sistemas_operati.Projeto2.Handles.{add_to_open_file_table}

-- What an opening does to the number of handles in use.
abbrev pub Counts : Fs → ℤ × Fs → Type 0
Counts s (r, s') =
    open_handles s' ≡ (if is_minus_one r then open_handles s else suc (open_handles s))

add-Counts :
    (s t : Fs) (inum : ℤ) (offset : ℕ)
    → t.free_open_file_entries ≡ s.free_open_file_entries
    → Counts s (add_to_open_file_table inum offset t)
add-Counts s t inum offset e =
    let r : ℤ × Fs = add_to_open_file_table inum offset t in
    subst
      (λ f. open_handles r.1 ≡ (
        if is_minus_one r.0
        then count (λ h. is_taken (f h)) max_open_files
        else suc (count (λ h. is_taken (f h)) max_open_files)))
      e (open_handles-add inum offset t)

entries-truncate :
    (s : Fs) (i : ℕ) → (truncate i s).1.free_open_file_entries ≡ s.free_open_file_entries
unfolding truncate data_block_free
entries-truncate s i = ground arith

entries-add_dir_entry :
    (s : Fs) (d z : ℤ) (name : CString)
    → (add_dir_entry d z name s).1.free_open_file_entries ≡ s.free_open_file_entries
entries-add_dir_entry s d z name = elim (add_dir_entry-Adds s d z name) [
  | refused e ↦ rw e
  | added base i at e ↦ rw e
]

open_existing-Counts :
    (s : Fs) (inum : ℤ) (flags : ℕ)
    → Inv s
    → Names s.freeinode_ts inum
    → Counts s (open_existing inum flags s)
open_existing-Counts s inum flags v n =
    let t : Fs = after_trunc flags (index inum) s in
    let same : t.free_open_file_entries ≡ s.free_open_file_entries =
      ground (arith, entries-truncate s (index inum)) in
    rw (open_existing_lem s inum flags v n)
      (add-Counts s t inum (first_offset flags (index inum) t) same)

open_new-Counts : (s : Fs) (name : CString) → Counts s (open_new name s)
open_new-Counts s name = elim (open_new-OpensNew s name) [
  | no_inode e ↦ rw e
  | no_entry i f e ↦ rw e
  | made i lt f ok e ↦ rw e (
      add-Counts s (add_dir_entry (pos root_dir_inum) (pos i) (drop 1 name) (with_file s i)).1
        (pos i) 0 (entries-add_dir_entry (with_file s i) (pos root_dir_inum) (pos i) (drop 1 name)))
]

open_unsynchronized-Counts :
    (s : Fs) (name : CString) (flags : ℕ) → Inv s → Counts s (open_unsynchronized name flags s)
unfolding open_unsynchronized
open_unsynchronized-Counts s name flags v =
    elim (Bool-cases (is_nonneg (lookup_unsynchronized name s))) [
      | inl e ↦
          rw (e, open_unsynchronized) (open_existing-Counts s _ flags v (lookup-Names s name v e))
      | inr e ↦ elim (Bool-cases (has_flag flags tfs_o_creat)) [
        | inl creat ↦ rw (e, creat, open_unsynchronized) (open_new-Counts s name)
        | inr plain ↦ rw (e, plain, open_unsynchronized)
      ]
    ]

-- tfs_init, where the pthread calls succeed, returns 0, makes the tables well formed and
-- open_files the number of handles in use, whatever the tables held before.
pub tfs_init-TfsInv :
    (r : Setup) (t : Tfs)
    → is_zero r.mutex_init ≡ true
    → is_zero r.cond_init ≡ true
    → ((tfs_init r t).0 ≡ pos 0) × TfsInv (tfs_init r t).1
unfolding tfs_init
tfs_init-TfsInv r t m c =
    let (zero', inv, none_open) = init_fs-Inv t.fs in
    rw (m, c, tfs_init) (zero', record { tables = inv; counter = ap pos (sym none_open) })

pub open_counted-TfsInv :
    (name : CString) (flags : ℕ) (t : Tfs) → TfsInv t → TfsInv (open_counted name flags t).1
unfolding open_counted
open_counted-TfsInv name flags t v = record {
  tables = open_unsynchronized-Inv t.fs name flags v.tables;
  counter = ground (arith, open_unsynchronized-Counts t.fs name flags v.tables, v.counter);
}

-- tfs_open keeps the tables well formed and open_files the number of handles in use, whatever the
-- path, the flags and the results of the lock.
pub tfs_open-TfsInv :
    (l : Locking) (name : CString) (flags : ℕ) (t : Tfs)
    → TfsInv t
    → TfsInv (tfs_open l name flags t).1
unfolding tfs_open
tfs_open-TfsInv l name flags t v = ground (arith, open_counted-TfsInv name flags t v)

pub close_counted-TfsInv : (fhandle : ℤ) (t : Tfs) → TfsInv t → TfsInv (close_counted fhandle t).1
unfolding close_counted
close_counted-TfsInv fhandle t v = record {
  tables = remove_from_open_file_table-Inv t.fs v.tables fhandle;
  counter = ground (arith, open_handles-remove fhandle t.fs, v.counter);
}

-- tfs_close keeps the tables well formed and open_files the number of handles in use, whatever the
-- handle and the results of the lock.
pub tfs_close-TfsInv :
    (l : Locking) (fhandle : ℤ) (t : Tfs) → TfsInv t → TfsInv (tfs_close l fhandle t).1
unfolding tfs_close
tfs_close-TfsInv l fhandle t v = ground (arith, close_counted-TfsInv fhandle t v)
