-- ===== src/Projeto2/Invariant/Handles.antt =====
-- The table of open files keeps the invariant, and its changes are what the counter counts.
use projeto_sistemas_operati.Base.{
  ℕ, ◌≤◌, inl, inr, arith, ℤ, update, find_first, Option-cases, ℕ_discrete,
}
use projeto_sistemas_operati.Projeto2.Types.{
  Fs, free, taken, is_free, index, block_size, max_open_files,
}
use projeto_sistemas_operati.Projeto2.Handles.{add_to_open_file_table, remove_from_open_file_table}
use projeto_sistemas_operati.Projeto2.Invariant.{Inv, Names}

-- A new entry at a handle that is free.
abbrev pub with_handle : Fs → ℕ → ℤ → ℕ → Fs
with_handle s h inumber offset = record s {
  free_open_file_entries = update s.free_open_file_entries h taken;
  open_file_table =
      update s.open_file_table h (record { of_inumber = inumber; of_offset = offset });
}

abbrev pub without_handle : Fs → ℕ → Fs
without_handle s h = record s { free_open_file_entries = update s.free_open_file_entries h free }

module _ (s : Fs) (v : Inv s) where
  with_handle-Inv :
      (h : ℕ) (inumber : ℤ) (offset : ℕ)
      → Names s.freeinode_ts inumber
      → offset ≤ block_size
      → Inv (with_handle s h inumber offset)
  with_handle-Inv h inumber offset n le = record {
    root = v.root;
    files = v.files;
    entries = v.entries;
    handles = λ j lt e. elim (ℕ_discrete h j) [
      | yes same ↦ ground (arith, n)
      | no other ↦ ground (arith, v.handles j lt)
    ];
  }

  without_handle-Inv : (h : ℕ) → Inv (without_handle s h)
  without_handle-Inv h = record {
    root = v.root;
    files = v.files;
    entries = v.entries;
    handles = λ j lt e. ground (arith, v.handles j lt);
  }

  -- A file's new handle keeps the tables well formed.
  pub add_to_open_file_table-Inv :
      (inumber : ℤ) (offset : ℕ)
      → Names s.freeinode_ts inumber
      → offset ≤ block_size
      → Inv (add_to_open_file_table inumber offset s).1
  unfolding add_to_open_file_table
  add_to_open_file_table-Inv inumber offset n le =
      elim (Option-cases
        (find_first (λ i. is_free (s.free_open_file_entries i)) max_open_files 0)) [
          | inl e ↦ rw (e, add_to_open_file_table) v
          | inr (h, e) ↦ rw (e, add_to_open_file_table) (with_handle-Inv h inumber offset n le)
        ]

  pub remove_from_open_file_table-Inv :
      (fhandle : ℤ) → Inv (remove_from_open_file_table fhandle s).1
  unfolding remove_from_open_file_table
  remove_from_open_file_table-Inv fhandle = ground (arith, without_handle-Inv (index fhandle))
