-- ===== src/Projeto1/Invariant/Creating.antt =====
-- Handles, new files, and new entries of the root directory.
use projeto_sistemas_operati.Projeto1.Types.{block_number, Inode, set_freeinode, Fs}
use projeto_sistemas_operati.Projeto1.Handles.{add_to_open_file_table, remove_from_open_file_table}
use projeto_sistemas_operati.Base.{
  is_minus_one, ◌∙◌, sym, subst, ℕ_discrete, inr, ap, ◌||◌, inl, arith, update_ne, ◌≢◌, not,
  find_first, ◌≡◌, Option-cases, Bool-cases, ◌<◌, ℤ, Array, ℕ,
}
use projeto_sistemas_operati.Projeto2.Types.{
  root_dir_inum, is_taken, is_free, valid_file_handle, taken, free, max_open_files,
  inode_table_size, index, AllocationState, OpenFileEntry,
}
use projeto_sistemas_operati.Projeto1.Invariant.{DirectFile, Separate-fewer, Names-kept, Inv}
use projeto_sistemas_operati.Projeto2.Invariant.{Names}
use projeto_sistemas_operati.Projeto1.Operations.Separate.{IsFile, Separate-tables}
use projeto_sistemas_operati.Projeto1.Operations.Creating.{Separate-with_file, with_file}
use projeto_sistemas_operati.Projeto1.Inodes.Creation.{empty_inode}

-- The handles and `inode_table_lock` matter to the handles alone.
pub Inv-handles :
    {s : Fs} (files : Array OpenFileEntry) (entries : Array AllocationState) (lock : ℕ)
    → Inv s
    → ((h : ℕ) → h < max_open_files → entries h ≡ taken → Names s.freeinode_ts (files h).of_inumber)
    → Inv (record s {
      open_file_table = files;
      free_open_file_entries = entries;
      inode_table_lock = lock;
    })
Inv-handles {s} files entries lock v named = record {
  apart = Separate-tables s.fs_data files entries lock v.apart;
  root_number = v.root_number;
  files = v.files;
  entries = v.entries;
  handles = named;
}

pub add_to_open_file_table-Inv :
    (s : Fs) (inum : ℤ) (offset : ℕ)
    → Inv s
    → Names s.freeinode_ts inum
    → Inv (add_to_open_file_table inum offset s).1
unfolding add_to_open_file_table
add_to_open_file_table-Inv s inum offset v n =
    elim (Option-cases (find_first (λ i. is_free (s.free_open_file_entries i)) max_open_files 0)) [
      | inl e ↦ rw (e, add_to_open_file_table) v
      | inr (i, e) ↦
          rw (e, add_to_open_file_table)
            (Inv-handles _ _ s.inode_table_lock v (λ h lt used. elim (ℕ_discrete i h) [
              | yes same ↦ subst (Names s.freeinode_ts) (sym (ground (arith, same))) n
              | no ne ↦
                  subst (Names s.freeinode_ts) (sym (ground (arith, ne)))
                    (v.handles h lt (sym (update_ne s.free_open_file_entries i h taken ne) ∙ used))
            ]))
    ]

pub remove_from_open_file_table-Inv :
    (s : Fs) (fhandle : ℤ) → Inv s → Inv (remove_from_open_file_table fhandle s).1
unfolding remove_from_open_file_table
remove_from_open_file_table-Inv s fhandle v =
    let i : ℕ = index fhandle in
    elim (Bool-cases
      (not (valid_file_handle fhandle) || not (is_taken (s.free_open_file_entries i)))) [
        | inl bad ↦ rw (bad, remove_from_open_file_table) v
        | inr ok ↦
            rw (ok, remove_from_open_file_table)
              (Inv-handles s.open_file_table _ s.inode_table_lock v (λ h lt used.
                elim (ℕ_discrete i h) [
                  | yes same ↦ absurd (ground (arith, same, used))
                  | no ne ↦
                      v.handles h lt (sym (update_ne s.free_open_file_entries i h free ne) ∙ used)
                ]))
      ]

module _ (s : Fs) (i : ℕ) (lt : i < inode_table_size) (unused : s.freeinode_ts i ≡ free)
    (v : Inv s) where
  pub not_root_of_free : 0 < i
  not_root_of_free = ground (arith, unused, v.apart.root_used)

  -- A file in use is not the new one.
  other : (k : ℕ) → s.freeinode_ts k ≡ taken → i ≢ k
  other k used e = absurd (ground (arith, unused, used, ap s.freeinode_ts e))

  pub Inv-with_file : Inv (with_file s i lt unused v.apart)
  Inv-with_file = record {
    apart = Separate-with_file s i lt unused v.apart;
    root_number = ground (arith, not_root_of_free, v.root_number);
    files = λ k pk lk used. elim (ℕ_discrete i k) [
      | yes e ↦ (ground (arith, e), ground (arith, e))
      | no ne ↦
          subst DirectFile (sym (update_ne s.inode_table i k (empty_inode (s.inode_table i)) ne))
            (v.files k pk lk (sym (update_ne s.freeinode_ts i k taken ne) ∙ used))
    ];
    entries = λ k lk used. Names-kept _ (λ h. ground (arith, h)) (v.entries k lk used);
    handles = λ h lh used. Names-kept _ (λ e. ground (arith, e)) (v.handles h lh used);
  }

  -- The i-node is given back before anything names it.
  abbrev pub unmade : Fs
  unmade = set_freeinode (with_file s i lt unused v.apart) i free

  used_before : (k : ℕ) → unmade.freeinode_ts k ≡ taken → s.freeinode_ts k ≡ taken
  used_before k used = ground (arith, used)

  inode_before : (k : ℕ) → unmade.freeinode_ts k ≡ taken → unmade.inode_table k ≡ s.inode_table k
  inode_before k used = update_ne s.inode_table i k _ (other k (used_before k used))

  still_used : (k : ℕ) → s.freeinode_ts k ≡ taken → unmade.freeinode_ts k ≡ taken
  still_used k used = ground (arith, used, unused)

  pub Inv-unmade : Inv unmade
  Inv-unmade =
      let root_other : i ≢ root_dir_inum = other root_dir_inum v.apart.root_used in
      let root_same : unmade.inode_table root_dir_inum ≡ s.inode_table root_dir_inum =
        update_ne s.inode_table i root_dir_inum _ root_other in
      record {
        apart = Separate-fewer v.apart (record {
          root_type = ap (λ (n : Inode). n.i_node_type) root_same;
          root_used = still_used root_dir_inum v.apart.root_used ∙ sym v.apart.root_used;
          root_number = ap (λ (n : Inode). n.i_data_block 0) root_same;
          root_block = v.apart.root_block;
          numbers = λ k j lk lj (used, type) h.
              let same : unmade.inode_table k ≡ s.inode_table k = inode_before k used in
              let number : block_number unmade k j ≡ block_number s k j =
                ap (λ (n : Inode). n.i_data_block j) same in
              let file : IsFile s k =
                (used_before k used, sym (ap (λ (n : Inode). n.i_node_type) same) ∙ type) in
              (
                file,
                number,
                ((v.apart.owns k lk file).is_block j lj (ap is_minus_one (sym number) ∙ h)).in_use,
              );
        });
        root_number = ap (λ (n : Inode). n.i_data_block 0) root_same ∙ v.root_number;
        files = λ k pk lk used.
            subst DirectFile (sym (inode_before k used)) (v.files k pk lk (used_before k used));
        entries = λ k lk used. Names-kept _ (still_used _) (v.entries k lk used);
        handles = λ h lh used. Names-kept _ (still_used _) (v.handles h lh used);
      }
