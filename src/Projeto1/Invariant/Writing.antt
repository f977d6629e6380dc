-- ===== src/Projeto1/Invariant/Writing.antt =====
-- `tfs_write` keeps the tables well formed.
use projeto_sistemas_operati.Projeto1.Types.{
  returns, Inode, indirect_access_block, block_number, Fs,
}
use projeto_sistemas_operati.Base.{
  minus_one, ℤ, subst, ℕ_discrete, refl, ◌^◌, sym, arith, is_minus_one, ◌∙◌, ◌≤◌, ap, ◌+◌, ◌≡◌, pos,
  ◌<◌, Array, ℕ,
}
use projeto_sistemas_operati.Projeto1.Invariant.{file_of, DirectFile, Names-IsFile, Names-kept, Inv}
use projeto_sistemas_operati.Projeto2.Invariant.{Names}
use projeto_sistemas_operati.Projeto2.Types.{
  OpenFileEntry, root_dir_inum, index, max_dir_entries, taken, max_open_files,
}
use projeto_sistemas_operati.Projeto1.Operations.Separate.{IsFile, Separate}
use projeto_sistemas_operati.Projeto1.Operations.Others.{Foreign, Spares}
use projeto_sistemas_operati.Projeto1.Handles.{offset_of}
use projeto_sistemas_operati.Projeto2.Directory.Entries.{
  entry_is_empty-SameEntry, d_inumber-SameEntry, SameEntry,
}
use projeto_sistemas_operati.Projeto1.Operations.Contents.{Wrote, size_of, direct_size}
use projeto_sistemas_operati.Projeto1.Operations.Writing.{
  succeeds, fails, tfs_write-WritesFile, Opened,
}
use projeto_sistemas_operati.Projeto1.Operations.{tfs_write}
use projeto_sistemas_operati.Projeto1.Operations.Apart.{spared, returns-same, tfs_write-Separate}
use projeto_sistemas_operati.Projeto1.Position.Direct.{Owns}

-- `t` is a state after a write to the file `i`, which has spared the root's block.
module _ {s t : Fs} (i : ℕ) (v : Inv s) (n : Names s.freeinode_ts (pos i)) (sep : Separate t)
    (spares : Spares s i 0 t)
    (direct : block_number t i indirect_access_block ≡ block_number s i indirect_access_block)
    (files : (h : ℕ) → (t.open_file_table h).of_inumber ≡ (s.open_file_table h).of_inumber)
    (in_use : t.free_open_file_entries ≡ s.free_open_file_entries) where
  still_used : (k : ℕ) → s.freeinode_ts k ≡ taken → t.freeinode_ts k ≡ taken
  still_used k used = ap (λ f. f k) spares.map_same ∙ used

  files-written : (k : ℕ) → DirectFile (s.inode_table k) → DirectFile (t.inode_table k)
  files-written k (type, none_indirect) = elim (ℕ_discrete i k) [
    | yes e ↦
        subst (λ m. DirectFile (t.inode_table m)) e
          (
            spares.type_same ∙ ap (λ m. (s.inode_table m).i_node_type) e ∙ type,
            ap is_minus_one direct
                ∙ ap (λ m. is_minus_one (block_number s m indirect_access_block)) e
                ∙ none_indirect,
          )
    | no ne ↦ subst DirectFile (sym (spares.inodes_same k ne)) (type, none_indirect)
  ]

  SameEntry-written : (k : ℕ) → k < max_dir_entries → SameEntry t.fs_data s.fs_data 0 k
  SameEntry-written k lt j lo hi =
      ap t.fs_data (omega arith)
      ∙ spares.bytes_same j (omega (arith, lt, lo, hi))
      ∙ ap s.fs_data (omega arith)

  Inv-written : Inv t
  Inv-written = record {
    apart = sep;
    root_number =
        ap (λ (x : Inode). x.i_data_block 0)
          (spares.inodes_same root_dir_inum (λ e. omega (arith, e, n.not_root)))
        ∙ v.root_number;
    files = λ k pk lk used.
        files-written k (v.files k pk lk (ap (λ f. f k) (sym spares.map_same) ∙ used));
    entries = λ k lt used.
        let same : SameEntry t.fs_data s.fs_data 0 k = SameEntry-written k lt in
        subst (Names t.freeinode_ts) (sym (d_inumber-SameEntry 0 k same)) (
          Names-kept _ (still_used _)
            (v.entries k lt (sym (entry_is_empty-SameEntry 0 k same) ∙ used)));
    handles = λ h lt used.
        subst (Names t.freeinode_ts) (sym (files h))
          (Names-kept _ (still_used _) (v.handles h lt (ap (λ f. f h) (sym in_use) ∙ used)));
  }

module _ {s : Fs} (h : ℕ) (buffer : Array ℕ) (count : ℕ) (v : Inv s) (below : h < max_open_files)
    (used : s.free_open_file_entries h ≡ taken) (within : offset_of s h + count ≤ direct_size) where
  abbrev i : ℕ
  i = file_of s h

  named : Names s.freeinode_ts (s.open_file_table h).of_inumber
  named = v.handles h below used

  opened : Opened s (pos h) h i
  opened = record { is_handle = refl; below = below; file = named.is_pos; is_inode = named.below }

  file : IsFile s i
  file = Names-IsFile v named

  root-Foreign : Foreign s i 0
  root-Foreign =
      subst (Foreign s i) (ap index v.root_number) (v.apart.root_apart i named.below file)

  handles-written :
      {from n : ℕ} {t : Fs}
      → Wrote s h i buffer from n t
      → (g : ℕ) → (t.open_file_table g).of_inumber ≡ (s.open_file_table g).of_inumber
  handles-written {from} {n} {t} w g = elim (ℕ_discrete h g) [
    | yes e ↦
        subst (λ m. (t.open_file_table m).of_inumber ≡ (s.open_file_table m).of_inumber) e
          w.same_file
    | no ne ↦ ap (λ (x : OpenFileEntry). x.of_inumber) (w.handles g ne)
  ]

  module _ (small : size_of s (file_of s h) + direct_size < 2 ^ 64) where
    -- The state after the write, whatever it returned.
    written-Inv :
        {from n : ℕ} {t : Fs} (z : ℤ) (u : Fs)
        → Wrote s h i buffer from n t
        → tfs_write (pos h) buffer count s ≡ returns (z, u)
        → block_number u i indirect_access_block ≡ block_number t i indirect_access_block
        → u.open_file_table ≡ t.open_file_table
        → u.free_open_file_entries ≡ t.free_open_file_entries
        → Inv u
    written-Inv z u w e number table map =
        let (y, r, e', sep) = tfs_write-Separate buffer count v.apart file opened within small in
        Inv-written i v (subst (Names s.freeinode_ts) named.is_pos named)
          (subst Separate (returns-same e e') sep)
          (spared buffer count v.apart file opened within small z u e 0 root-Foreign)
          (number ∙ w.indirect_same) (λ g. ap (λ f. (f g).of_inumber) table ∙ handles-written w g)
          (map ∙ w.in_use)

    -- A write through a handle in use, which would end within the direct blocks of a file whose size
    -- with 10240 more is below 2^64, returns and keeps the tables well formed.
    pub tfs_write-Inv :
        (z : ℤ) × (t : Fs) × (tfs_write (pos h) buffer count s ≡ returns (z, t)) × Inv t
    tfs_write-Inv =
        let own : Owns s i = v.apart.owns i named.below file in
        elim (tfs_write-WritesFile buffer count opened own within small) [
          | fails t done lt w all e ↦ (minus_one, t, e, written-Inv minus_one t w e refl refl refl)
          | succeeds t w e ↦
              (pos count, _, e, written-Inv (pos count) _ w e (ground arith) refl refl)
        ]
