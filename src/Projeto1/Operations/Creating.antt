-- ===== src/Projeto1/Operations/Creating.antt =====
-- Creating a file keeps the files apart.
use projeto_sistemas_operati.Projeto1.Types.{
  Inode, set_freeinode, block_number, set_inode, indirect_access_block, Fs,
}
use projeto_sistemas_operati.Projeto1.Operations.Separate.{Separate-tables, IsFile, Separate}
use projeto_sistemas_operati.Base.{
  suc, refl, ◌∙◌, ℕ_discrete, arith, is_minus_one, update_ne, sym, ◌≢◌, ap, subst, ◌≡◌, ◌<◌, ℕ,
}
use projeto_sistemas_operati.Projeto1.Inodes.{inode_create}
use projeto_sistemas_operati.Projeto2.Types.{
  index, taken, root_dir_inum, free, t_file, inode_table_size,
}
use projeto_sistemas_operati.Projeto1.Inodes.Creation.{
  empty_inode, created, no_free_inode, inode_create-CreatesInode,
}
use projeto_sistemas_operati.Projeto1.Position.Direct.{Owns-same, HasNumber, Owns, block_of}
use projeto_sistemas_operati.Projeto1.Operations.Others.{Foreign}

-- An i-node that `inode_create` makes has no blocks.
module _ (s : Fs) (i : ℕ) (lt : i < inode_table_size) (unused : s.freeinode_ts i ≡ free)
    (sep : Separate s) where
  not_root : i ≢ root_dir_inum
  not_root e = absurd (ground (arith, unused, ap s.freeinode_ts e, sep.root_used))

  abbrev pub with_file : Fs
  with_file = set_inode (set_freeinode s i taken) i (empty_inode (s.inode_table i))

  no_number : (j : ℕ) → j < indirect_access_block → ¬ HasNumber with_file i j
  no_number j lj h = absurd (ground (arith, lj, h))

  inode_same : (k : ℕ) → i ≢ k → with_file.inode_table k ≡ s.inode_table k
  inode_same k ne = update_ne s.inode_table i k _ ne

  IsFile-old : (k : ℕ) → i ≢ k → IsFile with_file k → IsFile s k
  IsFile-old k ne (used, type) = (
    sym (update_ne s.freeinode_ts i k taken ne) ∙ used,
    ap (λ (n : Inode). n.i_node_type) (sym (inode_same k ne)) ∙ type,
  )

  number_old : (k j : ℕ) → i ≢ k → block_number with_file k j ≡ block_number s k j
  number_old k j ne = ap (λ (n : Inode). n.i_data_block j) (inode_same k ne)

  has_old : (k j : ℕ) → i ≢ k → HasNumber with_file k j → HasNumber s k j
  has_old k j ne h = ap is_minus_one (sym (number_old k j ne)) ∙ h

  -- Only an older file has numbers of blocks.
  older : (k j : ℕ) → j < indirect_access_block → HasNumber with_file k j → i ≢ k
  older k j lj h same = no_number j lj (subst (λ m. HasNumber with_file m j) (sym same) h)

  Owns-with_file : (k : ℕ) → k < inode_table_size → IsFile with_file k → Owns with_file k
  Owns-with_file k lk f = elim (ℕ_discrete i k) [
    | yes same ↦ record {
      is_block = λ j lj h. absurd (older k j lj h same);
      apart = λ j l lj ll hj hl e. absurd (older k j lj hj same);
    }
    | no ne ↦ Owns-same refl (λ j. number_old k j ne) (sep.owns k lk (IsFile-old k ne f))
  ]

  root_block_old : block_of with_file root_dir_inum 0 ≡ block_of s root_dir_inum 0
  root_block_old = ap index (number_old root_dir_inum 0 not_root)

  Foreign-with_file :
      (k : ℕ)
      → k < inode_table_size
      → IsFile with_file k
      → Foreign with_file k (block_of with_file root_dir_inum 0)
  Foreign-with_file k lk f = record {
    in_use = ap s.free_blocks root_block_old ∙ sep.root_block;
    not_mine = λ j lj h e.
        let ne : i ≢ k = older k j lj h in
        (sep.root_apart k lk (IsFile-old k ne f)).not_mine j lj (has_old k j ne h)
          (ap index (sym (number_old k j ne)) ∙ e ∙ root_block_old);
  }

  pub Separate-with_file : Separate with_file
  Separate-with_file = record {
    root_type =
        ap (λ (n : Inode). n.i_node_type) (inode_same root_dir_inum not_root) ∙ sep.root_type;
    root_used = update_ne s.freeinode_ts i root_dir_inum taken not_root ∙ sep.root_used;
    root_block = ap s.free_blocks root_block_old ∙ sep.root_block;
    root_apart = Foreign-with_file;
    owns = Owns-with_file;
    disjoint = λ k m j l lk lm ne fk fm lj ll hj hl e.
        let nk : i ≢ k = older k j lj hj in
        let nm : i ≢ m = older m l ll hl in
        sep.disjoint k m j l lk lm ne (IsFile-old k nk fk) (IsFile-old m nm fm) lj ll
          (has_old k j nk hj) (has_old m l nm hl)
          (ap index (sym (number_old k j nk)) ∙ e ∙ ap index (number_old m l nm));
  }

-- Project 1: inode_create (T_FILE) keeps the files apart, whether it succeeds or not.
pub inode_create-Separate : (s : Fs) → Separate s → Separate (inode_create t_file s).1
inode_create-Separate s sep = elim (inode_create-CreatesInode s) [
  | no_free_inode e all ↦
      subst (λ r. Separate r.1) (sym e)
        (Separate-tables s.fs_data s.open_file_table s.free_open_file_entries
          (suc s.inode_table_lock) sep)
  | created i lt unused least e ↦
      subst (λ r. Separate r.1) (sym e) (Separate-with_file s i lt unused sep)
]
