-- ===== src/Projeto1/Operations/Start.antt =====
-- `tfs_init`, from which on the files are apart.
use projeto_sistemas_operati.Projeto1.Types.{Inode, Fs}
use projeto_sistemas_operati.Base.{
  update-update, find_first, sym, arith, ℕ_discrete, subst, ap, pos, refl, fill, ◌<◌, ◌≡◌, ℕ,
  update,
}
use projeto_sistemas_operati.Projeto1.Operations.Separate.{IsFile, Separate}
use projeto_sistemas_operati.Projeto1.Operations.{tfs_init}
use projeto_sistemas_operati.Projeto1.Inodes.{state_init, init_directory, init_inode, inode_create}
use projeto_sistemas_operati.Projeto2.Types.{
  max_open_files, data_blocks, max_dir_entries, taken, free, block_size, inode_table_size,
  t_directory,
}
use projeto_sistemas_operati.Projeto1.Blocks.{data_block_alloc}
use projeto_sistemas_operati.Projeto2.Directory.{clear_entries}
use projeto_sistemas_operati.Projeto2.Blocks.{data_block_get}

module _ (s : Fs) where
  -- The tables after `tfs_init`: i-node 0 and block 0 are the root's, and no other i-node is taken.
  abbrev root_inode : Inode
  root_inode = record {
    i_node_type = t_directory;
    i_size = block_size;
    i_data_block = update (s.inode_table 0).i_data_block 0 (pos 0);
  }

  abbrev pub rooted : Fs
  rooted = record s {
    inode_table = update s.inode_table 0 root_inode;
    freeinode_ts = update (fill inode_table_size free s.freeinode_ts) 0 taken;
    fs_data = clear_entries max_dir_entries s.fs_data 0;
    free_blocks = update (fill data_blocks free s.free_blocks) 0 taken;
    free_open_file_entries = fill max_open_files free s.free_open_file_entries;
    inode_table_lock = 0;
  }

  pub tfs_init_lem : tfs_init s ≡ (pos 0, rooted)
  unfolding tfs_init inode_create init_inode init_directory data_block_alloc data_block_get
      state_init find_first
  tfs_init_lem = simp update-update

  no-IsFile : (i : ℕ) → i < inode_table_size → ¬ IsFile rooted i
  no-IsFile i lt (used, type) = elim (ℕ_discrete 0 i) [
    | yes root ↦ absurd (ground (arith, root, type))
    | no other ↦ absurd (ground (arith, other, used, lt))
  ]

  pub Separate-rooted : Separate rooted
  Separate-rooted = record {
    root_type = refl;
    root_used = refl;
    root_block = refl;
    root_apart = λ i lt f. absurd (no-IsFile i lt f);
    owns = λ i lt f. absurd (no-IsFile i lt f);
    disjoint = λ i k j l lt lk ne f g lj ll h h' e. no-IsFile i lt f;
  }

  -- Project 1: tfs_init returns 0, and from then on the files are apart, whatever the tables held
  -- before it.
  pub tfs_init-Separate : ((tfs_init s).0 ≡ pos 0) × Separate (tfs_init s).1
  tfs_init-Separate =
      (ap (λ r. r.0) tfs_init_lem, subst (λ r. Separate r.1) (sym tfs_init_lem) Separate-rooted)
