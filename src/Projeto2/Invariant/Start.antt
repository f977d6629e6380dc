-- ===== src/Projeto2/Invariant/Start.antt =====
-- `tfs_init` builds well-formed tables from any.
use projeto_sistemas_operati.Projeto2.Directory.{entry_is_empty, clear_entries}
use projeto_sistemas_operati.Projeto2.Types.{
  max_open_files, data_blocks, max_dir_entries, d_inumber_at, taken, free, inode_table_size,
  block_size, t_directory, Inode, Fs,
}
use projeto_sistemas_operati.Base.{
  count-none, update-update, zero, ◌∙◌, inl, ℕ_discrete, suc, refl, minus_one, find_first, ◌<◌, pos,
  arith, ◌≡◌, fill, ℕ, update,
}
use projeto_sistemas_operati.Projeto2.Inodes.{init_directory, init_inode, inode_create, state_init}
use projeto_sistemas_operati.Projeto2.Invariant.{open_handles, Inv}
use projeto_sistemas_operati.Projeto2.Operations.{init_fs}
use projeto_sistemas_operati.Memory.{
  store_int_outside, load_int-ext, load_int-store_int, load_int, Mem,
}
use projeto_sistemas_operati.Projeto2.Blocks.{data_block_get, data_block_alloc}

pub clear_entries-empty :
    (n : ℕ) (m : Mem) (base k : ℕ)
    → k < n
    → load_int (clear_entries n m base) (d_inumber_at base k) ≡ minus_one
unfolding clear_entries
clear_entries-empty zero m base k lt = absurd (omega arith)
clear_entries-empty (suc n) m base k lt = elim (ℕ_discrete k n) [
  | yes same ↦
      rw same
        (load_int-store_int (clear_entries n m base) (d_inumber_at base n) minus_one (omega arith))
  | no other ↦
      load_int-ext _ _ (d_inumber_at base k) (λ j lo hi.
        store_int_outside (clear_entries n m base) (d_inumber_at base n) minus_one j
          (inl (omega arith)))
      ∙ clear_entries-empty n m base k (omega arith)
]

module _ (s : Fs) where
  abbrev fresh : Fs
  fresh = state_init s

  -- The tables after `init_fs`: i-node 0 and block 0 are the root's.
  abbrev root_inode : Inode
  root_inode = record { i_node_type = t_directory; i_size = block_size; i_data_block = pos 0 }

  abbrev rooted : Fs
  rooted = record s {
    inode_table = update s.inode_table 0 root_inode;
    freeinode_ts = update (fill inode_table_size free s.freeinode_ts) 0 taken;
    fs_data = clear_entries max_dir_entries s.fs_data 0;
    free_blocks = update (fill data_blocks free s.free_blocks) 0 taken;
    free_open_file_entries = fill max_open_files free s.free_open_file_entries;
  }

  init_fs_lem : init_fs s ≡ (pos 0, rooted)
  unfolding init_fs inode_create init_inode init_directory data_block_alloc data_block_get
      state_init find_first
  init_fs_lem = simp update-update

  rooted-Inv : Inv rooted
  unfolding entry_is_empty
  rooted-Inv = record {
    root = ground arith;
    files = record {
      small = λ i p lt u. absurd (ground arith);
      blocks = λ i l. absurd (ground arith);
      distinct = λ i j a b e. absurd (ground arith);
    };
    entries =
        λ k lt used. absurd (ground (arith, clear_entries-empty max_dir_entries s.fs_data 0 k lt));
    handles = λ h lt used. absurd (ground arith);
  }

  -- Initialisation succeeds from any tables, makes them well formed, and leaves no handle in use.
  pub init_fs-Inv : ((init_fs s).0 ≡ pos 0) × Inv (init_fs s).1 × (open_handles (init_fs s).1 ≡ 0)
  init_fs-Inv =
      rw init_fs_lem (refl, rooted-Inv, count-none _ max_open_files (λ j lt. ground arith))
