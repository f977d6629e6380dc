-- ===== src/Projeto2/Inodes.antt =====
-- fs/state.c: the i-node table and `state_init`.
pub mod Creation
use projeto_sistemas_operati.Base.{
  ℕ, not, ◌||◌, Option, none, some, fill, ltb, if◌then◌else◌, find_first, ℤ, pos, minus_one,
  is_minus_one,
}
use projeto_sistemas_operati.Projeto2.Types.{
  Fs, InodeType, t_file, t_directory, free, taken, is_free, block_size, data_blocks,
  inode_table_size, max_open_files, max_dir_entries, index, valid_inumber, set_inode, set_freeinode,
}
use projeto_sistemas_operati.Projeto2.Blocks.{data_block_alloc, data_block_free, data_block_get}
use projeto_sistemas_operati.Projeto2.Directory.{clear_entries}

unfoldable pub state_init : Fs → Fs
state_init s = record s {
  freeinode_ts = fill inode_table_size free s.freeinode_ts;
  free_blocks = fill data_blocks free s.free_blocks;
  free_open_file_entries = fill max_open_files free s.free_open_file_entries;
}

-- The directory branch of `inode_create`, once a block `b` is found.
unfoldable pub init_directory : ℕ → ℤ → Fs → ℤ × Fs
init_directory inumber b s =
    let sized =
      set_inode s inumber
        (record (s.inode_table inumber) { i_size = block_size; i_data_block = b }) in
    elim (data_block_get b) [
      | none ↦ (minus_one, set_freeinode sized inumber free)
      | some base ↦
          (pos inumber, record sized { fs_data = clear_entries max_dir_entries sized.fs_data base })
    ]

-- What `inode_create` does with the free i-node that it has taken.
unfoldable pub init_inode : InodeType → ℕ → Fs → ℤ × Fs
init_inode t_directory inumber s =
    let (b, s') = data_block_alloc s in
    if is_minus_one b
    then (minus_one, set_freeinode s' inumber free)
    else init_directory inumber b s'
init_inode t_file inumber s = (
  pos inumber,
  set_inode s inumber (record (s.inode_table inumber) { i_size = 0; i_data_block = minus_one }),
)

unfoldable pub inode_create : InodeType → Fs → ℤ × Fs
inode_create n_type s = elim (find_first (λ i. is_free (s.freeinode_ts i)) inode_table_size 0) [
  | none ↦ (minus_one, s)
  | some inumber ↦ init_inode n_type inumber (
      set_inode (set_freeinode s inumber taken) inumber
        (record (s.inode_table inumber) { i_node_type = n_type }))
]

unfoldable pub inode_delete : ℤ → Fs → ℤ × Fs
inode_delete inumber s =
    if not (valid_inumber inumber) || is_free (s.freeinode_ts (index inumber))
    then (minus_one, s)
    else let s' = set_freeinode s (index inumber) free in
      let inode = s.inode_table (index inumber) in
      if ltb 0 inode.i_size
      then (let (r, s'') = data_block_free inode.i_data_block s' in
          if is_minus_one r then (minus_one, s'') else (pos 0, s''))
      else (pos 0, s')

-- The index of the i-node; `none` is NULL.
unfoldable pub inode_get : ℤ → Option ℕ
inode_get inumber = if valid_inumber inumber then some (index inumber) else none
