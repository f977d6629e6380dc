-- ===== src/Projeto1/Inodes.antt =====
-- fs/state.c: the i-node table and `state_init`. A failed `pthread` call is ignored, as the code does.
pub mod Creation
use projeto_sistemas_operati.Base.{
  suc, some, none, ltb, ◌||◌, pos, minus_one, not, is_minus_one, update, if◌then◌else◌, find_first,
  fill, ℤ, ℕ,
}
use projeto_sistemas_operati.Projeto2.Types.{
  max_dir_entries, taken, t_file, t_directory, is_directory, max_open_files, valid_inumber,
  data_blocks, free, inode_table_size, block_size, is_free, index, InodeType,
}
use projeto_sistemas_operati.Projeto1.Types.{
  set_block_number, block_number, blocks, set_freeinode, set_inode, Fs,
}
use projeto_sistemas_operati.Projeto1.Blocks.{free_file, free_directory, data_block_alloc}
use projeto_sistemas_operati.Projeto2.Blocks.{data_block_get}
use projeto_sistemas_operati.Projeto2.Directory.{clear_entries}

unfoldable pub state_init : Fs → Fs
state_init s = record s {
  freeinode_ts = fill inode_table_size free s.freeinode_ts;
  free_blocks = fill data_blocks free s.free_blocks;
  free_open_file_entries = fill max_open_files free s.free_open_file_entries;
  inode_table_lock = 0;
}

unfoldable pub init_directory : ℕ → ℤ → Fs → ℤ × Fs
init_directory inumber b s =
    let sized = set_inode s inumber (record (s.inode_table inumber) {
      i_size = block_size;
      i_data_block = update (s.inode_table inumber).i_data_block 0 b;
    }) in
    elim (data_block_get b) [
      | none ↦ (minus_one, set_freeinode sized inumber free)
      | some base ↦
          (pos inumber, record sized { fs_data = clear_entries max_dir_entries sized.fs_data base })
    ]

unfoldable pub init_inode : InodeType → ℕ → Fs → ℤ × Fs
init_inode t_directory inumber s =
    let (b, s') = data_block_alloc s in
    if is_minus_one b
    then (minus_one, set_freeinode s' inumber free)
    else init_directory inumber b s'
init_inode t_file inumber s = (
  pos inumber,
  set_inode s inumber (record (s.inode_table inumber) {
    i_size = 0;
    i_data_block = fill blocks minus_one (s.inode_table inumber).i_data_block;
  }),
)

-- Where no i-node is free, it returns without giving `inode_table_lock` back.
unfoldable pub inode_create : InodeType → Fs → ℤ × Fs
inode_create n_type s = elim (find_first (λ i. is_free (s.freeinode_ts i)) inode_table_size 0) [
  | none ↦ (minus_one, record s { inode_table_lock = suc s.inode_table_lock })
  | some inumber ↦ init_inode n_type inumber (
      set_inode (set_freeinode s inumber taken) inumber
        (record (s.inode_table inumber) { i_node_type = n_type }))
]

unfoldable pub inode_delete : ℤ → Fs → ℤ × Fs
inode_delete inumber s =
    let i = index inumber in
    let s' = set_freeinode s i free in
    if not (valid_inumber inumber) || is_free (s.freeinode_ts i)
    then (minus_one, s)
    else if is_directory (s.inode_table i).i_node_type
    then (let (r, t) = free_directory i s' in
        if is_minus_one r
        then (minus_one, t)
        else if is_minus_one (block_number s i 0)
        then (pos 0, set_block_number t i 0 minus_one)
        else (pos 0, t))
    else if ltb 0 (s.inode_table i).i_size
    then free_file i s'
    else (pos 0, s')
