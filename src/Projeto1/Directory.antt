-- ===== src/Projeto1/Directory.antt =====
-- fs/state.c: directories, whose entries stand in their first block, as those of Projeto2 do.
use projeto_sistemas_operati.Base.{
  pos, some, none, ◌==◌, length, minus_one, ◌||◌, not, if◌then◌else◌, find_first, ℕ, ℤ,
}
use projeto_sistemas_operati.Projeto1.Types.{block_number, Fs}
use projeto_sistemas_operati.Memory.{CString}
use projeto_sistemas_operati.Projeto2.Directory.{fill_entry, find_in_block, entry_is_empty}
use projeto_sistemas_operati.Projeto2.Types.{index, is_directory, valid_inumber, max_dir_entries}
use projeto_sistemas_operati.Projeto2.Blocks.{data_block_get}

unfoldable pub add_to_block : Fs → ℕ → ℤ → CString → ℤ × Fs
add_to_block s base sub_inumber sub_name =
    elim (find_first (entry_is_empty s.fs_data base) max_dir_entries 0) [
      | none ↦ (minus_one, s)
      | some i ↦ (pos 0, record s { fs_data = fill_entry s.fs_data base i sub_inumber sub_name })
    ]

unfoldable pub add_dir_entry : ℤ → ℤ → CString → Fs → ℤ × Fs
add_dir_entry inumber sub_inumber sub_name s =
    if not (valid_inumber inumber) || not (valid_inumber sub_inumber)
    then (minus_one, s)
    else if not (is_directory (s.inode_table (index inumber)).i_node_type)
    then (minus_one, s)
    else if length sub_name == 0
    then (minus_one, s)
    else elim (data_block_get (block_number s (index inumber) 0)) [
      | none ↦ (minus_one, s)
      | some base ↦ add_to_block s base sub_inumber sub_name
    ]

unfoldable pub find_in_dir : ℤ → CString → Fs → ℤ
find_in_dir inumber sub_name s =
    if not (valid_inumber inumber) || not (is_directory (s.inode_table (index inumber)).i_node_type)
    then minus_one
    else elim (data_block_get (block_number s (index inumber) 0)) [
      | none ↦ minus_one
      | some base ↦ find_in_block s.fs_data base sub_name
    ]
