-- ===== src/Projeto2/Directory.antt =====
-- fs/state.c: the entries of a directory, stored in its data block.
pub mod Entries
pub mod Outcomes
pub mod Lookup
pub mod RoundTrip
use projeto_sistemas_operati.Base.{
  ℕ, zero, suc, ◌+◌, ◌-◌, Bool, ◌&&◌, ◌||◌, not, none, some, update, length, ◌==◌, if◌then◌else◌,
  find_first, ℤ, pos, minus_one, is_minus_one,
}
use projeto_sistemas_operati.Memory.{Mem, CString, store_int, load_int, strncpy, strncmp_eq}
use projeto_sistemas_operati.Projeto2.Types.{
  Fs, is_directory, max_dir_entries, max_file_name, d_name_at, d_inumber_at, index, valid_inumber,
}
use projeto_sistemas_operati.Projeto2.Blocks.{data_block_get}

-- `for (i = 0; i < n; i++) dir_entry[i].d_inumber = -1`
unfoldable pub clear_entries : ℕ → Mem → ℕ → Mem
clear_entries zero m base = m
clear_entries (suc n) m base = store_int (clear_entries n m base) (d_inumber_at base n) minus_one

-- `dir_entry[i].d_inumber == -1`
unfoldable pub entry_is_empty : Mem → ℕ → ℕ → Bool
entry_is_empty m base i = is_minus_one (load_int m (d_inumber_at base i))

-- `strncmp(dir_entry[i].d_name, sub_name, MAX_FILE_NAME) == 0` at an entry in use.
unfoldable pub entry_matches : Mem → ℕ → CString → ℕ → Bool
entry_matches m base name i =
    not (entry_is_empty m base i) && strncmp_eq max_file_name m (d_name_at base i) name

-- The entry `i` takes the number and the first 39 bytes of the name.
unfoldable pub fill_entry : Mem → ℕ → ℕ → ℤ → CString → Mem
fill_entry m base i sub_inumber sub_name =
    let named =
      strncpy (store_int m (d_inumber_at base i) sub_inumber) (d_name_at base i) sub_name
        (max_file_name - 1) in
    update named (d_name_at base i + (max_file_name - 1)) 0

-- The search for the first empty entry from address `base` on, and its filling.
unfoldable pub add_to_block : Fs → ℕ → ℤ → CString → ℤ × Fs
add_to_block s base sub_inumber sub_name =
    elim (find_first (entry_is_empty s.fs_data base) max_dir_entries 0) [
      | none ↦ (minus_one, s)
      | some i ↦ (pos 0, record s { fs_data = fill_entry s.fs_data base i sub_inumber sub_name })
    ]

unfoldable pub add_dir_entry : ℤ → ℤ → CString → Fs → ℤ × Fs
add_dir_entry inumber sub_inumber sub_name s =
    if not (valid_inumber inumber) || not (valid_inumber sub_inumber)
    then (minus_one, s)
    else if not (is_directory (s.inode_table (index inumber)).i_node_type)
    then (minus_one, s)
    else if length sub_name == 0
    then (minus_one, s)
    else elim (data_block_get (s.inode_table (index inumber)).i_data_block) [
      | none ↦ (minus_one, s)
      | some base ↦ add_to_block s base sub_inumber sub_name
    ]

-- The search of the entries from address `base` on.
unfoldable pub find_in_block : Mem → ℕ → CString → ℤ
find_in_block m base sub_name =
    elim (find_first (entry_matches m base sub_name) max_dir_entries 0) [
      | none ↦ minus_one
      | some i ↦ load_int m (d_inumber_at base i)
    ]

unfoldable pub find_in_dir : ℤ → CString → Fs → ℤ
find_in_dir inumber sub_name s =
    if not (valid_inumber inumber) || not (is_directory (s.inode_table (index inumber)).i_node_type)
    then minus_one
    else elim (data_block_get (s.inode_table (index inumber)).i_data_block) [
      | none ↦ minus_one
      | some base ↦ find_in_block s.fs_data base sub_name
    ]
