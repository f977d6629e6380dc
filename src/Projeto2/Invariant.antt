-- ===== src/Projeto2/Invariant.antt =====
-- The well-formedness of the tables of fs/state.c between calls of the API.
pub mod Handles
pub mod Counter
pub mod Files
pub mod Inodes
pub mod Open
pub mod Ready
pub mod Write
pub mod Start
use projeto_sistemas_operati.Base.{ℕ, ◌≤◌, ◌<◌, ◌≡◌, false, ℤ, pos, Array, count}
use projeto_sistemas_operati.Memory.{Mem, load_int}
use projeto_sistemas_operati.Projeto2.Types.{
  Fs, Inode, OpenFileEntry, AllocationState, t_directory, taken, is_taken, index, block_size,
  data_blocks, inode_table_size, max_open_files, max_dir_entries, d_inumber_at,
}
use projeto_sistemas_operati.Projeto2.Directory.{entry_is_empty}
use projeto_sistemas_operati.Projeto2.Api.{Tfs}

-- A number of an i-node in use, other than the root's.
pub record Names (freeinode_ts : Array AllocationState) (z : ℤ) : Type 0 where
  pub is_pos : z ≡ pos (index z)
  pub not_root : 0 < index z
  pub below : index z < inode_table_size
  pub in_use : freeinode_ts (index z) ≡ taken

-- A file in use that has bytes, so a block.
pub record Live (inode_table : Array Inode) (freeinode_ts : Array AllocationState) (i : ℕ)
    : Type 0 where
  pub not_root : 0 < i
  pub below : i < inode_table_size
  pub in_use : freeinode_ts i ≡ taken
  pub nonempty : 0 < (inode_table i).i_size

abbrev pub block_of : Array Inode → ℕ → ℕ
block_of inode_table i = index (inode_table i).i_data_block

-- The block that `i` records is a data block, taken, and not the root's.
pub record HasBlock (inode_table : Array Inode) (free_blocks : Array AllocationState) (i : ℕ)
    : Type 0 where
  pub is_pos : (inode_table i).i_data_block ≡ pos (block_of inode_table i)
  pub not_root : 0 < block_of inode_table i
  pub below : block_of inode_table i < data_blocks
  pub in_use : free_blocks (block_of inode_table i) ≡ taken

-- The root directory is i-node 0, with its entries in block 0.
pub record RootValid (inode_table : Array Inode) (freeinode_ts free_blocks : Array AllocationState)
    : Type 0 where
  pub in_use : freeinode_ts 0 ≡ taken
  pub is_dir : (inode_table 0).i_node_type ≡ t_directory
  pub block : (inode_table 0).i_data_block ≡ pos 0
  pub block_in_use : free_blocks 0 ≡ taken

-- Files fit in a block, and no two share one.
pub record FilesValid (inode_table : Array Inode) (freeinode_ts free_blocks : Array AllocationState)
    : Type 0 where
  pub small :
      (i : ℕ)
      → 0 < i
      → i < inode_table_size
      → freeinode_ts i ≡ taken
      → (inode_table i).i_size ≤ block_size
  pub blocks : (i : ℕ) → Live inode_table freeinode_ts i → HasBlock inode_table free_blocks i
  pub distinct :
      (i j : ℕ)
      → Live inode_table freeinode_ts i
      → Live inode_table freeinode_ts j
      → block_of inode_table i ≡ block_of inode_table j
      → i ≡ j

-- Each entry of the root directory names a file in use.
abbrev pub EntriesValid : Mem → Array AllocationState → Type 0
EntriesValid fs_data freeinode_ts =
    (k : ℕ)
    → k < max_dir_entries
    → entry_is_empty fs_data 0 k ≡ false
    → Names freeinode_ts (load_int fs_data (d_inumber_at 0 k))

-- Each handle in use is of a file in use, at an offset within a block.
abbrev pub HandlesValid :
    Array AllocationState → Array OpenFileEntry → Array AllocationState → Type 0
HandlesValid freeinode_ts open_file_table free_open_file_entries =
    (h : ℕ)
    → h < max_open_files
    → free_open_file_entries h ≡ taken
    → Names freeinode_ts (open_file_table h).of_inumber
      × ((open_file_table h).of_offset ≤ block_size)

pub record Inv (s : Fs) : Type 0 where
  pub root : RootValid s.inode_table s.freeinode_ts s.free_blocks
  pub files : FilesValid s.inode_table s.freeinode_ts s.free_blocks
  pub entries : EntriesValid s.fs_data s.freeinode_ts
  pub handles : HandlesValid s.freeinode_ts s.open_file_table s.free_open_file_entries

-- The counter of operations.c is the number of handles in use.
abbrev pub open_handles : Fs → ℕ
open_handles s = count (λ h. is_taken (s.free_open_file_entries h)) max_open_files

pub record TfsInv (t : Tfs) : Type 0 where
  pub tables : Inv t.fs
  pub counter : t.open_files ≡ pos (open_handles t.fs)
