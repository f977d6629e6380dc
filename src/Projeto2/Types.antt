-- ===== src/Projeto2/Types.antt =====
-- fs/config.h, common/common.h and the types of fs/state.h; the static tables of fs/state.c.
use projeto_sistemas_operati.Base.{
  ℕ, ◌+◌, ◌-◌, ◌*◌, ◌/◌, ◌%◌, ◌^◌, Bool, true, false, Array, update, ltb, ◌==◌, if◌then◌else◌, ℤ,
  pos, negsuc,
}
use projeto_sistemas_operati.Memory.{Mem, sizeof_int}

abbrev pub root_dir_inum : ℕ
root_dir_inum = 0

abbrev pub block_size : ℕ
block_size = 1024

abbrev pub data_blocks : ℕ
data_blocks = 1024

abbrev pub inode_table_size : ℕ
inode_table_size = 50

abbrev pub max_open_files : ℕ
max_open_files = 20

abbrev pub max_file_name : ℕ
max_file_name = 40

-- `tfs_open` flags.
abbrev pub tfs_o_creat : ℕ
tfs_o_creat = 1

abbrev pub tfs_o_trunc : ℕ
tfs_o_trunc = 2

abbrev pub tfs_o_append : ℕ
tfs_o_append = 4

-- `flags & f` for a flag `f` of one bit.
abbrev pub has_flag : ℕ → ℕ → Bool
has_flag flags f = flags / f % 2 == 1

-- `size_t` arithmetic, and the cast of a `size_t` to `ssize_t`.
abbrev pub add_size : ℕ → ℕ → ℕ
add_size a b = (a + b) % 2 ^ 64

abbrev pub sub_size : ℕ → ℕ → ℕ
sub_size a b = (a + 2 ^ 64 - b) % 2 ^ 64

abbrev pub to_ssize : ℕ → ℤ
to_ssize n = if ltb n (2 ^ 63) then pos n else negsuc (2 ^ 64 - 1 - n)

-- `dir_entry_t`: `d_name` comes first, then `d_inumber`.
abbrev pub sizeof_dir_entry : ℕ
sizeof_dir_entry = max_file_name + sizeof_int

abbrev pub max_dir_entries : ℕ
max_dir_entries = block_size / sizeof_dir_entry

-- `&dir_entry[i]` and `&dir_entry[i].d_inumber`, for entries from address `base` on.
abbrev pub d_name_at : ℕ → ℕ → ℕ
d_name_at base i = base + i * sizeof_dir_entry

abbrev pub d_inumber_at : ℕ → ℕ → ℕ
d_inumber_at base i = base + i * sizeof_dir_entry + max_file_name

pub data InodeType : Type 0 where
  t_file t_directory : InodeType

abbrev pub is_directory : InodeType → Bool
is_directory t_file = false
is_directory t_directory = true

pub record Inode : Type 0 where
  pub i_node_type : InodeType
  pub i_size : ℕ
  pub i_data_block : ℤ

pub data AllocationState : Type 0 where
  free taken : AllocationState

abbrev pub is_free : AllocationState → Bool
is_free free = true
is_free taken = false

abbrev pub is_taken : AllocationState → Bool
is_taken free = false
is_taken taken = true

pub record OpenFileEntry : Type 0 where
  pub of_inumber : ℤ
  pub of_offset : ℕ

-- The static variables of state.c.
pub record Fs : Type 0 where
  pub inode_table : Array Inode
  pub freeinode_ts : Array AllocationState
  pub fs_data : Mem
  pub free_blocks : Array AllocationState
  pub open_file_table : Array OpenFileEntry
  pub free_open_file_entries : Array AllocationState

-- The index that a checked `int` stands for.
abbrev pub index : ℤ → ℕ
index (pos n) = n
index (negsuc n) = 0

abbrev in_range : ℕ → ℤ → Bool
in_range size (pos n) = ltb n size
in_range size (negsuc n) = false

abbrev pub valid_inumber : ℤ → Bool
valid_inumber = in_range inode_table_size

abbrev pub valid_block_number : ℤ → Bool
valid_block_number = in_range data_blocks

abbrev pub valid_file_handle : ℤ → Bool
valid_file_handle = in_range max_open_files

-- `inode->f = …` for the i-node `i`.
abbrev pub set_inode : Fs → ℕ → Inode → Fs
set_inode s i n = record s { inode_table = update s.inode_table i n }

abbrev pub set_freeinode : Fs → ℕ → AllocationState → Fs
set_freeinode s i a = record s { freeinode_ts = update s.freeinode_ts i a }
