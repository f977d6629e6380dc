-- ===== src/Projeto1/Types.antt =====
-- The types of fs/state.h and the static tables of fs/state.c.
use projeto_sistemas_operati.Projeto2.Types.{OpenFileEntry, AllocationState, block_size, InodeType}
use projeto_sistemas_operati.Base.{◌/◌, update, ℤ, Array, ℕ}
use projeto_sistemas_operati.Memory.{sizeof_int, Mem}

abbrev pub blocks : ℕ
blocks = 11

abbrev pub indirect_access_block : ℕ
indirect_access_block = 10

abbrev pub indirect_references : ℕ
indirect_references = block_size / sizeof_int

abbrev pub buffer_size : ℕ
buffer_size = 128

-- Ten numbers of blocks, and the number of the block that holds the numbers of the others.
pub record Inode : Type 0 where
  pub i_node_type : InodeType
  pub i_size : ℕ
  pub i_data_block : Array ℤ

-- The static variables of state.c. `inode_table_lock` is how often calls have taken this lock
-- without giving it back.
pub record Fs : Type 0 where
  pub inode_table : Array Inode
  pub freeinode_ts : Array AllocationState
  pub fs_data : Mem
  pub free_blocks : Array AllocationState
  pub open_file_table : Array OpenFileEntry
  pub free_open_file_entries : Array AllocationState
  pub inode_table_lock : ℕ

-- A call that returns, or one that reads or writes through NULL.
pub data Run {ℓ} (A : Type ℓ) : Type ℓ where
  crashes : Run A
  returns : A → Run A

abbrev pub set_inode : Fs → ℕ → Inode → Fs
set_inode s i n = record s { inode_table = update s.inode_table i n }

abbrev pub set_freeinode : Fs → ℕ → AllocationState → Fs
set_freeinode s i a = record s { freeinode_ts = update s.freeinode_ts i a }

-- `inode->i_data_block[j] = b` for the i-node `i`.
abbrev pub set_block_number : Fs → ℕ → ℕ → ℤ → Fs
set_block_number s i j b =
    set_inode s i
      (record (s.inode_table i) { i_data_block = update (s.inode_table i).i_data_block j b })

abbrev pub block_number : Fs → ℕ → ℕ → ℤ
block_number s i j = (s.inode_table i).i_data_block j
