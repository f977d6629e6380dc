-- ===== src/Projeto2/Tests.antt =====
-- Runs of the file system on small inputs; the modules below apply the theorems to them.
pub mod Written
pub mod Files
pub mod Tables
pub mod Calls
pub mod Shutdown
pub mod Server
pub mod Threads
pub mod Client
use projeto_sistemas_operati.Base.{
  false, true, is_nonneg, minus_one, is_minus_one, find_first, ap, zero, ◌≡◌, suc, refl, pos, arith,
  ◌∷◌, ◌≢◌, length, ◌+◌, [], ℕ, Array,
}
use projeto_sistemas_operati.Projeto2.Api.{Tfs}
use projeto_sistemas_operati.Projeto2.Types.{tfs_o_creat, free, t_file, taken, Fs}
use projeto_sistemas_operati.Projeto2.Invariant.{HasBlock, Inv, Live}
use projeto_sistemas_operati.Projeto2.Operations.{
  advance_write, ensure_block, clip_write, write_block, truncate, open_existing, open_new,
  valid_pathname, lookup_unsynchronized, write_unsynchronized, open_unsynchronized, init_fs,
}
use projeto_sistemas_operati.Projeto2.Operations.Writing.{size_of, offset_of, Opened}
use projeto_sistemas_operati.Memory.{
  memcpy, strncmp_eq, strncpy, from_word, word_at, load_int, to_word, store_int, CString, IsText,
}
use projeto_sistemas_operati.Projeto2.Inodes.{
  inode_get, state_init, init_directory, init_inode, inode_create,
}
use projeto_sistemas_operati.Projeto2.Invariant.Start.{init_fs-Inv}
use projeto_sistemas_operati.Projeto2.Invariant.Open.{open_unsynchronized-Inv}
use projeto_sistemas_operati.Projeto2.Operations.Write.{write_unsynchronized-Inv}
use projeto_sistemas_operati.Projeto2.Blocks.{data_block_get, data_block_free, data_block_alloc}
use projeto_sistemas_operati.Projeto2.Directory.{
  fill_entry, add_to_block, add_dir_entry, entry_is_empty, entry_matches, find_in_block,
  find_in_dir, clear_entries,
}
use projeto_sistemas_operati.Projeto2.Handles.{get_open_file_entry, add_to_open_file_table}

-- The static variables as the program starts.
abbrev pub zeroed : Tfs
zeroed = record {
  fs = record {
    inode_table = λ i. record { i_node_type = t_file; i_size = 0; i_data_block = pos 0 };
    freeinode_ts = λ i. free;
    fs_data = λ a. 0;
    free_blocks = λ i. free;
    open_file_table = λ i. record { of_inumber = pos 0; of_offset = 0 };
    free_open_file_entries = λ i. free;
  };
  can_open_files = pos 1;
  open_files = pos 0;
}

abbrev pub path_f : CString
path_f = b'/' ∷ b'f' ∷ b'1' ∷ []

abbrev pub name_f : CString
name_f = b'f' ∷ b'1' ∷ []

abbrev pub name_g : CString
name_g = b'g' ∷ []

abbrev pub hello : Array ℕ
hello k = k + 65

abbrev pub blank : Array ℕ
blank k = 0

-- A new file system; a file with a handle; the same with a second handle; and with five bytes.
abbrev pub fs0 : Fs
fs0 = (init_fs zeroed.fs).1

abbrev pub fs1 : Fs
fs1 = (open_unsynchronized path_f tfs_o_creat fs0).1

abbrev pub fs2 : Fs
fs2 = (open_unsynchronized path_f 0 fs1).1

abbrev pub fs3 : Fs
fs3 = (write_unsynchronized (pos 0) hello 5 fs2).1

pub fs0-Inv : Inv fs0
fs0-Inv = (init_fs-Inv zeroed.fs).1

pub fs1-Inv : Inv fs1
fs1-Inv = open_unsynchronized-Inv fs0 path_f tfs_o_creat fs0-Inv

pub fs2-Inv : Inv fs2
fs2-Inv = open_unsynchronized-Inv fs1 path_f 0 fs1-Inv

pub missing_f : lookup_unsynchronized path_f fs0 ≡ minus_one
unfolding init_fs inode_create init_inode init_directory data_block_alloc data_block_free
    data_block_get clear_entries store_int to_word find_first state_init open_unsynchronized
    lookup_unsynchronized valid_pathname find_in_dir find_in_block entry_matches entry_is_empty
    load_int word_at from_word open_new open_existing truncate inode_get add_dir_entry add_to_block
    fill_entry strncpy strncmp_eq add_to_open_file_table get_open_file_entry write_unsynchronized
    write_block clip_write ensure_block advance_write memcpy
missing_f = refl

pub found_f : lookup_unsynchronized path_f fs1 ≡ pos 1
unfolding init_fs inode_create init_inode init_directory data_block_alloc data_block_free
    data_block_get clear_entries store_int to_word find_first state_init open_unsynchronized
    lookup_unsynchronized valid_pathname find_in_dir find_in_block entry_matches entry_is_empty
    load_int word_at from_word open_new open_existing truncate inode_get add_dir_entry add_to_block
    fill_entry strncpy strncmp_eq add_to_open_file_table get_open_file_entry write_unsynchronized
    write_block clip_write ensure_block advance_write memcpy
found_f = refl

pub writer : Opened fs2 (pos 0) 0 1
unfolding init_fs inode_create init_inode init_directory data_block_alloc data_block_free
    data_block_get clear_entries store_int to_word find_first state_init open_unsynchronized
    lookup_unsynchronized valid_pathname find_in_dir find_in_block entry_matches entry_is_empty
    load_int word_at from_word open_new open_existing truncate inode_get add_dir_entry add_to_block
    fill_entry strncpy strncmp_eq add_to_open_file_table get_open_file_entry write_unsynchronized
    write_block clip_write ensure_block advance_write memcpy
writer = record { is_handle = refl; below = omega arith; in_use = refl; file = refl }

pub reader : Opened fs2 (pos 1) 1 1
unfolding init_fs inode_create init_inode init_directory data_block_alloc data_block_free
    data_block_get clear_entries store_int to_word find_first state_init open_unsynchronized
    lookup_unsynchronized valid_pathname find_in_dir find_in_block entry_matches entry_is_empty
    load_int word_at from_word open_new open_existing truncate inode_get add_dir_entry add_to_block
    fill_entry strncpy strncmp_eq add_to_open_file_table get_open_file_entry write_unsynchronized
    write_block clip_write ensure_block advance_write memcpy
reader = record { is_handle = refl; below = omega arith; in_use = refl; file = refl }

pub start_writer : offset_of fs2 0 ≡ 0
unfolding init_fs inode_create init_inode init_directory data_block_alloc data_block_free
    data_block_get clear_entries store_int to_word find_first state_init open_unsynchronized
    lookup_unsynchronized valid_pathname find_in_dir find_in_block entry_matches entry_is_empty
    load_int word_at from_word open_new open_existing truncate inode_get add_dir_entry add_to_block
    fill_entry strncpy strncmp_eq add_to_open_file_table get_open_file_entry write_unsynchronized
    write_block clip_write ensure_block advance_write memcpy
start_writer = refl

pub start_reader : offset_of fs2 1 ≡ 0
unfolding init_fs inode_create init_inode init_directory data_block_alloc data_block_free
    data_block_get clear_entries store_int to_word find_first state_init open_unsynchronized
    lookup_unsynchronized valid_pathname find_in_dir find_in_block entry_matches entry_is_empty
    load_int word_at from_word open_new open_existing truncate inode_get add_dir_entry add_to_block
    fill_entry strncpy strncmp_eq add_to_open_file_table get_open_file_entry write_unsynchronized
    write_block clip_write ensure_block advance_write memcpy
start_reader = refl

pub write_succeeds : is_minus_one (write_unsynchronized (pos 0) hello 5 fs2).0 ≡ false
unfolding init_fs inode_create init_inode init_directory data_block_alloc data_block_free
    data_block_get clear_entries store_int to_word find_first state_init open_unsynchronized
    lookup_unsynchronized valid_pathname find_in_dir find_in_block entry_matches entry_is_empty
    load_int word_at from_word open_new open_existing truncate inode_get add_dir_entry add_to_block
    fill_entry strncpy strncmp_eq add_to_open_file_table get_open_file_entry write_unsynchronized
    write_block clip_write ensure_block advance_write memcpy
write_succeeds = refl

pub open_succeeds : is_minus_one (open_unsynchronized path_f tfs_o_creat fs0).0 ≡ false
unfolding init_fs inode_create init_inode init_directory data_block_alloc data_block_free
    data_block_get clear_entries store_int to_word find_first state_init open_unsynchronized
    lookup_unsynchronized valid_pathname find_in_dir find_in_block entry_matches entry_is_empty
    load_int word_at from_word open_new open_existing truncate inode_get add_dir_entry add_to_block
    fill_entry strncpy strncmp_eq add_to_open_file_table get_open_file_entry write_unsynchronized
    write_block clip_write ensure_block advance_write memcpy
open_succeeds = refl

pub not_nul_f : IsText name_f
not_nul_f = ((λ e. absurd (omega (arith, e))), ((λ e. absurd (omega (arith, e))), tt))

pub not_nul_g : IsText name_g
not_nul_g = ((λ e. absurd (omega (arith, e))), tt)

pub writer3 : Opened fs3 (pos 0) 0 1
unfolding init_fs inode_create init_inode init_directory data_block_alloc data_block_free
    data_block_get clear_entries store_int to_word find_first state_init open_unsynchronized
    lookup_unsynchronized valid_pathname find_in_dir find_in_block entry_matches entry_is_empty
    load_int word_at from_word open_new open_existing truncate inode_get add_dir_entry add_to_block
    fill_entry strncpy strncmp_eq add_to_open_file_table get_open_file_entry write_unsynchronized
    write_block clip_write ensure_block advance_write memcpy
writer3 = record { is_handle = refl; below = omega arith; in_use = refl; file = refl }

pub alloc_succeeds : is_nonneg (data_block_alloc fs0).0 ≡ true
unfolding init_fs inode_create init_inode init_directory data_block_alloc data_block_free
    data_block_get clear_entries store_int to_word find_first state_init open_unsynchronized
    lookup_unsynchronized valid_pathname find_in_dir find_in_block entry_matches entry_is_empty
    load_int word_at from_word open_new open_existing truncate inode_get add_dir_entry add_to_block
    fill_entry strncpy strncmp_eq add_to_open_file_table get_open_file_entry write_unsynchronized
    write_block clip_write ensure_block advance_write memcpy
alloc_succeeds = refl

pub missing_g : find_in_dir (pos 0) name_g fs1 ≡ minus_one
unfolding init_fs inode_create init_inode init_directory data_block_alloc data_block_free
    data_block_get clear_entries store_int to_word find_first state_init open_unsynchronized
    lookup_unsynchronized valid_pathname find_in_dir find_in_block entry_matches entry_is_empty
    load_int word_at from_word open_new open_existing truncate inode_get add_dir_entry add_to_block
    fill_entry strncpy strncmp_eq add_to_open_file_table get_open_file_entry write_unsynchronized
    write_block clip_write ensure_block advance_write memcpy
missing_g = refl

pub adding_succeeds : is_minus_one (add_dir_entry (pos 0) (pos 2) name_g fs1).0 ≡ false
unfolding init_fs inode_create init_inode init_directory data_block_alloc data_block_free
    data_block_get clear_entries store_int to_word find_first state_init open_unsynchronized
    lookup_unsynchronized valid_pathname find_in_dir find_in_block entry_matches entry_is_empty
    load_int word_at from_word open_new open_existing truncate inode_get add_dir_entry add_to_block
    fill_entry strncpy strncmp_eq add_to_open_file_table get_open_file_entry write_unsynchronized
    write_block clip_write ensure_block advance_write memcpy
adding_succeeds = refl

-- A name of `n` equal bytes.
abbrev pub repeat : ℕ → ℕ → CString
repeat zero c = []
repeat (suc n) c = c ∷ repeat n c

pub IsText-repeat : (n c : ℕ) → c ≢ 0 → IsText (repeat n c)
IsText-repeat zero c ne = tt
IsText-repeat (suc n) c ne = (ne, IsText-repeat n c ne)

pub length-repeat : (n c : ℕ) → length (repeat n c) ≡ n
length-repeat zero c = refl
length-repeat (suc n) c = ap suc (length-repeat n c)
