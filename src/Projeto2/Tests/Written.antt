-- ===== src/Projeto2/Tests/Written.antt =====
-- A written file, a second one, and a file system without a free block, for the tests.
use projeto_sistemas_operati.Base.{true, is_minus_one, find_first, ◌≡◌, refl, pos, arith, ◌∷◌}
use projeto_sistemas_operati.Projeto2.Types.{tfs_o_creat, taken, Fs}
use projeto_sistemas_operati.Projeto2.Invariant.{HasBlock, Inv, Live}
use projeto_sistemas_operati.Projeto2.Operations.{
  advance_write, ensure_block, clip_write, write_block, truncate, open_existing, open_new,
  valid_pathname, lookup_unsynchronized, write_unsynchronized, open_unsynchronized, init_fs,
}
use projeto_sistemas_operati.Projeto2.Operations.Writing.{size_of, offset_of, Opened}
use projeto_sistemas_operati.Memory.{
  memcpy, strncmp_eq, strncpy, from_word, word_at, load_int, to_word, store_int, CString,
}
use projeto_sistemas_operati.Projeto2.Inodes.{
  inode_get, state_init, init_directory, init_inode, inode_create,
}
use projeto_sistemas_operati.Projeto2.Invariant.Open.{open_unsynchronized-Inv}
use projeto_sistemas_operati.Projeto2.Operations.Write.{write_unsynchronized-Inv}
use projeto_sistemas_operati.Projeto2.Blocks.{data_block_get, data_block_free, data_block_alloc}
use projeto_sistemas_operati.Projeto2.Directory.{
  fill_entry, add_to_block, add_dir_entry, entry_is_empty, entry_matches, find_in_block,
  find_in_dir, clear_entries,
}
use projeto_sistemas_operati.Projeto2.Handles.{get_open_file_entry, add_to_open_file_table}
use projeto_sistemas_operati.Projeto2.Tests.{fs2-Inv, fs3, name_g, writer, hello, fs2}

pub fs3-Inv : Inv fs3
fs3-Inv = write_unsynchronized-Inv hello 5 fs2-Inv writer (omega arith)

pub reader3 : Opened fs3 (pos 1) 1 1
unfolding init_fs inode_create init_inode init_directory data_block_alloc data_block_free
    data_block_get clear_entries store_int to_word find_first state_init open_unsynchronized
    lookup_unsynchronized valid_pathname find_in_dir find_in_block entry_matches entry_is_empty
    load_int word_at from_word open_new open_existing truncate inode_get add_dir_entry add_to_block
    fill_entry strncpy strncmp_eq add_to_open_file_table get_open_file_entry write_unsynchronized
    write_block clip_write ensure_block advance_write memcpy
reader3 = record { is_handle = refl; below = omega arith; in_use = refl; file = refl }

pub start_reader3 : offset_of fs3 1 ≡ 0
unfolding init_fs inode_create init_inode init_directory data_block_alloc data_block_free
    data_block_get clear_entries store_int to_word find_first state_init open_unsynchronized
    lookup_unsynchronized valid_pathname find_in_dir find_in_block entry_matches entry_is_empty
    load_int word_at from_word open_new open_existing truncate inode_get add_dir_entry add_to_block
    fill_entry strncpy strncmp_eq add_to_open_file_table get_open_file_entry write_unsynchronized
    write_block clip_write ensure_block advance_write memcpy
start_reader3 = refl

pub end_writer3 : offset_of fs3 0 ≡ 5
unfolding init_fs inode_create init_inode init_directory data_block_alloc data_block_free
    data_block_get clear_entries store_int to_word find_first state_init open_unsynchronized
    lookup_unsynchronized valid_pathname find_in_dir find_in_block entry_matches entry_is_empty
    load_int word_at from_word open_new open_existing truncate inode_get add_dir_entry add_to_block
    fill_entry strncpy strncmp_eq add_to_open_file_table get_open_file_entry write_unsynchronized
    write_block clip_write ensure_block advance_write memcpy
end_writer3 = refl

pub size3 : size_of fs3 1 ≡ 5
unfolding init_fs inode_create init_inode init_directory data_block_alloc data_block_free
    data_block_get clear_entries store_int to_word find_first state_init open_unsynchronized
    lookup_unsynchronized valid_pathname find_in_dir find_in_block entry_matches entry_is_empty
    load_int word_at from_word open_new open_existing truncate inode_get add_dir_entry add_to_block
    fill_entry strncpy strncmp_eq add_to_open_file_table get_open_file_entry write_unsynchronized
    write_block clip_write ensure_block advance_write memcpy
size3 = refl

-- A second file, with a handle.
abbrev pub path_g : CString
path_g = b'/' ∷ name_g

abbrev pub fs4 : Fs
fs4 = (open_unsynchronized path_g tfs_o_creat fs3).1

pub fs4-Inv : Inv fs4
fs4-Inv = open_unsynchronized-Inv fs3 path_g tfs_o_creat fs3-Inv

pub other_writer : Opened fs4 (pos 2) 2 2
unfolding init_fs inode_create init_inode init_directory data_block_alloc data_block_free
    data_block_get clear_entries store_int to_word find_first state_init open_unsynchronized
    lookup_unsynchronized valid_pathname find_in_dir find_in_block entry_matches entry_is_empty
    load_int word_at from_word open_new open_existing truncate inode_get add_dir_entry add_to_block
    fill_entry strncpy strncmp_eq add_to_open_file_table get_open_file_entry write_unsynchronized
    write_block clip_write ensure_block advance_write memcpy
other_writer = record { is_handle = refl; below = omega arith; in_use = refl; file = refl }

pub size4 : size_of fs4 1 ≡ 5
unfolding init_fs inode_create init_inode init_directory data_block_alloc data_block_free
    data_block_get clear_entries store_int to_word find_first state_init open_unsynchronized
    lookup_unsynchronized valid_pathname find_in_dir find_in_block entry_matches entry_is_empty
    load_int word_at from_word open_new open_existing truncate inode_get add_dir_entry add_to_block
    fill_entry strncpy strncmp_eq add_to_open_file_table get_open_file_entry write_unsynchronized
    write_block clip_write ensure_block advance_write memcpy
size4 = refl

pub inode_1_in_use : fs4.freeinode_ts 1 ≡ taken
unfolding init_fs inode_create init_inode init_directory data_block_alloc data_block_free
    data_block_get clear_entries store_int to_word find_first state_init open_unsynchronized
    lookup_unsynchronized valid_pathname find_in_dir find_in_block entry_matches entry_is_empty
    load_int word_at from_word open_new open_existing truncate inode_get add_dir_entry add_to_block
    fill_entry strncpy strncmp_eq add_to_open_file_table get_open_file_entry write_unsynchronized
    write_block clip_write ensure_block advance_write memcpy
inode_1_in_use = refl

pub file_1-Live : Live fs4.inode_table fs4.freeinode_ts 1
file_1-Live = record {
  not_root = omega arith;
  below = omega arith;
  in_use = inode_1_in_use;
  nonempty = omega (arith, size4);
}

-- The same empty file while every block is taken.
abbrev pub full_fs : Fs
full_fs = record fs2 { free_blocks = λ b. taken }

pub full_fs-Inv : Inv full_fs
full_fs-Inv =
    let v : Inv fs2 = fs2-Inv in
    record {
      root = record {
        in_use = v.root.in_use;
        is_dir = v.root.is_dir;
        block = v.root.block;
        block_in_use = refl;
      };
      files = record {
        small = v.files.small;
        blocks = λ i live.
            (let b : HasBlock fs2.inode_table fs2.free_blocks i = v.files.blocks i live in
              record { is_pos = b.is_pos; not_root = b.not_root; below = b.below; in_use = refl });
        distinct = v.files.distinct;
      };
      entries = v.entries;
      handles = v.handles;
    }

pub full_writer : Opened full_fs (pos 0) 0 1
full_writer = record {
  is_handle = refl;
  below = omega arith;
  in_use = writer.in_use;
  file = writer.file;
}

pub full_fails : is_minus_one (write_unsynchronized (pos 0) hello 5 full_fs).0 ≡ true
unfolding init_fs inode_create init_inode init_directory data_block_alloc data_block_free
    data_block_get clear_entries store_int to_word find_first state_init open_unsynchronized
    lookup_unsynchronized valid_pathname find_in_dir find_in_block entry_matches entry_is_empty
    load_int word_at from_word open_new open_existing truncate inode_get add_dir_entry add_to_block
    fill_entry strncpy strncmp_eq add_to_open_file_table get_open_file_entry write_unsynchronized
    write_block clip_write ensure_block advance_write memcpy
full_fails = refl
