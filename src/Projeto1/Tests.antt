-- ===== src/Projeto1/Tests.antt =====
-- The theorems on the files of several blocks at small inputs.
pub mod Apart
use projeto_sistemas_operati.Projeto1.Types.{
  crashes, returns, block_number, indirect_access_block, set_block_number, Fs, Run,
}
use projeto_sistemas_operati.Projeto1.Position.{
  direct_block, get_current_offset, get_current_data_block,
}
use projeto_sistemas_operati.Base.{
  [], ◌∷◌, ap, false, is_minus_one, ltb, if◌then◌else◌, ◌*◌, refl, ◌∙◌, some, sym, minus_one,
  update, ◌%◌, ◌≤◌, arith, ◌<◌, ℤ, pos, subst, ◌≢◌, ◌≡◌, Array, ℕ, ◌+◌,
}
use projeto_sistemas_operati.Projeto1.Inodes.Creation.{inode_create-CreatesInode, CreatesInode}
use projeto_sistemas_operati.Projeto1.Operations.Writing.{Opened, tfs_write-WritesFile, WritesFile}
use projeto_sistemas_operati.Projeto1.Reading.{tfs_read}
use projeto_sistemas_operati.Projeto1.Operations.{
  tfs_init, final_size, finish_write, put_bytes, write_result, no_fuel, truncate_blocks, clip_block,
  truncate, tfs_write, write_loop,
}
use projeto_sistemas_operati.Projeto1.Reading.RoundTrip.{
  tfs_read-tfs_write, tfs_read-ReadsFile, ReadsFile,
}
use projeto_sistemas_operati.Projeto1.Position.Direct.{block_of, IsBlock, HasNumber, Owns}
use projeto_sistemas_operati.Projeto1.Inodes.{state_init, init_directory, init_inode, inode_create}
use projeto_sistemas_operati.Projeto2.Types.{
  t_directory, taken, block_size, free, data_blocks, max_open_files, t_file,
}
use projeto_sistemas_operati.Projeto2.Handles.{get_open_file_entry}
use projeto_sistemas_operati.Projeto1.Blocks.{
  data_block_alloc, data_block_free, free_indirect, free_bonus, free_direct, free_file,
}
use projeto_sistemas_operati.Projeto2.Blocks.{data_block_get}
use projeto_sistemas_operati.Projeto2.Inodes.{inode_get}
use projeto_sistemas_operati.Projeto1.Handles.{set_offset}
use projeto_sistemas_operati.Projeto1.Operations.Ends.{write_loop-ends}
use projeto_sistemas_operati.Projeto1.Operations.Truncated.{truncate-stale}
use projeto_sistemas_operati.Projeto1.Position.Offset.{get_current_offset-mod}
use projeto_sistemas_operati.Projeto1.Position.Bounds.{get_current_data_block-inside}
use projeto_sistemas_operati.Memory.{CString, from_word, word_at, load_int}
use projeto_sistemas_operati.Projeto1.Operations.Others.{Spares, Foreign}
use projeto_sistemas_operati.Projeto1.Operations.Sparing.{tfs_write-Spares}
use projeto_sistemas_operati.Projeto2.Directory.{fill_entry}
use projeto_sistemas_operati.Projeto1.Operations.Separate.{IsFile, Separate-tables, Separate}
use projeto_sistemas_operati.Projeto1.Operations.Apart.{tfs_write-Separate}
use projeto_sistemas_operati.Projeto1.Operations.Start.{tfs_init-Separate}
use projeto_sistemas_operati.Projeto1.Operations.Creating.{inode_create-Separate}
use projeto_sistemas_operati.Projeto1.Operations.Contents.{size_of}

-- The i-node `i` has five bytes, in the block `i + 2`; the blocks from the fifth on are free, and
-- every handle is at the start of the i-node 1.
abbrev pub five_bytes : Fs
five_bytes = record {
  inode_table = λ i. record {
    i_node_type = t_file;
    i_size = 5;
    i_data_block = update (λ j. minus_one) 0 (pos (i + 2));
  };
  freeinode_ts = λ i. taken;
  fs_data = λ a. a % 256;
  free_blocks = λ b. if ltb b 5 then taken else free;
  open_file_table = λ h. record { of_inumber = pos 1; of_offset = 0 };
  free_open_file_entries = λ h. taken;
  inode_table_lock = 0;
}

abbrev pub hello : Array ℕ
hello k = k + 65

only_first : (j : ℕ) → HasNumber five_bytes 1 j → j ≡ 0
only_first j h = ground (arith, h)

Owns-five_bytes : Owns five_bytes 1
Owns-five_bytes = record {
  is_block = λ j lt h.
      subst (λ k. IsBlock five_bytes.free_blocks (block_number five_bytes 1 k))
        (sym (only_first j h)) (record { is_pos = refl; below = omega arith; in_use = refl });
  apart = λ j k lj lk hj hk e. only_first j hj ∙ sym (only_first k hk);
}

Opened-five_bytes : (h : ℕ) → h < max_open_files → Opened five_bytes (pos h) h 1
Opened-five_bytes h lt = record {
  is_handle = refl;
  below = lt;
  file = refl;
  is_inode = omega arith;
}

tfs_write-WritesFile_example :
    WritesFile five_bytes 0 1 hello 1500 (tfs_write (pos 0) hello 1500 five_bytes)
tfs_write-WritesFile_example =
    tfs_write-WritesFile hello 1500 (Opened-five_bytes 0 (omega arith)) Owns-five_bytes
      (omega arith) (omega arith)

tfs_read-ReadsFile_example : ReadsFile five_bytes 1 1 5 hello (tfs_read (pos 1) hello 8 five_bytes)
tfs_read-ReadsFile_example =
    tfs_read-ReadsFile hello 8 (Opened-five_bytes 1 (omega arith)) Owns-five_bytes (omega arith)
      (omega arith) (omega arith) (λ k lo hi. ground (arith, hi))

-- The state after a write that succeeds.
abbrev written : Run (ℤ × Fs) → Fs
written crashes = five_bytes
written (returns (r, t)) = t

abbrev after_write : Fs
after_write = written (tfs_write (pos 0) hello 3 five_bytes)

write_succeeds : tfs_write (pos 0) hello 3 five_bytes ≡ returns (pos 3, after_write)
unfolding tfs_write get_open_file_entry inode_get write_result write_loop clip_block
    get_current_offset get_current_data_block direct_block data_block_get put_bytes finish_write
    final_size
write_succeeds = refl

tfs_read-tfs_write_example :
    (out : Array ℕ) × (tfs_read (pos 1) hello 3 after_write
      ≡ returns (pos 3, out, set_offset after_write 1 3))
    × ((k : ℕ) → k < 3 → out k ≡ hello k)
    × ((k : ℕ) → 3 ≤ k → out k ≡ hello k)
tfs_read-tfs_write_example =
    tfs_read-tfs_write hello 3 (Opened-five_bytes 0 (omega arith))
      (Opened-five_bytes 1 (omega arith)) (λ e. absurd (omega (arith, e))) Owns-five_bytes refl
      (omega arith) (omega arith) after_write hello write_succeeds

write_loop-ends_example : write_loop 1501 0 1 hello 0 1500 five_bytes ≢ no_fuel
write_loop-ends_example = write_loop-ends 1501 0 1 hello 0 1500 five_bytes (omega arith)

inode_create-CreatesInode_example : CreatesInode five_bytes (inode_create t_file five_bytes)
inode_create-CreatesInode_example = inode_create-CreatesInode five_bytes

five_bytes_found : get_current_data_block 1 3 five_bytes ≡ returns (some 3072, five_bytes)
unfolding get_current_data_block direct_block data_block_get
five_bytes_found = refl

get_current_data_block-inside_example :
    3072 + get_current_offset 3 + clip_block 3 2000 ≤ data_blocks * block_size
get_current_data_block-inside_example =
    get_current_data_block-inside 1 3 2000 five_bytes 3072 five_bytes (omega arith) (omega arith)
      five_bytes_found

-- The same with an indirect block, the fourth, that holds no number.
abbrev with_indirect : Fs
with_indirect = record (set_block_number five_bytes 1 indirect_access_block (pos 4)) {
  fs_data = λ a. 255;
}

truncate_succeeds : is_minus_one (truncate 1 with_indirect).0 ≡ false
unfolding truncate truncate_blocks free_file free_direct free_bonus free_indirect data_block_free
    data_block_get load_int word_at from_word
truncate_succeeds = refl

truncate-stale_example :
    (((truncate 1 with_indirect).1.inode_table 1).i_size ≡ 0)
    × (block_number (truncate 1 with_indirect).1 1 indirect_access_block ≡ pos 4)
    × ((truncate 1 with_indirect).1.free_blocks 4 ≡ free)
truncate-stale_example =
    truncate-stale 1 4 with_indirect refl (omega arith) refl (omega arith) truncate_succeeds

-- The fourth block is the first of the i-node 2.
Foreign-five_bytes : Foreign five_bytes 1 4
Foreign-five_bytes = record {
  in_use = refl;
  not_mine =
      λ j lt h e. absurd (ground (arith, ap (block_of five_bytes 1) (sym (only_first j h)), e));
}

tfs_write-Spares_example :
    (r : ℤ) × (t : Fs) × (tfs_write (pos 0) hello 1500 five_bytes ≡ returns (r, t))
    × Spares five_bytes 1 4 t
tfs_write-Spares_example =
    tfs_write-Spares 4 hello 1500 (Opened-five_bytes 0 (omega arith)) Foreign-five_bytes
      (omega arith)

abbrev name_f : CString
name_f = b'f' ∷ b'1' ∷ []

abbrev path_f : CString
path_f = b'/' ∷ name_f

-- The same with a directory, in the second block, whose first entry is the file 1, and free handles.
abbrev with_directory : Fs
with_directory = record five_bytes {
  inode_table =
      update five_bytes.inode_table 0
        (record (five_bytes.inode_table 0) { i_node_type = t_directory });
  fs_data = fill_entry five_bytes.fs_data 2048 0 (pos 1) name_f;
  free_open_file_entries = λ h. free;
}
