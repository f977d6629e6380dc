-- ===== src/Projeto1/Operations.antt =====
-- fs/operations.c. A path is not NULL, and calls run one at a time. The locks are not part of the
-- model but for `inode_table_lock`, which a call may keep. `Run` says whether a call crashes.
pub mod Ends
pub mod Contents
pub mod Writing
pub mod Others
pub mod Sparing
pub mod Separate
pub mod Apart
pub mod Start
pub mod Creating
pub mod Truncated
pub mod Racing
pub mod Lone
use projeto_sistemas_operati.Memory.{char_at, memcpy, CString}
use projeto_sistemas_operati.Projeto1.Types.{returns, set_inode, crashes, Fs, Run}
use projeto_sistemas_operati.Base.{
  drop, zero, is_nonneg, ◌-◌, is_zero, ◌&&◌, pos, some, length, ◌+◌, is_minus_one, minus_one, suc,
  ltb, leb, none, ◌==◌, not, Array, Bool, if◌then◌else◌, Option, ℕ, ℤ,
}
use projeto_sistemas_operati.Projeto1.Handles.{
  add_to_open_file_table, set_offset, offset_of, remove_from_open_file_table,
}
use projeto_sistemas_operati.Projeto1.Inodes.{inode_delete, state_init, inode_create}
use projeto_sistemas_operati.Projeto2.Inodes.{inode_get}
use projeto_sistemas_operati.Projeto2.Types.{
  tfs_o_append, sub_size, block_size, root_dir_inum, tfs_o_creat, tfs_o_trunc, to_ssize, has_flag,
  add_size, is_directory, t_file, t_directory,
}
use projeto_sistemas_operati.Projeto2.Handles.{get_open_file_entry}
use projeto_sistemas_operati.Projeto1.Blocks.{free_file, free_directory}
use projeto_sistemas_operati.Projeto1.Directory.{find_in_dir, add_dir_entry}
use projeto_sistemas_operati.Projeto1.Position.{get_current_data_block, get_current_offset}

unfoldable pub tfs_init : Fs → ℤ × Fs
tfs_init s =
    let (root, s') = inode_create t_directory (state_init s) in
    if is_zero root then (pos 0, s') else (minus_one, s')

unfoldable pub valid_pathname : CString → Bool
valid_pathname name = ltb 1 (length name) && char_at name 0 == b'/'

unfoldable pub tfs_lookup : CString → Fs → ℤ
tfs_lookup name s =
    if not (valid_pathname name) then minus_one else find_in_dir (pos root_dir_inum) (drop 1 name) s

-- The branch for a directory, whose block is given back only where it has none.
unfoldable pub truncate_blocks : ℕ → Fs → ℤ × Fs
truncate_blocks i s =
    if is_directory (s.inode_table i).i_node_type then free_directory i s else free_file i s

unfoldable pub truncate : ℕ → Fs → ℤ × Fs
truncate i s =
    if ltb 0 (s.inode_table i).i_size
    then (let (r, s') = truncate_blocks i s in
        if is_minus_one r
        then (minus_one, s')
        else (pos 0, set_inode s' i (record (s'.inode_table i) { i_size = 0 })))
    else (pos 0, s)

unfoldable pub open_existing : ℤ → ℕ → Fs → ℤ × Fs
open_existing inum flags s = elim (inode_get inum) [
  | none ↦ (minus_one, s)
  | some i ↦
      let (r, s') = if has_flag flags tfs_o_trunc then truncate i s else (pos 0, s) in
      if is_minus_one r
      then (minus_one, s')
      else add_to_open_file_table inum
          (if has_flag flags tfs_o_append then (s'.inode_table i).i_size else 0) s'
]

unfoldable pub open_new : CString → Fs → ℤ × Fs
open_new name s =
    let (inum, s1) = inode_create t_file s in
    if is_minus_one inum
    then (minus_one, s1)
    else (let (r, s2) = add_dir_entry (pos root_dir_inum) inum (drop 1 name) s1 in
        if is_minus_one r
        then (minus_one, (inode_delete inum s2).1)
        else add_to_open_file_table inum 0 s2)

unfoldable pub tfs_open : CString → ℕ → Fs → ℤ × Fs
tfs_open name flags s =
    let inum = tfs_lookup name s in
    if not (valid_pathname name)
    then (minus_one, s)
    else if is_nonneg inum
    then open_existing inum flags s
    else if has_flag flags tfs_o_creat
    then open_new name s
    else (minus_one, s)

unfoldable pub tfs_close : ℤ → Fs → ℤ × Fs
tfs_close = remove_from_open_file_table

-- What a loop comes to: it ends, or a block is missing, or it crashes; `no_fuel` is no result of
-- the program, and the fuel that the calls give is enough.
pub data Loop {ℓ} (A : Type ℓ) : Type ℓ where
  no_fuel loop_crashes : Loop A
  no_block ends : A → Loop A

-- The result of `get_current_data_block` in a loop, which goes on at the block's address.
abbrev pub at_block {ℓ} : {A : Type ℓ} → Run (Option ℕ × Fs) → (Fs → A) → (ℕ → Fs → Loop A) → Loop A
at_block crashes missing go = loop_crashes
at_block (returns (none, s)) missing go = no_block (missing s)
at_block (returns (some block, s)) missing go = go block s

-- How many of `count` bytes go to the block in which `offset` stands.
unfoldable pub clip_block : ℕ → ℕ → ℕ
clip_block offset count =
    if leb (add_size count (get_current_offset offset)) block_size
    then count
    else sub_size block_size (get_current_offset offset)

-- `n` bytes of the buffer, from `from` on, go to the block, and the offset and the size grow.
unfoldable pub put_bytes : ℕ → ℕ → Array ℕ → ℕ → ℕ → ℕ → Fs → Fs
put_bytes h i buffer from n block s =
    let offset = offset_of s h in
    let s1 = record s {
      fs_data = memcpy s.fs_data (block + get_current_offset offset) buffer from n;
    } in
    let s2 = set_offset s1 h (add_size offset n) in
    set_inode s2 i (record (s2.inode_table i) { i_size = add_size (s2.inode_table i).i_size n })

-- The loop of `tfs_write` through the entry `h` of the i-node `i`: `from` is `bytes_written`.
unfoldable pub write_loop : ℕ → ℕ → ℕ → Array ℕ → ℕ → ℕ → Fs → Loop Fs
write_loop zero h i buffer from to_write s = no_fuel
write_loop (suc fuel) h i buffer from to_write s =
    let n = clip_block (offset_of s h) to_write in
    let rest = λ (block : ℕ) (t : Fs).
      write_loop fuel h i buffer (from + n) (to_write - n) (put_bytes h i buffer from n block t) in
    if to_write == 0
    then ends s
    else at_block (get_current_data_block i (offset_of s h) s) (λ t. t) rest

-- The size after the loop, from the offset and the size before it.
unfoldable pub final_size : ℕ → ℕ → ℕ → ℕ → ℕ
final_size inicial_offset inicial_size bytes_written size =
    if inicial_offset == inicial_size
    then size
    else if ltb inicial_size (add_size bytes_written inicial_offset)
    then add_size bytes_written inicial_offset
    else inicial_size

unfoldable pub finish_write : ℕ → ℕ → ℕ → Fs → Fs → Fs
finish_write h i to_write s t = set_inode t i (record (t.inode_table i) {
  i_size = final_size (offset_of s h) (s.inode_table i).i_size to_write (t.inode_table i).i_size;
})

-- What `tfs_write` returns where its loop has ended; `crashes` stands for the missing fuel too.
unfoldable pub write_result : ℕ → ℕ → ℕ → Fs → Loop Fs → Run (ℤ × Fs)
write_result h i to_write s no_fuel = crashes
write_result h i to_write s loop_crashes = crashes
write_result h i to_write s (no_block t) = returns (minus_one, t)
write_result h i to_write s (ends t) = returns (to_ssize to_write, finish_write h i to_write s t)

unfoldable pub tfs_write : ℤ → Array ℕ → ℕ → Fs → Run (ℤ × Fs)
tfs_write fhandle buffer to_write s = elim (get_open_file_entry fhandle) [
  | none ↦ returns (minus_one, s)
  | some h ↦ elim (inode_get (s.open_file_table h).of_inumber) [
    | none ↦ returns (minus_one, s)
    | some i ↦ write_result h i to_write s (write_loop (suc to_write) h i buffer 0 to_write s)
  ]
]
