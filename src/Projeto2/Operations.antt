-- ===== src/Projeto2/Operations.antt =====
-- fs/operations.c, without its lock: each `_unsynchronized` function, and `tfs_init`'s file system.
-- A path is a string that is not NULL.
pub mod Opening
pub mod Writing
pub mod Contents
pub mod Write
pub mod Read
pub mod Stale
pub mod RoundTrip
pub mod Created
use projeto_sistemas_operati.Base.{
  ℕ, ◌+◌, Bool, ◌&&◌, not, none, some, Array, drop, length, ltb, ◌==◌, if◌then◌else◌, ℤ, pos,
  minus_one, is_minus_one, is_nonneg, is_zero, update,
}
use projeto_sistemas_operati.Memory.{CString, char_at, memcpy}
use projeto_sistemas_operati.Projeto2.Types.{
  Fs, t_file, t_directory, root_dir_inum, block_size, add_size, sub_size, to_ssize, has_flag,
  tfs_o_creat, tfs_o_trunc, tfs_o_append, set_inode,
}
use projeto_sistemas_operati.Projeto2.Blocks.{data_block_alloc, data_block_free, data_block_get}
use projeto_sistemas_operati.Projeto2.Directory.{add_dir_entry, find_in_dir}
use projeto_sistemas_operati.Projeto2.Inodes.{state_init, inode_create, inode_delete, inode_get}
use projeto_sistemas_operati.Projeto2.Handles.{add_to_open_file_table, get_open_file_entry}

-- The tables after `state_init` and the creation of the root directory, and what `tfs_init` returns.
unfoldable pub init_fs : Fs → ℤ × Fs
init_fs s =
    let (root, s') = inode_create t_directory (state_init s) in
    if is_zero root then (pos 0, s') else (minus_one, s')

unfoldable pub valid_pathname : CString → Bool
valid_pathname name = ltb 1 (length name) && char_at name 0 == b'/'

unfoldable pub lookup_unsynchronized : CString → Fs → ℤ
lookup_unsynchronized name s =
    if not (valid_pathname name) then minus_one else find_in_dir (pos root_dir_inum) (drop 1 name) s

-- `O_TRUNC` on the i-node `i`: -1 where the block cannot be freed.
unfoldable pub truncate : ℕ → Fs → ℤ × Fs
truncate i s =
    let inode = s.inode_table i in
    if ltb 0 inode.i_size
    then (let (r, s') = data_block_free inode.i_data_block s in
        if is_minus_one r
        then (minus_one, s')
        else (pos 0, set_inode s' i (record inode { i_size = 0 })))
    else (pos 0, s)

-- The branch of `_tfs_open_unsynchronized` for a file that exists.
unfoldable pub open_existing : ℤ → ℕ → Fs → ℤ × Fs
open_existing inum flags s = elim (inode_get inum) [
  | none ↦ (minus_one, s)
  | some i ↦
      let (r, s') = if has_flag flags tfs_o_trunc then truncate i s else (pos 0, s) in
      if is_minus_one r
      then (minus_one, s')
      else add_to_open_file_table inum
          (if has_flag flags tfs_o_append then (s'.inode_table i).i_size else 0) s'
]

-- The branch of `_tfs_open_unsynchronized` that creates the file.
unfoldable pub open_new : CString → Fs → ℤ × Fs
open_new name s =
    let (inum, s1) = inode_create t_file s in
    if is_minus_one inum
    then (minus_one, s1)
    else (let (r, s2) = add_dir_entry (pos root_dir_inum) inum (drop 1 name) s1 in
        if is_minus_one r
        then (minus_one, (inode_delete inum s2).1)
        else add_to_open_file_table inum 0 s2)

unfoldable pub open_unsynchronized : CString → ℕ → Fs → ℤ × Fs
open_unsynchronized name flags s =
    let inum = lookup_unsynchronized name s in
    if is_nonneg inum
    then open_existing inum flags s
    else if has_flag flags tfs_o_creat
    then open_new name s
    else (minus_one, s)

-- How many bytes a write at `offset` may take.
unfoldable pub clip_write : ℕ → ℕ → ℕ
clip_write offset to_write =
    if ltb block_size (add_size to_write offset) then sub_size block_size offset else to_write

-- `file->of_offset = o` for the entry `h`.
abbrev pub set_offset : Fs → ℕ → ℕ → Fs
set_offset s h o = record s {
  open_file_table = update s.open_file_table h (record (s.open_file_table h) { of_offset = o });
}

-- An empty file gets a block before it is written.
unfoldable pub ensure_block : ℕ → Fs → Fs
ensure_block i s =
    if (s.inode_table i).i_size == 0
    then (let (b, s') = data_block_alloc s in
        set_inode s' i (record (s'.inode_table i) { i_data_block = b }))
    else s

-- The offset advances by `n`, and the size follows where the offset passes it.
unfoldable pub advance_write : ℕ → ℕ → ℕ → Fs → Fs
advance_write h i n s =
    let offset = add_size (s.open_file_table h).of_offset n in
    let s' = set_offset s h offset in
    if ltb (s.inode_table i).i_size offset
    then set_inode s' i (record (s.inode_table i) { i_size = offset })
    else s'

-- The write of `n` bytes, clipped already, through the entry `h` of the i-node `i`.
unfoldable pub write_block : ℕ → ℕ → Array ℕ → ℕ → Fs → ℤ × Fs
write_block h i buffer n s =
    if ltb 0 n
    then (let s' = ensure_block i s in
        elim (data_block_get (s'.inode_table i).i_data_block) [
          | none ↦ (minus_one, s')
          | some block ↦ (
            to_ssize n,
            advance_write h i n (record s' {
              fs_data = memcpy s'.fs_data (block + (s'.open_file_table h).of_offset) buffer 0 n;
            }),
          )
        ])
    else (to_ssize n, s)

unfoldable pub write_unsynchronized : ℤ → Array ℕ → ℕ → Fs → ℤ × Fs
write_unsynchronized fhandle buffer to_write s = elim (get_open_file_entry fhandle) [
  | none ↦ (minus_one, s)
  | some h ↦ elim (inode_get (s.open_file_table h).of_inumber) [
    | none ↦ (minus_one, s)
    | some i ↦ write_block h i buffer (clip_write (s.open_file_table h).of_offset to_write) s
  ]
]

-- How many bytes a read at `offset` of a file of `size` bytes may take.
unfoldable pub clip_read : ℕ → ℕ → ℕ → ℕ
clip_read size offset len =
    let to_read = sub_size size offset in if ltb len to_read then len else to_read

-- The read of `n` bytes through the entry `h` of the i-node `i`: the result, the buffer, the tables.
-- `fs_data` has a byte at every address, also past the last block, where the program has none.
unfoldable pub read_block : ℕ → ℕ → Array ℕ → ℕ → Fs → ℤ × Array ℕ × Fs
read_block h i buffer n s =
    let offset = (s.open_file_table h).of_offset in
    if ltb 0 n
    then elim (data_block_get (s.inode_table i).i_data_block) [
      | none ↦ (minus_one, buffer, s)
      | some block ↦ (
        to_ssize n,
        memcpy buffer 0 s.fs_data (block + offset) n,
        set_offset s h (add_size offset n),
      )
    ]
    else (to_ssize n, buffer, s)

unfoldable pub read_unsynchronized : ℤ → Array ℕ → ℕ → Fs → ℤ × Array ℕ × Fs
read_unsynchronized fhandle buffer len s = elim (get_open_file_entry fhandle) [
  | none ↦ (minus_one, buffer, s)
  | some h ↦ elim (inode_get (s.open_file_table h).of_inumber) [
    | none ↦ (minus_one, buffer, s)
    | some i ↦
        read_block h i buffer
          (clip_read (s.inode_table i).i_size (s.open_file_table h).of_offset len) s
  ]
]
