-- ===== src/Projeto1/Reading.antt =====
-- fs/operations.c: `tfs_read` and `tfs_copy_to_external_fs`.
pub mod Bytes
pub mod RoundTrip
pub mod Copying
pub mod External
use projeto_sistemas_operati.Base.{
  pos, ◌++◌, ◌==◌, ◌-◌, zero, some, none, ◌∷◌, minus_one, ◌+◌, suc, ltb, [], is_minus_one, List,
  if◌then◌else◌, Array, ℤ, Bool, ℕ,
}
use projeto_sistemas_operati.Memory.{bytes_of, memcpy, CString}
use projeto_sistemas_operati.Projeto2.Types.{to_ssize, index, add_size, sub_size}
use projeto_sistemas_operati.Projeto1.Types.{returns, buffer_size, crashes, Run, Fs}
use projeto_sistemas_operati.Projeto1.Operations.{
  tfs_close, loop_crashes, at_block, ends, no_block, clip_block, tfs_open, no_fuel, Loop,
}
use projeto_sistemas_operati.Projeto1.Handles.{set_offset, offset_of}
use projeto_sistemas_operati.Projeto2.Handles.{get_open_file_entry}
use projeto_sistemas_operati.Projeto1.Position.{get_current_data_block, get_current_offset}
use projeto_sistemas_operati.Projeto2.Inodes.{inode_get}

-- The buffer from `at` on, and the offset, after `n` bytes of the block.
unfoldable pub take_bytes : ℕ → ℕ → ℕ → ℕ → Array ℕ × Fs → Array ℕ × Fs
take_bytes h at n block (buffer, s) =
    let offset = offset_of s h in
    (
      memcpy buffer at s.fs_data (block + get_current_offset offset) n,
      set_offset s h (add_size offset n),
    )

-- The loop of `tfs_read`: `at` is `bytes_read`. It makes a block where there is none.
unfoldable pub read_loop : ℕ → ℕ → ℕ → ℕ → ℕ → Array ℕ × Fs → Loop (Array ℕ × Fs)
read_loop zero h i at to_read (buffer, s) = no_fuel
read_loop (suc fuel) h i at to_read (buffer, s) =
    let n = clip_block (offset_of s h) to_read in
    let rest = λ (block : ℕ) (t : Fs).
      read_loop fuel h i (at + n) (to_read - n) (take_bytes h at n block (buffer, t)) in
    if to_read == 0
    then ends (buffer, s)
    else at_block (get_current_data_block i (offset_of s h) s) (λ t. (buffer, t)) rest

unfoldable pub clip_read : ℕ → ℕ → ℕ → ℕ
clip_read size offset len =
    let to_read = sub_size size offset in if ltb len to_read then len else to_read

unfoldable pub read_result : ℕ → Loop (Array ℕ × Fs) → Run (ℤ × Array ℕ × Fs)
read_result to_read no_fuel = crashes
read_result to_read loop_crashes = crashes
read_result to_read (no_block (buffer, t)) = returns (minus_one, buffer, t)
read_result to_read (ends (buffer, t)) = returns (to_ssize to_read, buffer, t)

-- It takes the lock of the entry before it tests the entry, so a bad handle is an access to NULL.
unfoldable pub tfs_read : ℤ → Array ℕ → ℕ → Fs → Run (ℤ × Array ℕ × Fs)
tfs_read fhandle buffer len s = elim (get_open_file_entry fhandle) [
  | none ↦ crashes
  | some h ↦ elim (inode_get (s.open_file_table h).of_inumber) [
    | none ↦ returns (minus_one, buffer, s)
    | some i ↦
        (let to_read = clip_read (s.inode_table i).i_size (offset_of s h) len in
          read_result to_read (read_loop (suc to_read) h i 0 to_read (buffer, s)))
  ]
]

-- What the copying comes to: the result, the tables, and the bytes in the file outside, in order.
pub data Copy : Type 0 where
  copy_no_fuel copy_crashes : Copy
  copied : ℤ → Fs → List ℕ → Copy

-- `while (bytes_read == BUFFER_SIZE)`: what is read is written outside, until a read takes less. A
-- read that fails leaves the handle open. `fwrite` never returns -1, a `size_t`.
unfoldable pub copy_loop : ℕ → ℤ → Fs → List ℕ → Copy
copy_loop zero fhandle s out = copy_no_fuel
copy_loop (suc fuel) fhandle s out = elim (tfs_read fhandle (λ k. 0) buffer_size s) [
  | crashes ↦ copy_crashes
  | returns (r, b, t) ↦
      (let out' = out ++ bytes_of (index r) b in
        let more = copy_loop fuel fhandle t out' in
        if is_minus_one r
        then copied minus_one t out
        else if index r == buffer_size
        then more
        else copied (pos 0) (tfs_close fhandle t).1 out')
]

-- `opened` is whether `fopen` succeeds; where it fails, the handle stays open.
unfoldable pub tfs_copy_to_external_fs : Bool → CString → ℕ → Fs → Copy
tfs_copy_to_external_fs opened source_path fuel s =
    let (fhandle, t) = tfs_open source_path 0 s in
    if is_minus_one fhandle
    then copied minus_one t []
    else if opened
    then copy_loop fuel fhandle t []
    else copied minus_one t []
