-- ===== src/Projeto2/Operations/Writing.antt =====
-- The outcomes of `write_unsynchronized` through a handle in use.
use projeto_sistemas_operati.Projeto2.Operations.{
  ensure_block, write_block, write_unsynchronized, clip_write,
}
use projeto_sistemas_operati.Projeto2.Types.{
  AllocationState, Inode, set_inode, taken, inode_table_size, data_blocks, max_open_files,
  block_size, Fs,
}
use projeto_sistemas_operati.Projeto2.Handles.{get_open_file_entry}
use projeto_sistemas_operati.Base.{
  ap, true, ltb, ◌*◌, some, refl, zero, suc, minus_one, ◌-◌, min, ◌^◌, arith, pos, ◌<◌, ◌+◌, ◌≤◌,
  Array, ◌≡◌, ℕ, ℤ,
}
use projeto_sistemas_operati.Projeto2.Invariant.{HasBlock, block_of, Inv}
use projeto_sistemas_operati.Projeto2.Inodes.{inode_get}
use projeto_sistemas_operati.Projeto2.Blocks.{data_block_get}
use projeto_sistemas_operati.Projeto2.Invariant.Ready.{
  ready, full, ensure_block-EnsuresBlock, Ready,
}
use projeto_sistemas_operati.Projeto2.Invariant.Write.{advance_write_lem, written}

-- `fhandle` is the handle `h` in use, of the file `i`.
pub record Opened (s : Fs) (fhandle : ℤ) (h i : ℕ) : Type 0 where
  pub is_handle : fhandle ≡ pos h
  pub below : h < max_open_files
  pub in_use : s.free_open_file_entries h ≡ taken
  pub file : (s.open_file_table h).of_inumber ≡ pos i

abbrev pub offset_of : Fs → ℕ → ℕ
offset_of s h = (s.open_file_table h).of_offset

abbrev pub size_of : Fs → ℕ → ℕ
size_of s i = (s.inode_table i).i_size

pub data Writes (s : Fs) (h i : ℕ) (buffer : Array ℕ) (n : ℕ) (r : ℤ × Fs) : Type 0 where
  nothing : n ≡ 0 → r ≡ (pos 0, s) → Writes s h i buffer n r
  no_block :
      size_of s i ≡ 0
      → ((b : ℕ) → b < data_blocks → s.free_blocks b ≡ taken)
      → r ≡ (minus_one, set_inode s i (record (s.inode_table i) { i_data_block = minus_one }))
      → Writes s h i buffer n r
  wrote :
      (s' : Fs)
      → Ready s s' i
      → 0 < n
      → offset_of s' h + n ≤ block_size
      → r ≡ (pos n, written s' h i buffer n)
      → Writes s h i buffer n r

-- Where no sum wraps, a write takes what fits in the block after the offset.
clip_write_lem :
    (offset to_write : ℕ)
    → offset ≤ block_size
    → to_write + block_size < 2 ^ 64
    → clip_write offset to_write ≡ min to_write (block_size - offset)
unfolding clip_write
clip_write_lem offset to_write le small = ground arith

pub Opened-Names :
    {s : Fs} {fhandle : ℤ} {h i : ℕ}
    → Inv s
    → Opened s fhandle h i
    → (0 < i) × (i < inode_table_size) × (s.freeinode_ts i ≡ taken) × (offset_of s h ≤ block_size)
Opened-Names {s} {fhandle} {h} {i} v o = ground (arith, o, v.handles h o.below o.in_use)

pub write_unsynchronized_open :
    {s : Fs} {fhandle : ℤ} {h i : ℕ} (buffer : Array ℕ) (to_write : ℕ)
    → Inv s
    → Opened s fhandle h i
    → write_unsynchronized fhandle buffer to_write s
      ≡ write_block h i buffer (clip_write (offset_of s h) to_write) s
unfolding write_unsynchronized get_open_file_entry inode_get
write_unsynchronized_open buffer to_write v o = ground (arith, o, Opened-Names v o)

pub data_block_get-HasBlock :
    {it : Array Inode} {fb : Array AllocationState} {i : ℕ}
    → HasBlock it fb i
    → data_block_get (it i).i_data_block ≡ some (block_of it i * block_size)
unfolding data_block_get
data_block_get-HasBlock b = ground (arith, b)

write_block-Ready :
    (s : Fs) (h i : ℕ) (buffer : Array ℕ) (n : ℕ)
    → Ready s (ensure_block i s) i
    → 0 < n
    → offset_of (ensure_block i s) h + n ≤ block_size
    → write_block h i buffer n s ≡ (pos n, written (ensure_block i s) h i buffer n)
unfolding write_block
write_block-Ready s h i buffer n r p fits =
    let s' = ensure_block i s in
    let got : data_block_get (s'.inode_table i).i_data_block
        ≡ some (block_of s'.inode_table i * block_size) =
      data_block_get-HasBlock r.writable.has_block in
    let test : ltb 0 n ≡ true = ground arith in
    let small : ltb n (2 ^ 63) ≡ true = ground arith in
    rw (test, got, small, write_block)
      (ap (λ t. (pos n, t)) (advance_write_lem _ h i n (omega arith)))

write_block_full :
    (s : Fs) (i h : ℕ) (buffer : Array ℕ) (n : ℕ)
    → 0 < n
    → ensure_block i s ≡ set_inode s i (record (s.inode_table i) { i_data_block = minus_one })
    → write_block h i buffer n s
      ≡ (minus_one, set_inode s i (record (s.inode_table i) { i_data_block = minus_one }))
unfolding write_block data_block_get
write_block_full s i h buffer n p e = ground (arith, e)

write_block-Writes :
    (s : Fs) (h i : ℕ) (buffer : Array ℕ) (n : ℕ)
    → Inv s
    → 0 < i
    → i < inode_table_size
    → s.freeinode_ts i ≡ taken
    → offset_of s h + n ≤ block_size
    → Writes s h i buffer n (write_block h i buffer n s)
unfolding write_block
write_block-Writes s h i buffer zero v p lt u fits = nothing refl (ground arith)
write_block-Writes s h i buffer (suc n) v p lt u fits =
    elim (ensure_block-EnsuresBlock s v i p lt u) [
      | full e all eq ↦ no_block e all (write_block_full s i h buffer (suc n) (omega arith) eq)
      | ready r ↦
          wrote _ r (omega arith) (rw r.same_handles fits)
            (write_block-Ready s h i buffer (suc n) r (omega arith) (rw r.same_handles fits))
    ]

-- A write through a handle in use takes as many bytes as fit in the block after the offset, and
-- fails only for an empty file where no block is free.
pub write_unsynchronized-Writes :
    {s : Fs} {fhandle : ℤ} {h i : ℕ} (buffer : Array ℕ) (to_write : ℕ)
    → Inv s
    → Opened s fhandle h i
    → to_write + block_size < 2 ^ 64
    → Writes s h i buffer
        (min to_write (block_size - offset_of s h))
        (write_unsynchronized fhandle buffer to_write s)
write_unsynchronized-Writes {s} {fhandle} {h} {i} buffer to_write v o small =
    let (p, lt, u, le) = Opened-Names v o in
    rw
      (
        write_unsynchronized_open buffer to_write v o,
        clip_write_lem (offset_of s h) to_write le small,
      )
      (write_block-Writes s h i buffer _ v p lt u (omega arith))
