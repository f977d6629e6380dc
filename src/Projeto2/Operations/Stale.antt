-- ===== src/Projeto2/Operations/Stale.antt =====
-- `read_unsynchronized` through a handle whose offset is past the end of its file.
use projeto_sistemas_operati.Projeto2.Operations.{read_unsynchronized, truncate, clip_read}
use projeto_sistemas_operati.Projeto2.Types.{valid_block_number, block_size, Fs}
use projeto_sistemas_operati.Base.{subst, arith, true, ◌^◌, ◌≡◌, ◌+◌, ◌≤◌, ◌<◌, Array, ℕ, ℤ}
use projeto_sistemas_operati.Projeto2.Invariant.{Live, Inv}
use projeto_sistemas_operati.Projeto2.Operations.Writing.{Opened-Names, offset_of, size_of, Opened}
use projeto_sistemas_operati.Projeto2.Operations.Read.{
  read_block-Reads, read_unsynchronized_open, Reads,
}
use projeto_sistemas_operati.Projeto2.Invariant.Inodes.{truncate-Inv, truncate-Live, emptied}

-- Past the end the difference wraps, and nothing limits the read.
clip_read_past :
    (size offset len : ℕ)
    → size < offset
    → offset ≤ block_size
    → len + block_size < 2 ^ 64
    → clip_read size offset len ≡ len
unfolding clip_read
clip_read_past size offset len past le small = ground arith

read_past_end :
    {s : Fs} {fhandle : ℤ} {h i : ℕ} (buffer : Array ℕ) (len : ℕ)
    → Inv s
    → Opened s fhandle h i
    → valid_block_number (s.inode_table i).i_data_block ≡ true
    → size_of s i < offset_of s h
    → 0 < len
    → len + block_size < 2 ^ 63
    → Reads s h i buffer len (read_unsynchronized fhandle buffer len s)
read_past_end {s} {fhandle} {h} {i} buffer len v o valid past p small =
    let (p', lt, u, le) = Opened-Names v o in
    rw
      (
        read_unsynchronized_open buffer len v o,
        clip_read_past (size_of s i) (offset_of s h) len past le (omega arith),
      )
      (read_block-Reads s h i buffer len valid (omega arith) p)

-- In well-formed tables, once a file that had bytes has been truncated, a handle of it that stands
-- past its start does not stop at the end: a read through it of `len` bytes, more than 0, which
-- end within the block, returns `len`, copies as many bytes of the freed block from its offset on,
-- and moves the offset further.
pub read_after_truncate :
    {s : Fs} {fhandle : ℤ} {h i : ℕ} (buffer : Array ℕ) (len : ℕ)
    → Inv s
    → Opened s fhandle h i
    → 0 < size_of s i
    → 0 < offset_of s h
    → 0 < len
    → offset_of s h + len ≤ block_size
    → let s' = (truncate i s).1 in
      (size_of s' i ≡ 0) × Reads s' h i buffer len (read_unsynchronized fhandle buffer len s')
read_after_truncate {s} {fhandle} {h} {i} buffer len v o some_bytes past p within =
    let (p', lt, u, le) = Opened-Names v o in
    let live : Live s.inode_table s.freeinode_ts i = record {
      not_root = p';
      below = lt;
      in_use = u;
      nonempty = some_bytes;
    } in
    let inv : Inv (emptied v i) =
      subst (λ r. Inv r.1) (truncate-Live v i live) (truncate-Inv v i p' lt u).1 in
    let same : Opened (emptied v i) fhandle h i = record {
      is_handle = o.is_handle;
      below = o.below;
      in_use = o.in_use;
      file = o.file;
    } in
    let none_left : size_of (emptied v i) i ≡ 0 = ground arith in
    rw (truncate-Live v i live) (
      none_left,
      read_past_end {s = emptied v i} buffer len inv same (ground (arith, v.files.blocks i live))
          (ground (arith, none_left, past)) p (omega (arith, within)),
    )
