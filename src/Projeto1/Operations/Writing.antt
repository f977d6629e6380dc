-- ===== src/Projeto1/Operations/Writing.antt =====
-- The loop of `tfs_write` within the direct blocks, and the call around it.
use projeto_sistemas_operati.Projeto1.Operations.{
  tfs_write, finish_write, write_result, final_size, put_bytes, clip_block, ends, no_block, Loop,
  write_loop,
}
use projeto_sistemas_operati.Projeto1.Types.{returns, Run, set_inode, Fs}
use projeto_sistemas_operati.Base.{
  minus_one, ap, ◌∙◌, pos, max, ℤ, zero, ◌%◌, ◌-◌, min, pos_of_test, inr, zero_of_test, sym, inl,
  ◌==◌, Bool-cases, suc, subst, ◌^◌, arith, ◌≡◌, ◌≤◌, ◌+◌, ◌<◌, Array, ℕ,
}
use projeto_sistemas_operati.Projeto1.Operations.Contents.{
  put_bytes-Wrote, Wrote-none, Wrote-then, size_of, direct_size, Wrote,
}
use projeto_sistemas_operati.Projeto1.Position.Direct.{Owns}
use projeto_sistemas_operati.Projeto1.Position.Located.{
  located, no_block_left, get_current_data_block-Locates,
}
use projeto_sistemas_operati.Projeto1.Handles.{offset_of}
use projeto_sistemas_operati.Projeto2.Types.{
  inode_table_size, max_open_files, block_size, taken, data_blocks,
}
use projeto_sistemas_operati.Projeto1.Position.Offset.{clip_block_lem}
use projeto_sistemas_operati.Projeto2.Handles.{get_open_file_entry}
use projeto_sistemas_operati.Projeto2.Inodes.{inode_get}

-- The loop writes everything; or it stops where it needs a block and every block is taken.
pub data Writes (s : Fs) (h i : ℕ) (buffer : Array ℕ) (from count : ℕ) (r : Loop Fs) : Type 0 where
  full_disk :
      (t : Fs) (done : ℕ)
      → done < count
      → Wrote s h i buffer from done t
      → ((b : ℕ) → b < data_blocks → t.free_blocks b ≡ taken)
      → r ≡ no_block t
      → Writes s h i buffer from count r
  complete :
      (t : Fs) → Wrote s h i buffer from count t → r ≡ ends t → Writes s h i buffer from count r

Writes-then :
    {s t : Fs} {h i : ℕ} {buffer : Array ℕ} {from n m count : ℕ} {r : Loop Fs}
    → Wrote s h i buffer from n t
    → n + m ≡ count
    → offset_of s h + count ≤ direct_size
    → Writes t h i buffer (from + n) m r
    → Writes s h i buffer from count r
Writes-then {s} {t} {h} {i} {buffer} {from} {n} {m} {count} {r} first e small
      (full_disk u done lt w all stops) =
    full_disk u (n + done) (omega (arith, lt, e)) (Wrote-then first w (omega (arith, small, lt, e)))
      all stops
Writes-then {s} {t} {h} {i} {buffer} {from} {n} {m} {count} {r} first e small (complete u w ended) =
    complete u
      (subst (λ c. Wrote s h i buffer from c u) e (Wrote-then first w (omega (arith, small, e))))
      ended

pub write_loop-Writes :
    (fuel h i : ℕ) (buffer : Array ℕ) (from to_write : ℕ) (s : Fs)
    → to_write < fuel
    → Owns s i
    → offset_of s h + to_write ≤ direct_size
    → size_of s i + to_write < 2 ^ 64
    → Writes s h i buffer from to_write (write_loop fuel h i buffer from to_write s)
unfolding write_loop
write_loop-Writes zero h i buffer from to_write s lt o within small = absurd (omega (arith, lt))
write_loop-Writes (suc fuel) h i buffer from to_write s lt o within small =
    let n : ℕ = clip_block (offset_of s h) to_write in
    elim (Bool-cases (to_write == 0)) [
      | inl done ↦
          complete s
            (subst (λ c. Wrote s h i buffer from c s) (sym (zero_of_test to_write done))
              (Wrote-none s h i buffer from o))
            (rw (done, write_loop))
      | inr more ↦
          (let p : 0 < to_write = pos_of_test to_write more in
            let clip : n ≡ min to_write (block_size - offset_of s h % block_size) =
              clip_block_lem (offset_of s h) to_write (omega (arith, within))
                (omega (arith, within)) in
            elim (get_current_data_block-Locates s i (offset_of s h) o (omega (arith, within, p))) [
              | no_block_left all e ↦
                  full_disk s 0 p (Wrote-none s h i buffer from o) all (rw (more, e, write_loop))
              | located block t f e ↦
                  (let first : Wrote s h i buffer from n (put_bytes h i buffer from n block t) =
                      put_bytes-Wrote h i buffer from n f (omega (arith, clip))
                        (omega (arith, within, p)) (omega (arith, clip, within))
                        (omega (arith, clip, small)) in
                    rw (more, e, write_loop)
                      (Writes-then first (omega (arith, clip)) within (
                        write_loop-Writes fuel h i buffer (from + n) (to_write - n)
                          (put_bytes h i buffer from n block t) (omega (arith, lt, clip, p))
                          first.owns (omega (arith, first.offset, within, clip))
                          (omega (arith, first.size, small, clip)))))
            ])
    ]

-- The size that `tfs_write` computes, by cases, is the larger of the old size and the last offset.
pub final_size-max :
    (offset size count : ℕ)
    → offset + count < 2 ^ 64
    → final_size offset size count (size + count) ≡ max size (offset + count)
unfolding final_size
final_size-max offset size count small = ground arith

-- `fhandle` is the handle `h`, of the file `i`.
pub record Opened (s : Fs) (fhandle : ℤ) (h i : ℕ) : Type 0 where
  pub is_handle : fhandle ≡ pos h
  pub below : h < max_open_files
  pub file : (s.open_file_table h).of_inumber ≡ pos i
  pub is_inode : i < inode_table_size

abbrev pub set_size : Fs → ℕ → ℕ → Fs
set_size s i n = set_inode s i (record (s.inode_table i) { i_size = n })

-- The outcomes of `tfs_write`.
pub data WritesFile (s : Fs) (h i : ℕ) (buffer : Array ℕ) (count : ℕ) (r : Run (ℤ × Fs))
    : Type 0 where
  fails :
      (t : Fs) (done : ℕ)
      → done < count
      → Wrote s h i buffer 0 done t
      → ((b : ℕ) → b < data_blocks → t.free_blocks b ≡ taken)
      → r ≡ returns (minus_one, t)
      → WritesFile s h i buffer count r
  succeeds :
      (t : Fs)
      → Wrote s h i buffer 0 count t
      → r ≡ returns (pos count, set_size t i (max (size_of s i) (offset_of s h + count)))
      → WritesFile s h i buffer count r

pub tfs_write_opened :
    {s : Fs} {fhandle : ℤ} {h i : ℕ} (buffer : Array ℕ) (count : ℕ)
    → Opened s fhandle h i
    → tfs_write fhandle buffer count s
      ≡ write_result h i count s (write_loop (suc count) h i buffer 0 count s)
unfolding tfs_write get_open_file_entry inode_get
tfs_write_opened buffer count o = ground (arith, o)

module _ {s : Fs} {fhandle : ℤ} {h i : ℕ} (buffer : Array ℕ) (count : ℕ) (o : Opened s fhandle h i)
    (own : Owns s i) (within : offset_of s h + count ≤ direct_size)
    (small : size_of s i + direct_size < 2 ^ 64) where
  finish_write_lem :
      (t : Fs)
      → Wrote s h i buffer 0 count t
      → finish_write h i count s t ≡ set_size t i (max (size_of s i) (offset_of s h + count))
  unfolding finish_write
  finish_write_lem t w = ap (set_size t i) (
      ap (final_size (offset_of s h) (size_of s i) count) w.size
      ∙ final_size-max (offset_of s h) (size_of s i) count (omega (arith, within)))

  -- Project 1: a write of `count` bytes through a handle of a file either returns `count`, or it
  -- returns -1 while every block is taken, having written fewer. Its bytes then stand in the file
  -- from the old offset on, its other bytes in the direct blocks are as before, other handles are
  -- too, and the offset is past the bytes written; where it succeeds, the size is the larger of
  -- the old size and the new offset, and where it fails, the size has grown by the bytes written.
  -- The direct blocks of the file are blocks in use and distinct; the write would end within them,
  -- and the size with 10240 more is below 2^64.
  pub tfs_write-WritesFile : WritesFile s h i buffer count (tfs_write fhandle buffer count s)
  unfolding write_result
  tfs_write-WritesFile =
      elim (write_loop-Writes (suc count) h i buffer 0 count s (omega arith) own within
        (omega (arith, within, small))) [
          | full_disk t done lt w all e ↦
              fails t done lt w all
                (tfs_write_opened buffer count o ∙ ap (write_result h i count s) e)
          | complete t w e ↦ succeeds t w (
              tfs_write_opened buffer count o
              ∙ ap (write_result h i count s) e
              ∙ ap (λ n. returns (n, finish_write h i count s t)) (ground (arith, within))
              ∙ ap (λ u. returns (pos count, u)) (finish_write_lem t w))
        ]
