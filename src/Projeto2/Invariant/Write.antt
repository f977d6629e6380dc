-- ===== src/Projeto2/Invariant/Write.antt =====
-- The state after a write through a handle in use: the invariant, and what each table holds.
use projeto_sistemas_operati.Projeto2.Types.{max_dir_entries, set_inode, block_size, Fs}
use projeto_sistemas_operati.Projeto2.Operations.{set_offset, advance_write}
use projeto_sistemas_operati.Base.{
  update_same, false, ltb, lt→ltb, ℕ_discrete, ◌%◌, refl, ◌∙◌, sym, inl, dec_lt, arith, max, ◌≡◌,
  ◌⊎◌, ◌^◌, ◌≤◌, ◌*◌, ◌<◌, ◌+◌, Array, ℕ,
}
use projeto_sistemas_operati.Projeto2.Invariant.{Inv, block_of}
use projeto_sistemas_operati.Projeto2.Invariant.Ready.{Ready}
use projeto_sistemas_operati.Memory.{memcpy_outside, memcpy}
use projeto_sistemas_operati.Projeto2.Directory.Entries.{
  entry_is_empty-SameEntry, d_inumber-SameEntry, SameEntry,
}
use projeto_sistemas_operati.Projeto2.Invariant.Files.{FilesValid-grow}

-- The byte `k` of the file `i`.
abbrev pub byte_of : Fs → ℕ → ℕ → ℕ
byte_of s i k = s.fs_data (block_of s.inode_table i * block_size + k)

-- The tables after `n` bytes were written through the entry `h` of the file `i`.
abbrev pub written : Fs → ℕ → ℕ → Array ℕ → ℕ → Fs
written s h i buffer n =
    let offset = (s.open_file_table h).of_offset in
    set_offset
      (set_inode
        (record s {
          fs_data = memcpy s.fs_data (block_of s.inode_table i * block_size + offset) buffer 0 n;
        })
        i (record (s.inode_table i) { i_size = max (s.inode_table i).i_size (offset + n) }))
      h (offset + n)

-- `advance_write` where no sum wraps.
pub advance_write_lem :
    (s : Fs) (h i n : ℕ)
    → (s.open_file_table h).of_offset + n < 2 ^ 64
    → advance_write h i n s
      ≡ set_offset
          (set_inode s i (record (s.inode_table i) {
            i_size = max (s.inode_table i).i_size ((s.open_file_table h).of_offset + n);
          }))
          h
          ((s.open_file_table h).of_offset + n)
unfolding advance_write
advance_write_lem s h i n small =
    elim (dec_lt (s.inode_table i).i_size ((s.open_file_table h).of_offset + n)) [
      | yes grows ↦
          (let whole : ((s.open_file_table h).of_offset + n) % 2 ^ 64
                ≡ (s.open_file_table h).of_offset + n =
              omega arith in
            let larger : max (s.inode_table i).i_size ((s.open_file_table h).of_offset + n)
                ≡ (s.open_file_table h).of_offset + n =
              omega arith in
            simp (whole, larger, lt→ltb _ _ grows))
      | no stays ↦
          (let whole : ((s.open_file_table h).of_offset + n) % 2 ^ 64
                ≡ (s.open_file_table h).of_offset + n =
              omega arith in
            let larger : max (s.inode_table i).i_size ((s.open_file_table h).of_offset + n)
                ≡ (s.inode_table i).i_size =
              omega arith in
            let test : ltb (s.inode_table i).i_size ((s.open_file_table h).of_offset + n) ≡ false =
              ground arith in
            simp (whole, larger, test, update_same s.inode_table i))
    ]

module _ {s s' : Fs} {i : ℕ} (r : Ready s s' i) (h : ℕ) (buffer : Array ℕ) (n : ℕ)
    (fits : (s'.open_file_table h).of_offset + n ≤ block_size) where
  abbrev pub after : Fs
  after = written s' h i buffer n

  -- Bytes outside the block of `i` stay.
  pub data-written :
      (j : ℕ)
      → (j < block_of s'.inode_table i * block_size)
        ⊎ (block_of s'.inode_table i * block_size + block_size ≤ j)
      → after.fs_data j ≡ s'.fs_data j
  data-written j out = memcpy_outside s'.fs_data _ buffer 0 n j (omega arith)

  -- The root directory's block is one of those.
  pub SameEntry-written : (k : ℕ) → k < max_dir_entries → SameEntry after.fs_data s'.fs_data 0 k
  SameEntry-written k lt j lo hi =
      data-written j (inl (omega (arith, r.writable.has_block.not_root)))

  pub written-Inv : Inv after
  written-Inv = record {
    root = ground (arith, r.inv.root);
    files =
        FilesValid-grow r.inv.files i _ r.writable refl
          (omega (arith, r.inv.files.small i r.not_root r.below r.in_use));
    entries = λ k lt used.
        rw (d_inumber-SameEntry 0 k (SameEntry-written k lt))
          (r.inv.entries k lt (sym (entry_is_empty-SameEntry 0 k (SameEntry-written k lt)) ∙ used));
    handles = λ j lt used. elim (ℕ_discrete h j) [
      | yes same ↦ ground (arith, r.inv.handles j lt)
      | no other ↦ ground (arith, r.inv.handles j lt)
    ];
  }
