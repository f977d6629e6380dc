-- ===== src/Projeto2/Operations/Write.antt =====
-- `write_unsynchronized` through a handle in use, seen from outside.
use projeto_sistemas_operati.Projeto2.Types.{taken, data_blocks, set_inode, block_size, Fs}
use projeto_sistemas_operati.Base.{
  ◌∙◌, sym, subst, refl, ap, pos, minus_one, false, true, ◌-◌, arith, min, ◌≢◌, is_minus_one, ◌^◌,
  ◌≡◌, ◌+◌, ◌<◌, Array, ℕ, ℤ,
}
use projeto_sistemas_operati.Projeto2.Invariant.{Live, Inv}
use projeto_sistemas_operati.Projeto2.Operations.Writing.{
  Opened-Names, offset_of, wrote, no_block, write_unsynchronized-Writes, Writes, nothing, size_of,
  Opened,
}
use projeto_sistemas_operati.Projeto2.Operations.{lookup_unsynchronized, write_unsynchronized}
use projeto_sistemas_operati.Memory.{CString}
use projeto_sistemas_operati.Projeto2.Invariant.Files.{FilesValid-empty}
use projeto_sistemas_operati.Projeto2.Operations.Contents.{
  Stores-zero, KeepsFile-set_inode, written-Stores, written-KeepsFile, KeepsFile-self, Stores,
  KeepsFile,
}
use projeto_sistemas_operati.Projeto2.Invariant.Write.{SameEntry-written, written-Inv}
use projeto_sistemas_operati.Projeto2.Invariant.Open.{lookup-SameEntry}

no_block-Inv :
    (s : Fs) (i : ℕ) (b : ℤ)
    → Inv s
    → 0 < i
    → size_of s i ≡ 0
    → Inv (set_inode s i (record (s.inode_table i) { i_data_block = b }))
no_block-Inv s i b v p e = record {
  root = ground (arith, v.root);
  files = FilesValid-empty v.files i _ e;
  entries = v.entries;
  handles = v.handles;
}

module _ {s : Fs} {fhandle : ℤ} {h i : ℕ} (buffer : Array ℕ) (to_write : ℕ) (v : Inv s)
    (o : Opened s fhandle h i) (small : to_write + block_size < 2 ^ 64) where
  abbrev taken_bytes : ℕ
  taken_bytes = min to_write (block_size - offset_of s h)

  abbrev outcome : ℤ × Fs
  outcome = write_unsynchronized fhandle buffer to_write s

  write-cases : Writes s h i buffer taken_bytes outcome
  write-cases = write_unsynchronized-Writes buffer to_write v o small

  -- A write of fewer than 2^64 - 1024 bytes through a handle in use keeps the tables well formed.
  pub write_unsynchronized-Inv : Inv outcome.1
  write_unsynchronized-Inv = elim write-cases [
    | nothing z e ↦ rw e v
    | no_block e all eq ↦ rw eq (no_block-Inv s i minus_one v (Opened-Names v o).0 e)
    | wrote s' r p fits eq ↦ rw eq (written-Inv r h buffer taken_bytes fits)
  ]

  -- In well-formed tables, a write of fewer than 2^64 - 1024 bytes through a handle in use, where
  -- it returns no error, returns how many bytes fit in the block after the offset, at most
  -- `to_write`; these bytes of the buffer stand in the file from the old offset on, the file's
  -- other bytes are as before, the offset is past them, and the size has grown to it where it was
  -- less.
  pub write_unsynchronized-Stores :
      is_minus_one outcome.0 ≡ false
      → (outcome.0 ≡ pos taken_bytes) × Stores s h i buffer taken_bytes outcome.1
  write_unsynchronized-Stores done = elim write-cases [
    | nothing z e ↦
        subst (λ m. (outcome.0 ≡ pos m) × Stores s h i buffer m outcome.1) (sym z)
          (rw e (refl, Stores-zero s h i buffer))
    | no_block e all eq ↦ absurd (cc (ap (λ r. is_minus_one r.0) eq))
    | wrote s' r p fits eq ↦ rw eq (refl, written-Stores r h buffer taken_bytes fits)
  ]

  -- In well-formed tables, a write of fewer than 2^64 - 1024 bytes through a handle in use fails
  -- only for an empty file while every block is taken.
  pub write_unsynchronized-fails :
      is_minus_one outcome.0 ≡ true
      → (size_of s i ≡ 0) × ((b : ℕ) → b < data_blocks → s.free_blocks b ≡ taken)
  write_unsynchronized-fails failed = elim write-cases [
    | nothing z e ↦ absurd (cc (ap (λ r. is_minus_one r.0) e))
    | no_block e all eq ↦ (e, all)
    | wrote s' r p fits eq ↦ absurd (cc (ap (λ r. is_minus_one r.0) eq))
  ]

  -- In well-formed tables, a write of fewer than 2^64 - 1024 bytes through a handle in use changes
  -- no other file that has bytes: not its i-node, and none of the bytes of its block.
  pub write_unsynchronized-KeepsFile :
      (j : ℕ) → i ≢ j → Live s.inode_table s.freeinode_ts j → KeepsFile s j outcome.1
  write_unsynchronized-KeepsFile j ne live = elim write-cases [
    | nothing z e ↦ rw e (KeepsFile-self s j)
    | no_block e all eq ↦ rw eq (KeepsFile-set_inode s i j _ ne)
    | wrote s' r p fits eq ↦ rw eq (written-KeepsFile r h buffer taken_bytes fits j ne live)
  ]

  -- In well-formed tables, a write of fewer than 2^64 - 1024 bytes through a handle in use changes
  -- no lookup.
  pub lookup-write :
      (name : CString) → lookup_unsynchronized name outcome.1 ≡ lookup_unsynchronized name s
  lookup-write name = elim write-cases [
    | nothing z e ↦ rw e
    | no_block e all eq ↦ rw eq (
        lookup-SameEntry name v (no_block-Inv s i minus_one v (Opened-Names v o).0 e)
          (λ k lt j lo hi. refl))
    | wrote s' r p fits eq ↦ rw eq (
        lookup-SameEntry name v (written-Inv r h buffer taken_bytes fits) (λ k lt j lo hi.
          SameEntry-written r h buffer taken_bytes fits k lt j lo hi ∙ ap (λ f. f j) r.same_data))
  ]
