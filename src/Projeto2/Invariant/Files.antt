-- ===== src/Projeto2/Invariant/Files.antt =====
-- How a change of the i-nodes and the block map keeps files in blocks of their own.
use projeto_sistemas_operati.Base.{
  ℕ, ◌≤◌, ◌<◌, ◌≡◌, ◌≢◌, sym, ◌∙◌, arith, pos, update, Array, ℕ_discrete,
}
use projeto_sistemas_operati.Projeto2.Types.{
  Inode, AllocationState, free, taken, block_size, inode_table_size, data_blocks,
}
use projeto_sistemas_operati.Projeto2.Invariant.{FilesValid, Live, HasBlock, block_of}

module _ {it it' : Array Inode} {fi fi' fb fb' : Array AllocationState} where
  -- Where every file with bytes is an old one, unchanged and with its block, nothing is shared.
  FilesValid-transfer :
      FilesValid it fi fb
      → ((i : ℕ) → 0 < i → i < inode_table_size → fi' i ≡ taken → (it' i).i_size ≤ block_size)
      → ((i : ℕ) → Live it' fi' i → Live it fi i × (it' i ≡ it i) × (fb' (block_of it i) ≡ taken))
      → FilesValid it' fi' fb'
  FilesValid-transfer v small old = record {
    small = small;
    blocks = λ i l. ground (arith, old i l, v.blocks i);
    distinct = λ i j a b e. ground (arith, old i a, old j b, v.distinct i j);
  }

module _ {it : Array Inode} {fi fb : Array AllocationState} (v : FilesValid it fi fb) where
  -- Truncation: `i` is emptied and its block freed.
  pub FilesValid-truncate :
      (i : ℕ) (n : Inode)
      → Live it fi i
      → n.i_size ≡ 0
      → FilesValid (update it i n) fi (update fb (block_of it i) free)
  FilesValid-truncate i n l e =
      FilesValid-transfer v
        (λ j p lt u. elim (ℕ_discrete i j) [
          | yes same ↦ ground arith
          | no other ↦ ground (arith, v.small j)
        ])
        (λ j a. elim (ℕ_discrete i j) [
          | yes same ↦ absurd (ground arith)
          | no other ↦
              (let old : Live it fi j = ground arith in
                (old, ground arith, ground (arith, v.blocks j old, v.distinct i j l old)))
        ])

module _ {it : Array Inode} {fi fb : Array AllocationState} (v : FilesValid it fi fb) where
  -- An i-node that ends up empty, while the others in use were so before and keep their blocks.
  FilesValid-emptied :
      {fi' fb' : Array AllocationState} (i : ℕ) (n : Inode)
      → n.i_size ≡ 0
      → ((j : ℕ) → i ≢ j → fi' j ≡ taken → fi j ≡ taken)
      → ((j : ℕ) → fb j ≡ taken → fb' j ≡ taken)
      → FilesValid (update it i n) fi' fb'
  FilesValid-emptied {fi'} {fb'} i n e inodes blocks =
      FilesValid-transfer v
        (λ j p lt u. elim (ℕ_discrete i j) [
          | yes same ↦ ground arith
          | no other ↦ ground (arith, v.small j, inodes j other)
        ])
        (λ j a. elim (ℕ_discrete i j) [
          | yes same ↦ absurd (ground arith)
          | no other ↦
              (let old : Live it fi j = ground (arith, inodes j other) in
                (old, ground arith, ground (arith, v.blocks j old, blocks (block_of it j))))
        ])

  -- A new file, empty.
  pub FilesValid-create :
      (i : ℕ) (n : Inode) → n.i_size ≡ 0 → FilesValid (update it i n) (update fi i taken) fb
  FilesValid-create i n e = FilesValid-emptied i n e (λ j ne u. ground arith) (λ j u. u)

  -- The new file given back.
  pub FilesValid-give_back :
      (i : ℕ) (n : Inode)
      → n.i_size ≡ 0
      → FilesValid (update it i n) (update (update fi i taken) i free) fb
  FilesValid-give_back i n e = FilesValid-emptied i n e (λ j ne u. ground arith) (λ j u. u)

  -- An empty file whose block number changes.
  pub FilesValid-empty : (i : ℕ) (n : Inode) → n.i_size ≡ 0 → FilesValid (update it i n) fi fb
  FilesValid-empty i n e = FilesValid-emptied i n e (λ j ne u. u) (λ j u. u)

  -- The same, with a block taken for it.
  pub FilesValid-take_block :
      (i b : ℕ) (n : Inode) → n.i_size ≡ 0 → FilesValid (update it i n) fi (update fb b taken)
  FilesValid-take_block i b n e = FilesValid-emptied i n e (λ j ne u. u) (λ j u. ground arith)

-- A file that is or may become one with bytes: it has a block that no other file has.
pub record Writable (it : Array Inode) (fi fb : Array AllocationState) (i : ℕ) : Type 0 where
  pub has_block : HasBlock it fb i
  pub alone : (j : ℕ) → Live it fi j → block_of it i ≡ block_of it j → i ≡ j

module _ {it : Array Inode} {fi fb : Array AllocationState} (v : FilesValid it fi fb) where
  pub Live-Writable : (i : ℕ) → Live it fi i → Writable it fi fb i
  Live-Writable i l = record { has_block = v.blocks i l; alone = λ j a. v.distinct i j l a }

  -- A block that was free is nobody else's.
  pub Writable-take_block :
      (i b : ℕ) (n : Inode)
      → n.i_size ≡ 0
      → n.i_data_block ≡ pos b
      → 0 < b
      → b < data_blocks
      → fb b ≡ free
      → Writable (update it i n) fi (update fb b taken) i
  Writable-take_block i b n e d p lt f = record {
    has_block = ground arith;
    alone = λ j a same. elim (ℕ_discrete i j) [
      | yes eq ↦ eq
      | no other ↦ absurd (let old : Live it fi j = ground arith in ground (arith, v.blocks j old))
    ];
  }

  -- Such a file may grow within its block.
  pub FilesValid-grow :
      (i : ℕ) (n : Inode)
      → Writable it fi fb i
      → n.i_data_block ≡ (it i).i_data_block
      → n.i_size ≤ block_size
      → FilesValid (update it i n) fi fb
  FilesValid-grow i n w d le = record {
    small = λ j p lt u. elim (ℕ_discrete i j) [
      | yes same ↦ ground arith
      | no other ↦ ground (arith, v.small j)
    ];
    blocks = λ j a. elim (ℕ_discrete i j) [
      | yes same ↦ ground (arith, w.has_block)
      | no other ↦ (let old : Live it fi j = ground arith in ground (arith, v.blocks j old))
    ];
    distinct = λ j k a b e. elim (ℕ_discrete i j) [
      | yes ij ↦ elim (ℕ_discrete i k) [
        | yes ik ↦ sym ij ∙ ik
        | no other ↦ (let old : Live it fi k = ground arith in ground (arith, w.alone k old))
      ]
      | no other ↦
          (let old : Live it fi j = ground arith in
            elim (ℕ_discrete i k) [
              | yes ik ↦ ground (arith, w.alone j old)
              | no third ↦
                  (let old' : Live it fi k = ground arith in
                    ground (arith, v.distinct j k old old'))
            ])
    ];
  }
