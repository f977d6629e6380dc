-- ===== src/Projeto2/Invariant/Ready.antt =====
-- The block that a write needs: what `ensure_block` leaves.
use projeto_sistemas_operati.Projeto2.Types.{
  set_inode, free, taken, inode_table_size, data_blocks, Fs,
}
use projeto_sistemas_operati.Base.{
  subst, zero, dec_lt, arith, suc, ◌∙◌, sym, pos, refl, minus_one, ◌≢◌, ◌<◌, ◌≡◌, ℕ,
}
use projeto_sistemas_operati.Projeto2.Invariant.{Inv}
use projeto_sistemas_operati.Projeto2.Invariant.Files.{
  Writable-take_block, FilesValid-take_block, Live-Writable, Writable,
}
use projeto_sistemas_operati.Projeto2.Operations.{ensure_block}
use projeto_sistemas_operati.Projeto2.Blocks.Allocation.{
  allocated, none_free, data_block_alloc-Allocates, set_block,
}
use projeto_sistemas_operati.Projeto2.Invariant.Inodes.{taken≢free}
use projeto_sistemas_operati.Projeto2.Blocks.{data_block_alloc}

-- What `ensure_block` leaves for the write: a block for `i`, the rest as it was.
pub record Ready (s s' : Fs) (i : ℕ) : Type 0 where
  pub inv : Inv s'
  pub not_root : 0 < i
  pub below : i < inode_table_size
  pub in_use : s'.freeinode_ts i ≡ taken
  pub writable : Writable s'.inode_table s'.freeinode_ts s'.free_blocks i
  pub same_data : s'.fs_data ≡ s.fs_data
  pub same_handles : s'.open_file_table ≡ s.open_file_table
  pub same_entries : s'.free_open_file_entries ≡ s.free_open_file_entries
  pub same_inodes : s'.freeinode_ts ≡ s.freeinode_ts
  pub same_size : (s'.inode_table i).i_size ≡ (s.inode_table i).i_size
  pub same_block : 0 < (s.inode_table i).i_size → s'.inode_table i ≡ s.inode_table i
  pub others : (j : ℕ) → i ≢ j → s'.inode_table j ≡ s.inode_table j

pub data EnsuresBlock (s : Fs) (i : ℕ) : Type 0 where
  full :
      (s.inode_table i).i_size ≡ 0
      → ((b : ℕ) → b < data_blocks → s.free_blocks b ≡ taken)
      → ensure_block i s ≡ set_inode s i (record (s.inode_table i) { i_data_block = minus_one })
      → EnsuresBlock s i
  ready : Ready s (ensure_block i s) i → EnsuresBlock s i

module _ (s : Fs) (v : Inv s) (i : ℕ) (p : 0 < i) (lt : i < inode_table_size)
    (u : s.freeinode_ts i ≡ taken) where
  Ready-self : 0 < (s.inode_table i).i_size → Ready s s i
  Ready-self e = record {
    inv = v;
    not_root = p;
    below = lt;
    in_use = u;
    writable =
        Live-Writable v.files i (record { not_root = p; below = lt; in_use = u; nonempty = e });
    same_data = refl;
    same_handles = refl;
    same_entries = refl;
    same_inodes = refl;
    same_size = refl;
    same_block = λ _. refl;
    others = λ _ _. refl;
  }

  abbrev with_block : ℕ → Fs
  with_block b =
      set_inode (set_block s b taken) i (record (s.inode_table i) { i_data_block = pos b })

  Ready-alloc :
      (b : ℕ)
      → (s.inode_table i).i_size ≡ 0
      → b < data_blocks
      → s.free_blocks b ≡ free
      → Ready s (with_block b) i
  Ready-alloc b e lb f = record {
    inv = record {
      root = ground (arith, v.root);
      files = FilesValid-take_block v.files i b _ e;
      entries = v.entries;
      handles = v.handles;
    };
    not_root = p;
    below = lt;
    in_use = u;
    writable = Writable-take_block v.files i b _ e refl (not_root_block b f) lb f;
    same_data = refl;
    same_handles = refl;
    same_entries = refl;
    same_inodes = refl;
    same_size = ground arith;
    same_block = λ some_bytes. absurd (omega arith);
    others = λ j ne. ground arith;
  }
    where
      not_root_block : (b : ℕ) → s.free_blocks b ≡ free → 0 < b
      not_root_block zero f' = absurd (taken≢free (sym v.root.block_in_use ∙ f'))
      not_root_block (suc b) f' = omega arith

  ensure_block_nonempty : 0 < (s.inode_table i).i_size → ensure_block i s ≡ s
  unfolding ensure_block
  ensure_block_nonempty e = ground arith

  ensure_block_found :
      (b : ℕ)
      → (s.inode_table i).i_size ≡ 0
      → data_block_alloc s ≡ (pos b, set_block s b taken)
      → ensure_block i s ≡ with_block b
  unfolding ensure_block
  ensure_block_found b e taken_it = ground (arith, taken_it)

  ensure_block_full :
      (s.inode_table i).i_size ≡ 0
      → data_block_alloc s ≡ (minus_one, s)
      → ensure_block i s ≡ set_inode s i (record (s.inode_table i) { i_data_block = minus_one })
  unfolding ensure_block
  ensure_block_full e exhausted = ground (arith, exhausted)

  -- A file with bytes keeps its block; an empty one gets the lowest free block, or none is free.
  pub ensure_block-EnsuresBlock : EnsuresBlock s i
  ensure_block-EnsuresBlock = elim (dec_lt 0 (s.inode_table i).i_size) [
    | yes e ↦ ready (subst (λ t. Ready s t i) (sym (ensure_block_nonempty e)) (Ready-self e))
    | no e ↦
        (let empty : (s.inode_table i).i_size ≡ 0 = omega arith in
          elim (data_block_alloc-Allocates s) [
            | none_free exhausted all ↦ full empty all (ensure_block_full empty exhausted)
            | allocated b lb f low eq ↦ ready (
                subst (λ t. Ready s t i) (sym (ensure_block_found b empty eq))
                  (Ready-alloc b empty lb f))
          ])
  ]
