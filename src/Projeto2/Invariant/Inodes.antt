-- ===== src/Projeto2/Invariant/Inodes.antt =====
-- `truncate`, `inode_create` and `inode_delete` keep the invariant.
use projeto_sistemas_operati.Projeto2.Types.{
  index, inode_table_size, set_freeinode, set_inode, Inode, free, taken, Fs,
}
use projeto_sistemas_operati.Base.{
  refl, zero, suc, ap, dec_lt, ◌∙◌, pos, arith, sym, update, ◌<◌, ℤ, ◌≡◌, ℕ, ◌≢◌,
}
use projeto_sistemas_operati.Projeto2.Invariant.{block_of, RootValid, Live, Names, Inv}
use projeto_sistemas_operati.Projeto2.Operations.{truncate}
use projeto_sistemas_operati.Projeto2.Blocks.{data_block_free}
use projeto_sistemas_operati.Projeto2.Blocks.Allocation.{set_block}
use projeto_sistemas_operati.Projeto2.Invariant.Files.{
  FilesValid-truncate, FilesValid-give_back, FilesValid-create,
}

pub taken≢free : taken ≢ free
taken≢free e = cc

module _ {s : Fs} (v : Inv s) where
  -- The root is in use, so a free i-node is another one.
  pub not_root_of_free : (i : ℕ) → s.freeinode_ts i ≡ free → 0 < i
  not_root_of_free zero e = absurd (taken≢free (sym v.root.in_use ∙ e))
  not_root_of_free (suc i) e = omega arith

  RootValid-set_inode :
      (i : ℕ) (n : Inode)
      → 0 < i
      → RootValid (update s.inode_table i n) s.freeinode_ts s.free_blocks
  RootValid-set_inode i n p = ground (arith, v.root)

  Names-take : (i : ℕ) (z : ℤ) → Names s.freeinode_ts z → Names (update s.freeinode_ts i taken) z
  Names-take i z n = ground arith

  -- The state after `inode_create (T_FILE)` took the free i-node `i`.
  pub create-Inv :
      (i : ℕ) (n : Inode)
      → s.freeinode_ts i ≡ free
      → n.i_size ≡ 0
      → Inv (set_inode (set_freeinode s i taken) i n)
  create-Inv i n f e = record {
    root = ground (arith, v.root, not_root_of_free i f);
    files = FilesValid-create v.files i n e;
    entries = λ k lt used. Names-take i _ (v.entries k lt used);
    handles =
        λ h lt used. (let (named, small) = v.handles h lt used in (Names-take i _ named, small));
  }

  -- The i-node given back, with what was written in it left there.
  Names-give_back :
      (i : ℕ) (z : ℤ)
      → s.freeinode_ts i ≡ free
      → Names s.freeinode_ts z
      → Names (update (update s.freeinode_ts i taken) i free) z
  Names-give_back i z f n =
      let ne : i ≢ index z = λ same. taken≢free (sym n.in_use ∙ sym (ap s.freeinode_ts same) ∙ f) in
      ground arith

  pub give_back-Inv :
      (i : ℕ) (n : Inode)
      → s.freeinode_ts i ≡ free
      → n.i_size ≡ 0
      → Inv (set_freeinode (set_inode (set_freeinode s i taken) i n) i free)
  give_back-Inv i n f e = record {
    root = ground (arith, v.root, not_root_of_free i f);
    files = FilesValid-give_back v.files i n e;
    entries = λ k lt used. Names-give_back i _ f (v.entries k lt used);
    handles = λ h lt used.
        (let (named, small) = v.handles h lt used in (Names-give_back i _ f named, small));
  }

  truncated-Inv :
      (i : ℕ) (n : Inode)
      → Live s.inode_table s.freeinode_ts i
      → n.i_size ≡ 0
      → Inv (set_inode (set_block s (block_of s.inode_table i) free) i n)
  truncated-Inv i n l e = record {
    root = ground (arith, v.root, v.files.blocks i l);
    files = FilesValid-truncate v.files i n l e;
    entries = v.entries;
    handles = v.handles;
  }

  truncate_empty : (i : ℕ) → ¬ (0 < (s.inode_table i).i_size) → truncate i s ≡ (pos 0, s)
  unfolding truncate
  truncate_empty i e = ground arith

  abbrev pub emptied : ℕ → Fs
  emptied i =
      set_inode (set_block s (block_of s.inode_table i) free) i
        (record (s.inode_table i) { i_size = 0 })

  pub truncate-Live :
      (i : ℕ) → Live s.inode_table s.freeinode_ts i → truncate i s ≡ (pos 0, emptied i)
  unfolding truncate data_block_free
  truncate-Live i l = ground (arith, v.files.blocks i l)

  -- `O_TRUNC` on a file in use succeeds and keeps the invariant.
  pub truncate-Inv :
      (i : ℕ)
      → 0 < i
      → i < inode_table_size
      → s.freeinode_ts i ≡ taken
      → ((truncate i s).0 ≡ pos 0) × Inv (truncate i s).1
  truncate-Inv i p lt u = elim (dec_lt 0 (s.inode_table i).i_size) [
    | no empty ↦ rw (truncate_empty i empty) (refl, v)
    | yes some_bytes ↦
        (let l : Live s.inode_table s.freeinode_ts i = record {
          not_root = p;
          below = lt;
          in_use = u;
          nonempty = some_bytes;
        } in
          rw (truncate-Live i l) (refl, truncated-Inv i _ l refl))
  ]
