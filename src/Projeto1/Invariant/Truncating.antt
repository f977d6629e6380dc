-- ===== src/Projeto1/Invariant/Truncating.antt =====
-- Truncating a file in use keeps the tables well formed.
use projeto_sistemas_operati.Projeto1.Types.{indirect_access_block, Inode, block_number, Fs}
use projeto_sistemas_operati.Base.{
  inl, inr, subst, arith, is_minus_one, ℕ_discrete, sym, ◌∙◌, ◌≢◌, ◌<◌, ap, ◌≡◌, pos, ℕ,
}
use projeto_sistemas_operati.Projeto1.Invariant.{Fewer, Separate-fewer, Names-IsFile, Inv}
use projeto_sistemas_operati.Projeto2.Invariant.{Names}
use projeto_sistemas_operati.Projeto1.Operations.{truncate}
use projeto_sistemas_operati.Projeto1.Operations.Separate.{IsFile}
use projeto_sistemas_operati.Projeto1.Invariant.Freeing.{truncate-Freed, Freed}
use projeto_sistemas_operati.Projeto2.Types.{taken, root_dir_inum, inode_table_size}
use projeto_sistemas_operati.Projeto1.Position.Direct.{Owns, HasNumber, block_of}

module _ {s : Fs} (i : ℕ) (v : Inv s) (n : Names s.freeinode_ts (pos i)) where
  file : IsFile s i
  file = Names-IsFile v n

  module _ {t : Fs} (f : Freed s i t) where
    type-Freed : (k : ℕ) → (t.inode_table k).i_node_type ≡ (s.inode_table k).i_node_type
    type-Freed k = elim (ℕ_discrete i k) [
      | yes e ↦
          subst (λ m. (t.inode_table m).i_node_type ≡ (s.inode_table m).i_node_type) e f.type_same
      | no ne ↦ ap (λ (x : Inode). x.i_node_type) (f.inodes_same k ne)
    ]

    IsFile-Freed : (k : ℕ) → IsFile t k → IsFile s k
    IsFile-Freed k (used, type) = (ap (λ g. g k) (sym f.map_same) ∙ used, sym (type-Freed k) ∙ type)

    number-other : (k j : ℕ) → i ≢ k → block_number t k j ≡ block_number s k j
    number-other k j ne = ap (λ (x : Inode). x.i_data_block j) (f.inodes_same k ne)

    not_root : i ≢ root_dir_inum
    not_root e = omega (arith, e, n.not_root)

    indirect-Freed :
        (k : ℕ) → block_number t k indirect_access_block ≡ block_number s k indirect_access_block
    indirect-Freed k = elim (ℕ_discrete i k) [
      | yes e ↦
          subst
            (λ m. block_number t m indirect_access_block ≡ block_number s m indirect_access_block) e
            f.indirect_same
      | no ne ↦ number-other k indirect_access_block ne
    ]

    -- The blocks of the other files, and those that the file keeps, stay in use.
    kept-own :
        (j : ℕ)
        → j < indirect_access_block
        → HasNumber t i j
        → t.free_blocks (block_of s i j) ≡ taken
    kept-own j lj h =
        let own : Owns s i = v.apart.owns i n.below file in
        let old : (l : ℕ) → l < indirect_access_block → HasNumber t i l → HasNumber s i l =
          λ l ll hl. ap is_minus_one (sym (f.numbers l ll hl)) ∙ hl in
        f.kept (block_of s i j) (own.is_block j lj (old j lj h)).in_use (λ l ll hl.
          elim (ℕ_discrete l j) [
            | yes e ↦ inl (subst (HasNumber t i) (sym e) h)
            | no ne ↦ inr (λ same. ne (own.apart l j ll lj hl (old j lj h) same))
          ])

    kept-other :
        (k j : ℕ)
        → k < inode_table_size
        → j < indirect_access_block
        → i ≢ k
        → IsFile s k
        → HasNumber s k j
        → t.free_blocks (block_of s k j) ≡ taken
    kept-other k j lk lj ne fk h =
        f.kept (block_of s k j) ((v.apart.owns k lk fk).is_block j lj h).in_use
          (λ l ll hl. inr (v.apart.disjoint i k l j n.below lk ne file fk ll lj hl h))

    Fewer-Freed : Fewer s t
    Fewer-Freed = record {
      root_type = type-Freed root_dir_inum;
      root_used = ap (λ g. g root_dir_inum) f.map_same;
      root_number = number-other root_dir_inum 0 not_root;
      root_block =
          f.kept (block_of s root_dir_inum 0) v.apart.root_block
            (λ l ll hl. inr ((v.apart.root_apart i n.below file).not_mine l ll hl));
      numbers = λ k j lk lj fk h. elim (ℕ_discrete i k) [
        | yes e ↦ (
          IsFile-Freed k fk,
          subst (λ m. block_number t m j ≡ block_number s m j) e
              (f.numbers j lj (subst (λ m. HasNumber t m j) (sym e) h)),
          subst (λ m. t.free_blocks (block_of s m j) ≡ taken) e
              (kept-own j lj (subst (λ m. HasNumber t m j) (sym e) h)),
        )
        | no ne ↦ (
          IsFile-Freed k fk,
          number-other k j ne,
          kept-other k j lk lj ne (IsFile-Freed k fk)
              (ap is_minus_one (sym (number-other k j ne)) ∙ h),
        )
      ];
    }

    Inv-Freed : Inv t
    Inv-Freed = record {
      apart = Separate-fewer v.apart Fewer-Freed;
      root_number = Fewer-Freed.root_number ∙ v.root_number;
      files = λ k pk lk used.
          let (type, direct) = v.files k pk lk (ap (λ g. g k) (sym f.map_same) ∙ used) in
          (type-Freed k ∙ type, ap is_minus_one (indirect-Freed k) ∙ direct);
      entries = rw (f.bytes_same, f.map_same) v.entries;
      handles = rw (f.map_same, f.handles_same, f.handle_map_same) v.handles;
    }

  pub truncate-Inv : Inv (truncate i s).1 × ((truncate i s).1.freeinode_ts ≡ s.freeinode_ts)
  truncate-Inv =
      let (type, direct) = v.files i n.not_root n.below n.in_use in
      let f : Freed s i (truncate i s).1 = truncate-Freed i direct type in (Inv-Freed f, f.map_same)
