-- ===== src/Projeto1/Operations/Others.antt =====
-- What a write leaves alone: the blocks in use that are not the file's, and the other i-nodes.
use projeto_sistemas_operati.Projeto1.Types.{
  returns, Run, set_block_number, block_number, indirect_access_block, Fs,
}
use projeto_sistemas_operati.Base.{
  ◌/◌, subst, sym, pos, update, ap, find_first-IsFirst, IsFirst, arith, minus_one, find_first,
  Option-cases, inl, update_ne, ℕ_discrete, refl, inr, false, Bool-cases, ◌+◌, is_minus_one, some,
  ◌≢◌, ℤ, ◌*◌, none, Option, Array, ◌≡◌, ◌<◌, ◌∙◌, ℕ,
}
use projeto_sistemas_operati.Projeto1.Position.{get_current_data_block, direct_block}
use projeto_sistemas_operati.Projeto1.Blocks.{data_block_alloc}
use projeto_sistemas_operati.Projeto2.Types.{
  data_blocks, is_free, valid_block_number, index, taken, AllocationState, block_size,
}
use projeto_sistemas_operati.Projeto2.Blocks.{data_block_get}
use projeto_sistemas_operati.Projeto1.Position.Direct.{with_number, block_of, HasNumber}
use projeto_sistemas_operati.Projeto2.Blocks.Allocation.{free_of_is_free}
use projeto_sistemas_operati.Projeto1.Operations.Contents.{direct_size}

-- The block `b` is in use, and it is not a direct block of the file `i`.
pub record Foreign (s : Fs) (i b : ℕ) : Type 0 where
  pub in_use : s.free_blocks b ≡ taken
  pub not_mine : (j : ℕ) → j < indirect_access_block → HasNumber s i j → block_of s i j ≢ b

pub record Spares (s : Fs) (i b : ℕ) (t : Fs) : Type 0 where
  pub foreign : Foreign t i b
  pub bytes_same :
      (k : ℕ) → k < block_size → t.fs_data (b * block_size + k) ≡ s.fs_data (b * block_size + k)
  pub inodes_same : (k : ℕ) → i ≢ k → t.inode_table k ≡ s.inode_table k
  pub type_same : (t.inode_table i).i_node_type ≡ (s.inode_table i).i_node_type
  pub map_same : t.freeinode_ts ≡ s.freeinode_ts

pub Spares-then : {s t u : Fs} {i b : ℕ} → Spares s i b t → Spares t i b u → Spares s i b u
Spares-then first rest = record {
  foreign = rest.foreign;
  bytes_same = λ k lt. rest.bytes_same k lt ∙ first.bytes_same k lt;
  inodes_same = λ k ne. rest.inodes_same k ne ∙ first.inodes_same k ne;
  type_same = rest.type_same ∙ first.type_same;
  map_same = rest.map_same ∙ first.map_same;
}

-- What the search for a block comes to: there is no block, or it is another one than `b`.
pub data Reaches (s : Fs) (i b : ℕ) (r : Run (Option ℕ × Fs)) : Type 0 where
  nowhere : (t : Fs) → Spares s i b t → r ≡ returns (none, t) → Reaches s i b r
  reached :
      (c : ℕ) (t : Fs)
      → Spares s i b t
      → c ≢ b
      → t.open_file_table ≡ s.open_file_table
      → r ≡ returns (some (c * block_size), t)
      → Reaches s i b r

module _ (s : Fs) (i b : ℕ) (f : Foreign s i b) where
  pub Spares-same : Spares s i b s
  Spares-same = record {
    foreign = f;
    bytes_same = λ k lt. refl;
    inodes_same = λ k ne. refl;
    type_same = refl;
    map_same = refl;
  }

  -- The state after the number `z` of another block than `b`, or -1, was recorded as the `j`-th.
  module _ (free_blocks : Array AllocationState) (j : ℕ) (z : ℤ) (still : free_blocks b ≡ taken)
      (other : is_minus_one z ≡ false → index z ≢ b) where
    abbrev recorded : Fs
    recorded = set_block_number (record s { free_blocks = free_blocks }) i j z

    new_number : (k : ℕ) → j ≡ k → block_number recorded i k ≡ z
    new_number k e = ground (arith, e)

    old_number : (k : ℕ) → j ≢ k → block_number recorded i k ≡ block_number s i k
    old_number k ne = ground (arith, ne)

    not_mine-recorded :
        (k : ℕ) → k < indirect_access_block → HasNumber recorded i k → block_of recorded i k ≢ b
    not_mine-recorded k lt h e = elim (ℕ_discrete j k) [
      | yes same ↦
          other (ap is_minus_one (sym (new_number k same)) ∙ h)
            (ap index (sym (new_number k same)) ∙ e)
      | no ne ↦
          f.not_mine k lt (ap is_minus_one (sym (old_number k ne)) ∙ h)
            (ap index (sym (old_number k ne)) ∙ e)
    ]

    Spares-recorded : Spares s i b recorded
    Spares-recorded = record {
      foreign = record { in_use = still; not_mine = not_mine-recorded };
      bytes_same = λ k lt. refl;
      inodes_same = λ k ne. update_ne s.inode_table i k _ ne;
      type_same = ground arith;
      map_same = refl;
    }

  direct_block-Reaches :
      (j : ℕ) → j < indirect_access_block → Reaches s i b (returns (direct_block i j s))
  unfolding direct_block data_block_alloc data_block_get
  direct_block-Reaches j lt = elim (Bool-cases (is_minus_one (block_number s i j))) [
    | inr old ↦ elim (Bool-cases (valid_block_number (block_number s i j))) [
      | inl valid ↦
          reached (block_of s i j) s Spares-same (f.not_mine j lt old) refl
            (rw (old, valid, direct_block, data_block_get))
      | inr bad ↦ nowhere s Spares-same (rw (old, bad, direct_block, data_block_get))
    ]
    | inl absent ↦ elim (Option-cases (find_first (λ c. is_free (s.free_blocks c)) data_blocks 0)) [
      | inl e ↦
          nowhere (set_block_number s i j minus_one)
            (Spares-recorded s.free_blocks j minus_one f.in_use (λ h. absurd (cc h)))
            (ground (arith, absent, e))
      | inr (c, e) ↦
          (let first : IsFirst _ data_blocks 0 c = find_first-IsFirst _ data_blocks 0 c e in
            let ne : c ≢ b = λ same.
              absurd
                (ground (arith, f.in_use, free_of_is_free _ first.passes, ap s.free_blocks same)) in
            reached c (with_number s i j c)
              (Spares-recorded (update s.free_blocks c taken) j (pos c)
                (update_ne s.free_blocks c b taken ne ∙ f.in_use) (λ h. ne))
              ne refl (ground (arith, absent, e, first.below)))
    ]
  ]

  pub get_current_data_block-Reaches :
      (offset : ℕ) → offset < direct_size → Reaches s i b (get_current_data_block i offset s)
  unfolding get_current_data_block
  get_current_data_block-Reaches offset lt =
      subst (Reaches s i b) (sym (ground (arith, lt)))
        (direct_block-Reaches (offset / block_size) (omega (arith, lt)))
