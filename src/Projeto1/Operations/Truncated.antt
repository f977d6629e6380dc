-- ===== src/Projeto1/Operations/Truncated.antt =====
-- What truncating leaves in an i-node that has indirect blocks.
use projeto_sistemas_operati.Projeto1.Blocks.{
  free_file, free_bonus, data_block_free, free_direct, free_indirect,
}
use projeto_sistemas_operati.Base.{
  true, ltb, some, false, minus_one, Option-cases, refl, zero, Array, ◌∙◌, ap, inr, inl,
  is_minus_one, Bool-cases, ◌*◌, pos, suc, ◌≤◌, arith, ◌<◌, ◌+◌, ◌≡◌, ℤ, ℕ,
}
use projeto_sistemas_operati.Projeto1.Types.{
  indirect_references, set_block_number, Inode, block_number, indirect_access_block, Fs,
}
use projeto_sistemas_operati.Projeto2.Types.{is_directory, block_size, free, data_blocks}
use projeto_sistemas_operati.Memory.{sizeof_int, load_int}
use projeto_sistemas_operati.Projeto2.Blocks.{data_block_get}
use projeto_sistemas_operati.Projeto1.Operations.{truncate_blocks, truncate}

data_block_free-inode_table : (b : ℤ) (s : Fs) → (data_block_free b s).1.inode_table ≡ s.inode_table
unfolding data_block_free
data_block_free-inode_table b s = ground arith

data_block_free-frees :
    (z : ℤ) (b : ℕ) (s : Fs)
    → z ≡ pos b
    → b < data_blocks
    → (data_block_free z s).1.free_blocks b ≡ free
unfolding data_block_free
data_block_free-frees z b s e lt = ground (arith, e, lt)

cleared :
    (s : Fs) (i j : ℕ)
    → j < indirect_access_block
    → block_number (set_block_number s i j minus_one) i indirect_access_block
      ≡ block_number s i indirect_access_block
cleared s i j lt = ground (arith, lt)

free_direct-indirect :
    (n j i : ℕ) (s : Fs)
    → j + n ≤ indirect_access_block
    → block_number (free_direct n j i s).1 i indirect_access_block
      ≡ block_number s i indirect_access_block
unfolding free_direct
free_direct-indirect zero j i s le = refl
free_direct-indirect (suc n) j i s le = elim (Bool-cases (is_minus_one (block_number s i j))) [
  | inl last ↦ rw (last, free_direct)
  | inr more ↦ elim (Bool-cases (is_minus_one (data_block_free (block_number s i j) s).0)) [
    | inl bad ↦
        rw (more, bad, free_direct)
          (ap (λ (f : Array Inode). (f i).i_data_block indirect_access_block)
            (data_block_free-inode_table _ s))
    | inr ok ↦
        rw (more, ok, free_direct)
          (free_direct-indirect n (j + 1) i _ (omega (arith, le))
            ∙ cleared (data_block_free (block_number s i j) s).1 i j (omega (arith, le))
            ∙ ap (λ (f : Array Inode). (f i).i_data_block indirect_access_block)
                (data_block_free-inode_table _ s))
  ]
]

free_indirect-inode_table :
    (n j bonus : ℕ) (s : Fs) → (free_indirect n j bonus s).1.inode_table ≡ s.inode_table
unfolding free_indirect
free_indirect-inode_table zero j bonus s = refl
free_indirect-inode_table (suc n) j bonus s =
    let b : ℤ = load_int s.fs_data (bonus + j * sizeof_int) in
    elim (Bool-cases (is_minus_one b)) [
      | inl last ↦ rw (last, free_indirect)
      | inr more ↦ elim (Bool-cases (is_minus_one (data_block_free b s).0)) [
        | inl bad ↦ rw (more, bad, free_indirect) (data_block_free-inode_table b s)
        | inr ok ↦
            rw (more, ok, free_indirect)
              (free_indirect-inode_table n (j + 1) bonus _ ∙ data_block_free-inode_table b s)
      ]
    ]

free_bonus-inode_table : (i : ℕ) (s : Fs) → (free_bonus i s).1.inode_table ≡ s.inode_table
unfolding free_bonus
free_bonus-inode_table i s =
    elim (Bool-cases (is_minus_one (block_number s i indirect_access_block))) [
      | inl e ↦ rw (e, free_bonus)
      | inr e ↦ elim (Option-cases (data_block_get (block_number s i indirect_access_block))) [
        | inl null ↦ rw (e, null, free_bonus)
        | inr (bonus, g) ↦
            elim (Bool-cases (is_minus_one (free_indirect indirect_references 0 bonus s).0)) [
              | inl bad ↦
                  rw (e, g, bad, free_bonus)
                    (free_indirect-inode_table indirect_references 0 bonus s)
              | inr ok ↦
                  rw (e, g, ok, free_bonus)
                    (data_block_free-inode_table _ _
                      ∙ free_indirect-inode_table indirect_references 0 bonus s)
            ]
      ]
    ]

data_block_get-pos : (b : ℕ) → b < data_blocks → data_block_get (pos b) ≡ some (b * block_size)
unfolding data_block_get
data_block_get-pos b lt = ground (arith, lt)

free_bonus-frees :
    (i b : ℕ) (s : Fs)
    → block_number s i indirect_access_block ≡ pos b
    → b < data_blocks
    → is_minus_one (free_bonus i s).0 ≡ false
    → (free_bonus i s).1.free_blocks b ≡ free
unfolding free_bonus
free_bonus-frees i b s e lt ok =
    let g : data_block_get (pos b) ≡ some (b * block_size) = data_block_get-pos b lt in
    elim (Bool-cases (is_minus_one (free_indirect indirect_references 0 (b * block_size) s).0)) [
      | inl bad ↦ absurd (cc (rw (e, g, bad, free_bonus) at ok))
      | inr fine ↦
          rw (e, g, fine, free_bonus)
            (data_block_free-frees (block_number s i indirect_access_block) b _ e lt)
    ]

free_file-frees :
    (i b : ℕ) (s : Fs)
    → block_number s i indirect_access_block ≡ pos b
    → b < data_blocks
    → is_minus_one (free_file i s).0 ≡ false
    → (block_number (free_file i s).1 i indirect_access_block ≡ pos b)
      × ((free_file i s).1.free_blocks b ≡ free)
unfolding free_file
free_file-frees i b s e lt ok =
    let u : Fs = (free_direct indirect_access_block 0 i s).1 in
    let same : block_number u i indirect_access_block ≡ pos b =
      free_direct-indirect indirect_access_block 0 i s (omega arith) ∙ e in
    elim (Bool-cases (is_minus_one (free_direct indirect_access_block 0 i s).0)) [
      | inl bad ↦ absurd (cc (rw (bad, free_file) at ok))
      | inr fine ↦
          rw (fine, free_file)
            (
              ap (λ (f : Array Inode). (f i).i_data_block indirect_access_block)
                    (free_bonus-inode_table i u)
                  ∙ same,
              free_bonus-frees i b u same lt (rw (fine, free_file) at ok),
            )
    ]

-- Project 1: truncating a file that has bytes and an indirect block, where it succeeds, sets the
-- size to 0 and frees the indirect block, but leaves its number in the i-node.
pub truncate-stale :
    (i b : ℕ) (s : Fs)
    → is_directory (s.inode_table i).i_node_type ≡ false
    → 0 < (s.inode_table i).i_size
    → block_number s i indirect_access_block ≡ pos b
    → b < data_blocks
    → is_minus_one (truncate i s).0 ≡ false
    → (((truncate i s).1.inode_table i).i_size ≡ 0)
      × (block_number (truncate i s).1 i indirect_access_block ≡ pos b)
      × ((truncate i s).1.free_blocks b ≡ free)
unfolding truncate truncate_blocks
truncate-stale i b s regular bytes e lt ok =
    let big : ltb 0 (s.inode_table i).i_size ≡ true = ground (arith, bytes) in
    elim (Bool-cases (is_minus_one (free_file i s).0)) [
      | inl bad ↦ absurd (cc (rw (big, regular, bad, truncate, truncate_blocks) at ok))
      | inr fine ↦
          (let (same, freed) = free_file-frees i b s e lt fine in
            rw (big, regular, fine, truncate, truncate_blocks)
              (ground arith, ground arith ∙ same, freed))
    ]
