-- ===== src/Projeto1/Position/Direct.antt =====
-- The direct blocks of a file, and how `get_current_data_block` finds one.
use projeto_sistemas_operati.Projeto1.Position.{direct_block}
use projeto_sistemas_operati.Projeto1.Types.{
  set_inode, indirect_access_block, block_number, set_block_number, Fs,
}
use projeto_sistemas_operati.Base.{
  subst, update_same, negsuc, ◌∙◌, sym, ap, find_first-IsFirst, IsFirst, find_first-none,
  find_first, Option-cases, inl, some, minus_one, arith, true, none, inr, Bool-cases, false, update,
  pos, ◌*◌, ◌<◌, ◌≡◌, is_minus_one, ℤ, Option, ℕ, Array,
}
use projeto_sistemas_operati.Projeto1.Blocks.{data_block_alloc}
use projeto_sistemas_operati.Projeto2.Types.{
  is_free, free, block_size, taken, data_blocks, index, AllocationState,
}
use projeto_sistemas_operati.Projeto2.Blocks.{data_block_get}
use projeto_sistemas_operati.Projeto2.Blocks.Allocation.{free_of_is_free, taken_of_is_free}

abbrev pub HasNumber : Fs → ℕ → ℕ → Type 0
HasNumber s i j = is_minus_one (block_number s i j) ≡ false

abbrev pub block_of : Fs → ℕ → ℕ → ℕ
block_of s i j = index (block_number s i j)

-- The number of a block in use.
pub record IsBlock (free_blocks : Array AllocationState) (z : ℤ) : Type 0 where
  pub is_pos : z ≡ pos (index z)
  pub below : index z < data_blocks
  pub in_use : free_blocks (index z) ≡ taken

-- The direct blocks of the file `i` are blocks in use, and no two of them are one.
pub record Owns (s : Fs) (i : ℕ) : Type 0 where
  pub is_block :
      (j : ℕ)
      → j < indirect_access_block
      → HasNumber s i j
      → IsBlock s.free_blocks (block_number s i j)
  pub apart :
      (j k : ℕ)
      → j < indirect_access_block
      → k < indirect_access_block
      → HasNumber s i j
      → HasNumber s i k
      → block_of s i j ≡ block_of s i k
      → j ≡ k

-- It depends on the map of the blocks and on the numbers alone.
pub Owns-same :
    {s t : Fs} {i : ℕ}
    → t.free_blocks ≡ s.free_blocks
    → ((k : ℕ) → block_number t i k ≡ block_number s i k)
    → Owns s i
    → Owns t i
Owns-same {s} {t} {i} map same own = record {
  is_block = λ k lt b.
      subst (λ f. IsBlock f (block_number t i k)) (sym map)
        (subst (IsBlock s.free_blocks) (sym (same k))
          (own.is_block k lt (ap is_minus_one (sym (same k)) ∙ b)));
  apart = λ k l lk ll bk bl e.
      own.apart k l lk ll (ap is_minus_one (sym (same k)) ∙ bk)
        (ap is_minus_one (sym (same l)) ∙ bl) (ap index (sym (same k)) ∙ e ∙ ap index (same l));
}

-- The state after a new block `b` was recorded as the `j`-th of the file `i`.
abbrev pub with_number : Fs → ℕ → ℕ → ℕ → Fs
with_number s i j b =
    set_block_number (record s { free_blocks = update s.free_blocks b taken }) i j (pos b)

-- A missing block is made, if one is free.
pub data FindsBlock (s : Fs) (i j : ℕ) (r : Option ℕ × Fs) : Type 0 where
  all_taken :
      ((b : ℕ) → b < data_blocks → s.free_blocks b ≡ taken) → r ≡ (none, s) → FindsBlock s i j r
  present : HasNumber s i j → r ≡ (some (block_of s i j * block_size), s) → FindsBlock s i j r
  made :
      (b : ℕ)
      → b < data_blocks
      → s.free_blocks b ≡ free
      → is_minus_one (block_number s i j) ≡ true
      → r ≡ (some (b * block_size), with_number s i j b)
      → FindsBlock s i j r

minus_one_lem : (z : ℤ) → is_minus_one z ≡ true → z ≡ minus_one
minus_one_lem (pos n) e = cc e
minus_one_lem (negsuc n) e = ground (arith, e)

-- Recording -1 in place of -1 changes nothing.
set_block_number-absent :
    (s : Fs) (i j : ℕ)
    → is_minus_one (block_number s i j) ≡ true
    → set_block_number s i j minus_one ≡ s
set_block_number-absent s i j absent =
    ap (set_block_number s i j) (sym (minus_one_lem (block_number s i j) absent))
    ∙ ap (λ d. set_inode s i (record (s.inode_table i) { i_data_block = d }))
        (update_same (s.inode_table i).i_data_block j)
    ∙ ap (λ f. record s { inode_table = f }) (update_same s.inode_table i)

pub direct_block-FindsBlock :
    (s : Fs) (i j : ℕ)
    → Owns s i
    → j < indirect_access_block
    → FindsBlock s i j (direct_block i j s)
unfolding direct_block data_block_alloc data_block_get
direct_block-FindsBlock s i j o lt = elim (Bool-cases (is_minus_one (block_number s i j))) [
  | inr old ↦ present old (ground (arith, old, o.is_block j lt old))
  | inl absent ↦ elim (Option-cases (find_first (λ b. is_free (s.free_blocks b)) data_blocks 0)) [
    | inl e ↦
        all_taken
          (λ b lt'.
            taken_of_is_free _ (find_first-none _ data_blocks 0 e b (omega arith) (omega arith)))
          (ground (arith, absent, e) ∙ ap (λ t. (none, t)) (set_block_number-absent s i j absent))
    | inr (b, e) ↦
        (let first : IsFirst _ data_blocks 0 b = find_first-IsFirst _ data_blocks 0 b e in
          made b (omega (arith, first.below)) (free_of_is_free _ first.passes) absent
            (ground (arith, absent, e, first.below)))
  ]
]
