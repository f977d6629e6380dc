-- ===== src/Projeto2/Blocks/Allocation.antt =====
-- What `data_block_alloc` and `data_block_free` do to the map of free blocks.
use projeto_sistemas_operati.Base.{
  update_back, ℕ, ◌<◌, ◌≡◌, inl, inr, true, false, arith, ℤ, pos, minus_one, ap, update, find_first,
  find_first-IsFirst, find_first-none, IsFirst, Option-cases, is_nonneg,
}
use projeto_sistemas_operati.Projeto2.Types.{Fs, AllocationState, free, taken, is_free, data_blocks}
use projeto_sistemas_operati.Projeto2.Blocks.{data_block_alloc, data_block_free}

abbrev pub set_block : Fs → ℕ → AllocationState → Fs
set_block s b a = record s { free_blocks = update s.free_blocks b a }

-- The outcome of an allocation: the lowest free block, or none where all are taken.
pub data Allocates (s : Fs) (r : ℤ × Fs) : Type 0 where
  none_free :
      r ≡ (minus_one, s) → ((b : ℕ) → b < data_blocks → s.free_blocks b ≡ taken) → Allocates s r
  allocated :
      (b : ℕ)
      → b < data_blocks
      → s.free_blocks b ≡ free
      → ((j : ℕ) → j < b → s.free_blocks j ≡ taken)
      → r ≡ (pos b, set_block s b taken)
      → Allocates s r

-- What `is_free` says of a cell.
pub free_of_is_free : (a : AllocationState) → is_free a ≡ true → a ≡ free
free_of_is_free a e = ground arith

pub taken_of_is_free : (a : AllocationState) → is_free a ≡ false → a ≡ taken
taken_of_is_free a e = ground arith

-- data_block_alloc takes the lowest free block and changes nothing else; it returns -1, and
-- changes nothing, exactly where every block is taken.
pub data_block_alloc-Allocates : (s : Fs) → Allocates s (data_block_alloc s)
unfolding data_block_alloc
data_block_alloc-Allocates s =
    elim (Option-cases (find_first (λ i. is_free (s.free_blocks i)) data_blocks 0)) [
      | inl e ↦ none_free (rw (e, data_block_alloc)) (λ b lt.
          taken_of_is_free _ (find_first-none _ data_blocks 0 e b (omega arith) (omega arith)))
      | inr (b, e) ↦
          (let first : IsFirst _ data_blocks 0 b = find_first-IsFirst _ data_blocks 0 b e in
            allocated b (omega (arith, first.below)) (free_of_is_free _ first.passes)
              (λ j lt. taken_of_is_free _ (first.least j (omega arith) lt))
              (rw (e, data_block_alloc)))
    ]

free_found :
    (s : Fs) (b : ℕ)
    → b < data_blocks
    → s.free_blocks b ≡ free
    → data_block_free (pos b) (set_block s b taken) ≡ (pos 0, s)
unfolding data_block_free
free_found s b lt e = ground (arith, update_back s.free_blocks b taken free e)

-- Freeing the block that a successful allocation returned succeeds and gives the tables back as
-- they were.
pub data_block_free-alloc :
    (s : Fs)
    → is_nonneg (data_block_alloc s).0 ≡ true
    → let (b, s') = data_block_alloc s in data_block_free b s' ≡ (pos 0, s)
data_block_free-alloc s h = elim (data_block_alloc-Allocates s) [
  | none_free e taken_all ↦ absurd (cc (ap (λ r. is_nonneg r.0) e))
  | allocated b lt f low e ↦ rw e (free_found s b lt f)
]
