-- ===== src/Projeto2/Blocks.antt =====
-- fs/state.c: the data blocks.
pub mod Allocation
use projeto_sistemas_operati.Base.{
  ℕ, ◌*◌, Option, none, some, update, if◌then◌else◌, find_first, ℤ, pos, minus_one,
}
use projeto_sistemas_operati.Projeto2.Types.{
  Fs, free, taken, is_free, data_blocks, block_size, index, valid_block_number,
}

unfoldable pub data_block_alloc : Fs → ℤ × Fs
data_block_alloc s = elim (find_first (λ i. is_free (s.free_blocks i)) data_blocks 0) [
  | none ↦ (minus_one, s)
  | some i ↦ (pos i, record s { free_blocks = update s.free_blocks i taken })
]

unfoldable pub data_block_free : ℤ → Fs → ℤ × Fs
data_block_free b s =
    if valid_block_number b
    then (pos 0, record s { free_blocks = update s.free_blocks (index b) free })
    else (minus_one, s)

-- A block's address in `fs_data`; `none` is NULL.
unfoldable pub data_block_get : ℤ → Option ℕ
data_block_get b = if valid_block_number b then some (index b * block_size) else none
