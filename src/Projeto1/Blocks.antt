-- ===== src/Projeto1/Blocks.antt =====
-- fs/state.c: the data blocks, and giving back the blocks of a file.
use projeto_sistemas_operati.Base.{
  some, none, zero, ◌*◌, ◌+◌, update, minus_one, is_minus_one, suc, if◌then◌else◌, find_first, pos,
  ℤ, ℕ,
}
use projeto_sistemas_operati.Projeto1.Types.{
  indirect_references, set_block_number, block_number, indirect_access_block, Fs,
}
use projeto_sistemas_operati.Projeto2.Types.{
  taken, free, index, data_blocks, is_free, valid_block_number,
}
use projeto_sistemas_operati.Projeto2.Blocks.{data_block_get}
use projeto_sistemas_operati.Memory.{store_int, sizeof_int, load_int}

unfoldable pub data_block_alloc : Fs → ℤ × Fs
data_block_alloc s = elim (find_first (λ i. is_free (s.free_blocks i)) data_blocks 0) [
  | none ↦ (minus_one, s)
  | some i ↦ (pos i, record s { free_blocks = update s.free_blocks i taken })
]

unfoldable pub data_block_free : ℤ → Fs → ℤ × Fs
data_block_free b s =
    if valid_block_number b
    then (pos 0, record s { free_blocks = update s.free_blocks (index b) free })
    else (minus_one, s)

-- The loop that frees the direct blocks of the i-node `i`, from the `j`-th on, `n` of them.
unfoldable pub free_direct : ℕ → ℕ → ℕ → Fs → ℤ × Fs
free_direct zero j i s = (pos 0, s)
free_direct (suc n) j i s =
    let (r, s') = data_block_free (block_number s i j) s in
    let rest = free_direct n (j + 1) i (set_block_number s' i j minus_one) in
    if is_minus_one (block_number s i j)
    then (pos 0, s)
    else if is_minus_one r
    then (minus_one, s')
    else rest

-- The loop that frees the blocks whose numbers stand from address `bonus` on.
unfoldable pub free_indirect : ℕ → ℕ → ℕ → Fs → ℤ × Fs
free_indirect zero j bonus s = (pos 0, s)
free_indirect (suc n) j bonus s =
    let b = load_int s.fs_data (bonus + j * sizeof_int) in
    let (r, s') = data_block_free b s in
    let rest =
      free_indirect n (j + 1) bonus
        (record s' { fs_data = store_int s'.fs_data (bonus + j * sizeof_int) minus_one }) in
    if is_minus_one b then (pos 0, s) else if is_minus_one r then (minus_one, s') else rest

-- The indirect blocks of the i-node `i`, and the block of their numbers. The i-node keeps its number.
unfoldable pub free_bonus : ℕ → Fs → ℤ × Fs
free_bonus i s =
    let last_block = block_number s i indirect_access_block in
    if is_minus_one last_block then (pos 0, s) else elim (data_block_get last_block) [
      | none ↦ (minus_one, s)
      | some bonus ↦
          (let (r, s') = free_indirect indirect_references 0 bonus s in
            if is_minus_one r then (minus_one, s') else data_block_free last_block s')
    ]

-- What deleting and truncating a file with bytes do to its blocks.
unfoldable pub free_file : ℕ → Fs → ℤ × Fs
free_file i s =
    let (r, s') = free_direct indirect_access_block 0 i s in
    if is_minus_one r then (minus_one, s') else free_bonus i s'

-- The branch for a directory, which frees only a block whose number is -1.
unfoldable pub free_directory : ℕ → Fs → ℤ × Fs
free_directory i s =
    if is_minus_one (block_number s i 0) then data_block_free (block_number s i 0) s else (pos 0, s)
