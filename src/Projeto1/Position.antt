-- ===== src/Projeto1/Position.antt =====
-- fs/state.c: where the byte at a handle's offset stands, with new blocks where there are none.
pub mod Offset
pub mod Direct
pub mod Located
pub mod Bounds
use projeto_sistemas_operati.Base.{
  some, ◌-◌, zero, ◌%◌, minus_one, none, ◌*◌, ◌+◌, is_minus_one, ℤ, ◌/◌, ltb, suc, Option,
  if◌then◌else◌, ℕ,
}
use projeto_sistemas_operati.Projeto1.Types.{
  indirect_references, crashes, returns, set_block_number, indirect_access_block, block_number, Run,
  Fs,
}
use projeto_sistemas_operati.Memory.{load_int, sizeof_int, store_int, Mem}
use projeto_sistemas_operati.Projeto2.Types.{sub_size, block_size}
use projeto_sistemas_operati.Projeto1.Blocks.{data_block_alloc}
use projeto_sistemas_operati.Projeto2.Blocks.{data_block_get}

unfoldable pub get_current_offset : ℕ → ℕ
get_current_offset offset =
    if ltb (offset / block_size) indirect_access_block
    then offset % block_size
    else sub_size offset (10 * block_size) % block_size

-- `for (i = 0; i < n; i++) bonus_block[i] = -1`
unfoldable pub clear_references : ℕ → Mem → ℕ → Mem
clear_references zero m bonus = m
clear_references (suc n) m bonus =
    store_int (clear_references n m bonus) (bonus + n * sizeof_int) minus_one

-- Where no block is left it writes through NULL.
unfoldable pub bonus_block_init : ℕ → Fs → Run (ℤ × Fs)
bonus_block_init i s =
    let (last_block, s') = data_block_alloc s in
    let s'' = set_block_number s' i indirect_access_block last_block in
    elim (data_block_get last_block) [
      | none ↦ crashes
      | some bonus ↦ returns (
        last_block,
        record s'' { fs_data = clear_references indirect_references s''.fs_data bonus },
      )
    ]

-- The direct block `j`; the address is `none` where it is NULL.
unfoldable pub direct_block : ℕ → ℕ → Fs → Option ℕ × Fs
direct_block i j s =
    if is_minus_one (block_number s i j)
    then (let (b, s') = data_block_alloc s in
        let s'' = set_block_number s' i j b in
        if is_minus_one b then (none, s'') else (data_block_get b, s''))
    else (data_block_get (block_number s i j), s)

-- The block whose number is the `j`-th reference from address `bonus` on. The code does not test
-- `j`: past the last reference it reads and writes the bytes after the block.
unfoldable pub indirect_block : ℕ → ℕ → Fs → Option ℕ × Fs
indirect_block bonus j s =
    let a = bonus + j * sizeof_int in
    if is_minus_one (load_int s.fs_data a)
    then (let (b, s') = data_block_alloc s in
        let s'' = record s' { fs_data = store_int s'.fs_data a b } in
        if is_minus_one b then (none, s'') else (data_block_get b, s''))
    else (data_block_get (load_int s.fs_data a), s)

-- The block of the numbers, made where the i-node `i` has none, and then the block `j` after the
-- direct ones.
unfoldable pub bonus_block : ℕ → ℕ → Fs → Run (Option ℕ × Fs)
bonus_block i j s =
    elim (if is_minus_one (block_number s i indirect_access_block)
      then bonus_block_init i s
      else returns (block_number s i indirect_access_block, s)) [
        | crashes ↦ crashes
        | returns (b, s') ↦ elim (data_block_get b) [
          | none ↦ crashes
          | some bonus ↦ returns (indirect_block bonus j s')
        ]
      ]

unfoldable pub get_current_data_block : ℕ → ℕ → Fs → Run (Option ℕ × Fs)
get_current_data_block i offset s =
    let current_block = offset / block_size in
    if ltb current_block indirect_access_block
    then returns (direct_block i current_block s)
    else bonus_block i (current_block - indirect_access_block) s
