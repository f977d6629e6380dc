-- ===== src/Projeto1/Position/Offset.antt =====
-- The position within a block, and how many bytes a loop takes from one block.
use projeto_sistemas_operati.Projeto1.Operations.{clip_block}
use projeto_sistemas_operati.Projeto1.Position.{get_current_offset}
use projeto_sistemas_operati.Base.{◌-◌, min, ◌%◌, ◌≡◌, ◌+◌, ◌^◌, arith, ◌<◌, ℕ}
use projeto_sistemas_operati.Projeto2.Types.{block_size}

-- Project 1: for an offset below 2^64, get_current_offset, which treats the offsets past the
-- direct blocks apart, is the remainder of the offset by the size of a block.
pub get_current_offset-mod :
    (offset : ℕ) → offset < 2 ^ 64 → get_current_offset offset ≡ offset % block_size
unfolding get_current_offset
get_current_offset-mod offset small = ground arith

pub get_current_offset-lt : (offset : ℕ) → get_current_offset offset < block_size
unfolding get_current_offset
get_current_offset-lt offset = ground arith

pub clip_block_pos : (offset count : ℕ) → 0 < count → 0 < clip_block offset count
unfolding clip_block
clip_block_pos offset count p = ground (arith, get_current_offset-lt offset)

pub clip_block_lem :
    (offset count : ℕ)
    → offset < 2 ^ 64
    → count + block_size < 2 ^ 64
    → clip_block offset count ≡ min count (block_size - offset % block_size)
unfolding clip_block
clip_block_lem offset count small fits =
    ground (arith, get_current_offset-mod offset small, get_current_offset-lt offset)
