-- ===== src/Projeto1/Position/Bounds.antt =====
-- Where the loops of `tfs_write` and `tfs_read` reach in the array of the blocks.
use projeto_sistemas_operati.Projeto1.Position.{
  bonus_block_init, get_current_offset, get_current_data_block, bonus_block, direct_block,
  indirect_block,
}
use projeto_sistemas_operati.Base.{
  refl, ◌⊎◌, Option-cases, if◌then◌else◌, ap, inl, inr, ◌*◌, ◌/◌, ◌≤◌, ◌^◌, ltb, is_minus_one, ◌<◌,
  some, arith, Bool-cases, ℤ, ◌+◌, ◌≡◌, none, Option, ℕ,
}
use projeto_sistemas_operati.Projeto2.Blocks.{data_block_get}
use projeto_sistemas_operati.Projeto1.Types.{
  crashes, Run, indirect_access_block, block_number, returns, Fs,
}
use projeto_sistemas_operati.Projeto2.Types.{data_blocks, block_size}
use projeto_sistemas_operati.Memory.{sizeof_int, load_int}
use projeto_sistemas_operati.Projeto1.Operations.{clip_block}
use projeto_sistemas_operati.Projeto1.Position.Offset.{get_current_offset-mod, clip_block_lem}
use projeto_sistemas_operati.Projeto1.Blocks.{data_block_alloc}

abbrev InData : ℕ → Type 0
InData block = block + block_size ≤ data_blocks * block_size

abbrev AddressInData : Option ℕ → Type 0
AddressInData a = (block : ℕ) → a ≡ some block → InData block

data_block_get-InData : (b : ℤ) → AddressInData (data_block_get b)
unfolding data_block_get
data_block_get-InData b block e = ground (arith, e)

none-InData : AddressInData none
none-InData block e = cc e

direct_block-InData : (i j : ℕ) (s : Fs) → AddressInData (direct_block i j s).0
unfolding direct_block
direct_block-InData i j s = elim (Bool-cases (is_minus_one (block_number s i j))) [
  | inr old ↦ rw (old, direct_block) (data_block_get-InData (block_number s i j))
  | inl absent ↦ elim (Bool-cases (is_minus_one (data_block_alloc s).0)) [
    | inl full ↦ rw (absent, full, direct_block) none-InData
    | inr new ↦ rw (absent, new, direct_block) (data_block_get-InData (data_block_alloc s).0)
  ]
]

indirect_block-InData : (bonus j : ℕ) (s : Fs) → AddressInData (indirect_block bonus j s).0
unfolding indirect_block
indirect_block-InData bonus j s =
    elim (Bool-cases (is_minus_one (load_int s.fs_data (bonus + j * sizeof_int)))) [
      | inr old ↦ rw (old, indirect_block) (data_block_get-InData _)
      | inl absent ↦ elim (Bool-cases (is_minus_one (data_block_alloc s).0)) [
        | inl full ↦ rw (absent, full, indirect_block) none-InData
        | inr new ↦ rw (absent, new, indirect_block) (data_block_get-InData (data_block_alloc s).0)
      ]
    ]

Run-cases {ℓ} : {A : Type ℓ} (r : Run A) → (r ≡ crashes) ⊎ ((a : A) × (r ≡ returns a))
Run-cases crashes = inl refl
Run-cases (returns a) = inr (a, refl)

returns-injective {ℓ} : {A : Type ℓ} {a b : A} → returns a ≡ returns b → a ≡ b
returns-injective e = cc e

bonus_block-InData :
    (i j : ℕ) (s : Fs) (block : ℕ) (t : Fs)
    → bonus_block i j s ≡ returns (some block, t)
    → InData block
unfolding bonus_block
bonus_block-InData i j s block t e =
    elim (Run-cases (
      if is_minus_one (block_number s i indirect_access_block)
      then bonus_block_init i s
      else returns (block_number s i indirect_access_block, s))) [
        | inl c ↦ absurd (cc (rw (c, bonus_block) at e))
        | inr ((b, s'), r) ↦ elim (Option-cases (data_block_get b)) [
          | inl null ↦ absurd (cc (rw (r, null, bonus_block) at e))
          | inr (bonus, g) ↦
              indirect_block-InData bonus j s' block
                (ap (λ p. p.0) (returns-injective (rw (r, g, bonus_block) at e)))
        ]
      ]

get_current_data_block-InData :
    (i offset : ℕ) (s : Fs) (block : ℕ) (t : Fs)
    → get_current_data_block i offset s ≡ returns (some block, t)
    → InData block
unfolding get_current_data_block
get_current_data_block-InData i offset s block t e =
    elim (Bool-cases (ltb (offset / block_size) indirect_access_block)) [
      | inl direct ↦
          direct_block-InData i (offset / block_size) s block
            (ap (λ p. p.0) (returns-injective (rw (direct, get_current_data_block) at e)))
      | inr far ↦ bonus_block-InData i _ s block t (rw (far, get_current_data_block) at e)
    ]

-- Project 1: where get_current_data_block returns an address, also through the indirect block,
-- what a round of the loops of tfs_write and tfs_read copies at the position within the block ends
-- inside the array of the blocks. The offset is below 2^64, and so is the number of bytes with
-- 1024 more.
pub get_current_data_block-inside :
    (i offset count : ℕ) (s : Fs) (block : ℕ) (t : Fs)
    → offset < 2 ^ 64
    → count + block_size < 2 ^ 64
    → get_current_data_block i offset s ≡ returns (some block, t)
    → block + get_current_offset offset + clip_block offset count ≤ data_blocks * block_size
get_current_data_block-inside i offset count s block t small fits e = omega (
  arith,
  get_current_data_block-InData i offset s block t e,
  clip_block_lem offset count small fits,
  get_current_offset-mod offset small,
)
