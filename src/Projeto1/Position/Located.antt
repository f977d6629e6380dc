-- ===== src/Projeto1/Position/Located.antt =====
-- What `get_current_data_block` does for an offset within the direct blocks of a file.
use projeto_sistemas_operati.Projeto1.Types.{block_number, returns, indirect_access_block, Run, Fs}
use projeto_sistemas_operati.Projeto1.Position.{direct_block, get_current_data_block}
use projeto_sistemas_operati.Base.{
  update_self, refl, subst, ◌∙◌, sym, update, ap, ℕ_discrete, pos, ℤ, ◌≢◌, some, arith, true, none,
  ◌/◌, is_minus_one, ◌*◌, ◌≡◌, ◌<◌, Option, ℕ,
}
use projeto_sistemas_operati.Projeto1.Position.Direct.{
  made, present, all_taken, direct_block-FindsBlock, IsBlock, with_number, block_of, HasNumber,
  Owns,
}
use projeto_sistemas_operati.Projeto2.Types.{index, block_size, free, taken, data_blocks}

-- What a round of a loop may rely on once it has its block.
pub record Finds (s : Fs) (i j block : ℕ) (t : Fs) : Type 0 where
  pub owns : Owns t i
  pub found : HasNumber t i j
  pub address : block ≡ block_of t i j * block_size
  pub keeps : (k : ℕ) → HasNumber s i k → HasNumber t i k
  pub same : (k : ℕ) → HasNumber s i k → block_number t i k ≡ block_number s i k
  pub data_same : t.fs_data ≡ s.fs_data
  pub files_same : t.open_file_table ≡ s.open_file_table
  pub entries_same : t.free_open_file_entries ≡ s.free_open_file_entries
  pub size_same : (t.inode_table i).i_size ≡ (s.inode_table i).i_size
  pub indirect_same :
      block_number t i indirect_access_block ≡ block_number s i indirect_access_block

module _ (s : Fs) (i j b : ℕ) (o : Owns s i) (lt : b < data_blocks) (f : s.free_blocks b ≡ free)
    (absent : is_minus_one (block_number s i j) ≡ true) where
  new_number : block_number (with_number s i j b) i j ≡ pos b
  new_number = ground arith

  old_number : (k : ℕ) → j ≢ k → block_number (with_number s i j b) i k ≡ block_number s i k
  old_number k ne = ground (arith, ne)

  IsBlock-with_number : (z : ℤ) → IsBlock s.free_blocks z → IsBlock (update s.free_blocks b taken) z
  IsBlock-with_number z v = record {
    is_pos = v.is_pos;
    below = v.below;
    in_use = ground (arith, v.in_use);
  }

  numbers-with_number :
      (k : ℕ)
      → k < indirect_access_block
      → HasNumber (with_number s i j b) i k
      → IsBlock (update s.free_blocks b taken) (block_number (with_number s i j b) i k)
  numbers-with_number k lk h = elim (ℕ_discrete j k) [
    | yes same ↦
        subst (IsBlock (update s.free_blocks b taken))
          (sym (ap (block_number (with_number s i j b) i) (sym same) ∙ new_number))
          (record { is_pos = refl; below = lt; in_use = update_self s.free_blocks b taken })
    | no other ↦ subst (IsBlock (update s.free_blocks b taken)) (sym (old_number k other)) (
        IsBlock-with_number (block_number s i k)
          (o.is_block k lk (ap is_minus_one (sym (old_number k other)) ∙ h)))
  ]

  -- A block of the file was in use, so it is not the new one.
  fresh : (k : ℕ) → k < indirect_access_block → HasNumber s i k → block_of s i k ≢ b
  fresh k lk h e = absurd (ground (arith, (o.is_block k lk h).in_use, f, ap s.free_blocks e))

  apart-with_number :
      (k l : ℕ)
      → k < indirect_access_block
      → l < indirect_access_block
      → HasNumber (with_number s i j b) i k
      → HasNumber (with_number s i j b) i l
      → block_of (with_number s i j b) i k ≡ block_of (with_number s i j b) i l
      → k ≡ l
  apart-with_number k l lk ll hk hl e = elim (ℕ_discrete j k) [
    | yes jk ↦ elim (ℕ_discrete j l) [
      | yes jl ↦ sym jk ∙ jl
      | no jl ↦ absurd (
          fresh l ll (ap is_minus_one (sym (old_number l jl)) ∙ hl) (
            ap index (sym (old_number l jl))
            ∙ sym e
            ∙ ap (λ m. block_of (with_number s i j b) i m) (sym jk)
            ∙ ap index new_number))
    ]
    | no jk ↦ elim (ℕ_discrete j l) [
      | yes jl ↦ absurd (
          fresh k lk (ap is_minus_one (sym (old_number k jk)) ∙ hk) (
            ap index (sym (old_number k jk))
            ∙ e
            ∙ ap (λ m. block_of (with_number s i j b) i m) (sym jl)
            ∙ ap index new_number))
      | no jl ↦
          o.apart k l lk ll (ap is_minus_one (sym (old_number k jk)) ∙ hk)
            (ap is_minus_one (sym (old_number l jl)) ∙ hl)
            (ap index (sym (old_number k jk)) ∙ e ∙ ap index (old_number l jl))
    ]
  ]

  HasNumber-apart : (k : ℕ) → HasNumber s i k → j ≢ k
  HasNumber-apart k h e =
      absurd (ground (arith, ap (λ m. is_minus_one (block_number s i m)) e, absent, h))

  with_number-Finds : j < indirect_access_block → Finds s i j (b * block_size) (with_number s i j b)
  with_number-Finds lj = record {
    owns = record { is_block = numbers-with_number; apart = apart-with_number };
    found = ap is_minus_one new_number;
    address = ap (λ z. index z * block_size) (sym new_number);
    keeps = λ k h. ap is_minus_one (old_number k (HasNumber-apart k h)) ∙ h;
    same = λ k h. old_number k (HasNumber-apart k h);
    data_same = refl;
    files_same = refl;
    entries_same = refl;
    size_same = ground arith;
    indirect_same = old_number indirect_access_block (λ e. omega (arith, e, lj));
  }

-- Within the direct blocks, `get_current_data_block` finds or makes the block, unless every block is
-- taken; it does not crash.
pub data Locates (s : Fs) (i j : ℕ) (r : Run (Option ℕ × Fs)) : Type 0 where
  no_block_left :
      ((b : ℕ) → b < data_blocks → s.free_blocks b ≡ taken)
      → r ≡ returns (none, s)
      → Locates s i j r
  located :
      (block : ℕ) (t : Fs) → Finds s i j block t → r ≡ returns (some block, t) → Locates s i j r

pub get_current_data_block-Locates :
    (s : Fs) (i offset : ℕ)
    → Owns s i
    → offset < indirect_access_block * block_size
    → Locates s i (offset / block_size) (get_current_data_block i offset s)
unfolding get_current_data_block
get_current_data_block-Locates s i offset o lt =
    let j : ℕ = offset / block_size in
    let lj : j < indirect_access_block = omega (arith, lt) in
    let direct : get_current_data_block i offset s ≡ returns (direct_block i j s) =
      ground (arith, lj) in
    elim (direct_block-FindsBlock s i j o lj) [
      | all_taken all e ↦ no_block_left all (direct ∙ ap returns e)
      | present old e ↦
          located (block_of s i j * block_size) s
            (record {
              owns = o;
              found = old;
              address = refl;
              keeps = λ k h. h;
              same = λ k h. refl;
              data_same = refl;
              files_same = refl;
              entries_same = refl;
              size_same = refl;
              indirect_same = refl;
            })
            (direct ∙ ap returns e)
      | made b below f absent e ↦
          located (b * block_size) (with_number s i j b)
            (with_number-Finds s i j b o below f absent lj) (direct ∙ ap returns e)
    ]
