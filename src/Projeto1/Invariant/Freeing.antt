-- ===== src/Projeto1/Invariant/Freeing.antt =====
-- What truncating a file gives back.
use projeto_sistemas_operati.Projeto1.Types.{
  set_inode, set_block_number, block_number, indirect_access_block, Fs,
}
use projeto_sistemas_operati.Projeto1.Blocks.{free_bonus, free_file, data_block_free, free_direct}
use projeto_sistemas_operati.Base.{
  false, update_ne, ltb, subst, sym, ℤ, ap, true, zero, refl, inr, ℕ_discrete, inl, ◌⊎◌, ◌==◌,
  arith, is_minus_one, minus_one, if◌then◌else◌, Bool-cases, ◌∙◌, suc, ◌≢◌, ◌≤◌, ◌<◌, ◌+◌, ◌≡◌, ℕ,
}
use projeto_sistemas_operati.Projeto1.Position.Direct.{block_of, HasNumber}
use projeto_sistemas_operati.Projeto2.Types.{index, t_file, taken}
use projeto_sistemas_operati.Projeto1.Operations.{truncate_blocks, truncate}

-- In `t`, the file `i` of `s` has lost some of its direct blocks, and nothing else has changed but
-- that they may be free.
pub record Freed (s : Fs) (i : ℕ) (t : Fs) : Type 0 where
  pub bytes_same : t.fs_data ≡ s.fs_data
  pub map_same : t.freeinode_ts ≡ s.freeinode_ts
  pub handles_same : t.open_file_table ≡ s.open_file_table
  pub handle_map_same : t.free_open_file_entries ≡ s.free_open_file_entries
  pub inodes_same : (k : ℕ) → i ≢ k → t.inode_table k ≡ s.inode_table k
  pub type_same : (t.inode_table i).i_node_type ≡ (s.inode_table i).i_node_type
  pub indirect_same :
      block_number t i indirect_access_block ≡ block_number s i indirect_access_block
  pub numbers :
      (l : ℕ)
      → l < indirect_access_block
      → HasNumber t i l
      → block_number t i l ≡ block_number s i l
  pub kept :
      (b : ℕ)
      → s.free_blocks b ≡ taken
      → ((l : ℕ)
          → l < indirect_access_block
          → HasNumber s i l
          → HasNumber t i l ⊎ (block_of s i l ≢ b))
      → t.free_blocks b ≡ taken

Freed-same : (s : Fs) (i : ℕ) → Freed s i s
Freed-same s i = record {
  bytes_same = refl;
  map_same = refl;
  handles_same = refl;
  handle_map_same = refl;
  inodes_same = λ k ne. refl;
  type_same = refl;
  indirect_same = refl;
  numbers = λ l lt h. refl;
  kept = λ b used f. used;
}

-- One block is given back, and its number is -1.
module _ (s : Fs) (i j : ℕ) (lj : j < indirect_access_block) (has : HasNumber s i j) where
  abbrev given_back : Fs
  given_back = set_block_number (data_block_free (block_number s i j) s).1 i j minus_one

  given_back-number :
      (l : ℕ) → block_number given_back i l ≡ (if j == l then minus_one else block_number s i l)
  unfolding data_block_free
  given_back-number l = ground arith

  given_back-map :
      (b : ℕ) → block_of s i j ≢ b → s.free_blocks b ≡ taken → given_back.free_blocks b ≡ taken
  unfolding data_block_free
  given_back-map b ne used = ground (arith, ne, used)

  number_kept : (l : ℕ) → j ≢ l → block_number given_back i l ≡ block_number s i l
  number_kept l ne = given_back-number l ∙ ground (arith, ne)

  cleared : (l : ℕ) → j ≡ l → ¬ HasNumber given_back i l
  cleared l e h = absurd (ground (arith, h, given_back-number l, e))

  -- A block that stays in use as far as `t` is concerned is not the one given back.
  not_given_back :
      {t : Fs} (b : ℕ)
      → Freed given_back i t
      → HasNumber t i j ⊎ (block_of s i j ≢ b)
      → block_of s i j ≢ b
  not_given_back b f (inl h) e = cleared j refl (ap is_minus_one (sym (f.numbers j lj h)) ∙ h)
  not_given_back b f (inr ne) e = ne e

  Freed-given_back : {t : Fs} → Freed given_back i t → Freed s i t
  unfolding data_block_free
  Freed-given_back {t} f = record {
    bytes_same = f.bytes_same ∙ ground arith;
    map_same = f.map_same ∙ ground arith;
    handles_same = f.handles_same ∙ ground arith;
    handle_map_same = f.handle_map_same ∙ ground arith;
    inodes_same = λ k ne. f.inodes_same k ne ∙ ground (arith, ne);
    type_same = f.type_same ∙ ground arith;
    indirect_same = f.indirect_same ∙ given_back-number indirect_access_block ∙ ground (arith, lj);
    numbers = λ l lt h. elim (ℕ_discrete j l) [
      | yes e ↦ absurd (cleared l e (ap is_minus_one (sym (f.numbers l lt h)) ∙ h))
      | no ne ↦ f.numbers l lt h ∙ number_kept l ne
    ];
    kept = λ b used keeps.
        f.kept b (given_back-map b (not_given_back b f (keeps j lj has)) used) (λ l lt h.
          elim (ℕ_discrete j l) [
            | yes e ↦ absurd (cleared l e h)
            | no ne ↦
                subst (λ z. HasNumber t i l ⊎ (index z ≢ b)) (sym (number_kept l ne))
                  (keeps l lt (ap is_minus_one (sym (number_kept l ne)) ∙ h))
          ]);
  }

data_block_free-fails :
    (z : ℤ) (s : Fs) → is_minus_one (data_block_free z s).0 ≡ true → (data_block_free z s).1 ≡ s
unfolding data_block_free
data_block_free-fails z s e = ground (arith, e)

free_direct-Freed :
    (n j i : ℕ) (s : Fs) → j + n ≤ indirect_access_block → Freed s i (free_direct n j i s).1
unfolding free_direct
free_direct-Freed zero j i s le = Freed-same s i
free_direct-Freed (suc n) j i s le = elim (Bool-cases (is_minus_one (block_number s i j))) [
  | inl last ↦ rw (last, free_direct) (Freed-same s i)
  | inr more ↦ elim (Bool-cases (is_minus_one (data_block_free (block_number s i j) s).0)) [
    | inl bad ↦ rw (more, bad, free_direct) (rw (data_block_free-fails _ s bad) (Freed-same s i))
    | inr ok ↦
        rw (more, ok, free_direct)
          (Freed-given_back s i j (omega (arith, le)) more
            (free_direct-Freed n (j + 1) i _ (omega (arith, le))))
  ]
]

Freed-sized :
    {s t : Fs} (i : ℕ)
    → Freed s i t
    → Freed s i (set_inode t i (record (t.inode_table i) { i_size = 0 }))
Freed-sized {s} {t} i f = record {
  bytes_same = f.bytes_same;
  map_same = f.map_same;
  handles_same = f.handles_same;
  handle_map_same = f.handle_map_same;
  inodes_same = λ k ne. update_ne t.inode_table i k _ ne ∙ f.inodes_same k ne;
  type_same = ground arith ∙ f.type_same;
  indirect_same = numbers_same indirect_access_block ∙ f.indirect_same;
  numbers = λ l lt h. numbers_same l ∙ f.numbers l lt (ap is_minus_one (sym (numbers_same l)) ∙ h);
  kept = λ b used keeps. f.kept b used (λ l lt h.
      subst (λ z. (is_minus_one z ≡ false) ⊎ (block_of s i l ≢ b)) (numbers_same l) (keeps l lt h));
}
  where
    numbers_same :
        (l : ℕ)
        → block_number (set_inode t i (record (t.inode_table i) { i_size = 0 })) i l
          ≡ block_number t i l
    numbers_same l = ground arith

-- A file without an indirect block.
module _ {s : Fs} (i : ℕ)
    (none_indirect : is_minus_one (block_number s i indirect_access_block) ≡ true)
    (regular : (s.inode_table i).i_node_type ≡ t_file) where
  free_file-Freed : Freed s i (free_file i s).1
  unfolding free_file free_bonus
  free_file-Freed =
      let f : Freed s i (free_direct indirect_access_block 0 i s).1 =
        free_direct-Freed indirect_access_block 0 i s (omega arith) in
      elim (Bool-cases (is_minus_one (free_direct indirect_access_block 0 i s).0)) [
        | inl bad ↦ rw (bad, free_file) f
        | inr ok ↦ rw (ok, free_file) (rw (f.indirect_same, none_indirect, free_bonus) f)
      ]

  pub truncate-Freed : Freed s i (truncate i s).1
  unfolding truncate truncate_blocks
  truncate-Freed = elim (Bool-cases (ltb 0 (s.inode_table i).i_size)) [
    | inr empty ↦ rw (empty, truncate) (Freed-same s i)
    | inl bytes ↦ elim (Bool-cases (is_minus_one (free_file i s).0)) [
      | inl bad ↦ rw (bytes, regular, bad, truncate, truncate_blocks) free_file-Freed
      | inr ok ↦ rw (bytes, regular, ok, truncate, truncate_blocks) (Freed-sized i free_file-Freed)
    ]
  ]
