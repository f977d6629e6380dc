-- ===== src/Projeto2/Directory/Outcomes.antt =====
-- The outcomes of `add_dir_entry`, and what `find_in_dir` reads.
use projeto_sistemas_operati.Base.{
  refl, negsuc, is_minus_one, false, ◌⊎◌, IsInt, ℕ, ◌<◌, ◌≡◌, sym, subst, inl, inr, true, none,
  some, arith, ℤ, pos, minus_one, length, ◌==◌, find_first, find_first-IsFirst, IsFirst,
  Option-cases, Bool-cases,
}
use projeto_sistemas_operati.Memory.{load_int, CString, Mem}
use projeto_sistemas_operati.Projeto2.Types.{
  d_inumber_at, Fs, is_directory, max_dir_entries, index, valid_inumber,
}
use projeto_sistemas_operati.Projeto2.Blocks.{data_block_get}
use projeto_sistemas_operati.Projeto2.Directory.{
  entry_is_empty, entry_matches, fill_entry, add_to_block, add_dir_entry, find_in_block,
  find_in_dir,
}

-- The block of a directory, at address `base`.
pub record DirectoryAt (s : Fs) (d : ℤ) (base : ℕ) : Type 0 where
  pub valid : valid_inumber d ≡ true
  pub is_dir : is_directory (s.inode_table (index d)).i_node_type ≡ true
  pub block : data_block_get (s.inode_table (index d)).i_data_block ≡ some base

-- Where `add_dir_entry` writes: the first empty entry of the directory.
pub record AddsAt (s : Fs) (d z : ℤ) (name : CString) (base i : ℕ) : Type 0 where
  pub directory : DirectoryAt s d base
  pub sub_valid : valid_inumber z ≡ true
  pub named : 0 < length name
  pub first : IsFirst (entry_is_empty s.fs_data base) max_dir_entries 0 i

pub data Adds (s : Fs) (d z : ℤ) (name : CString) (r : ℤ × Fs) : Type 0 where
  refused : r ≡ (minus_one, s) → Adds s d z name r
  added :
      (base i : ℕ)
      → AddsAt s d z name base i
      → r ≡ (pos 0, record s { fs_data = fill_entry s.fs_data base i z name })
      → Adds s d z name r

module _ (s : Fs) (d z : ℤ) (name : CString) where
  add_to_block-Adds :
      (base : ℕ)
      → DirectoryAt s d base
      → valid_inumber z ≡ true
      → 0 < length name
      → Adds s d z name (add_to_block s base z name)
  unfolding add_to_block
  add_to_block-Adds base at ok nonempty =
      elim (Option-cases (find_first (entry_is_empty s.fs_data base) max_dir_entries 0)) [
        | inl e ↦ refused (rw (e, add_to_block))
        | inr (i, e) ↦
            added base i
              (record {
                directory = at;
                sub_valid = ok;
                named = nonempty;
                first = find_first-IsFirst _ max_dir_entries 0 i e;
              })
              (rw (e, add_to_block))
      ]

  -- add_dir_entry either returns -1 and changes nothing, or returns 0 and fills the first empty
  -- entry of a directory, for valid numbers and a name that is not empty.
  pub add_dir_entry-Adds : Adds s d z name (add_dir_entry d z name s)
  unfolding add_dir_entry
  add_dir_entry-Adds = elim (Bool-cases (valid_inumber d)) [
    | inr e ↦ refused (ground arith)
    | inl vd ↦ elim (Bool-cases (valid_inumber z)) [
      | inr e ↦ refused (ground arith)
      | inl vz ↦ elim (Bool-cases (is_directory (s.inode_table (index d)).i_node_type)) [
        | inr e ↦ refused (ground arith)
        | inl dir ↦ elim (Bool-cases (length name == 0)) [
          | inl e ↦ refused (ground arith)
          | inr nonempty ↦
              elim (Option-cases (data_block_get (s.inode_table (index d)).i_data_block)) [
                | inl e ↦ refused (ground arith)
                | inr (base, e) ↦
                    (let accepted : add_dir_entry d z name s ≡ add_to_block s base z name =
                        ground arith in
                      subst (Adds s d z name) (sym accepted) (
                        add_to_block-Adds base (record { valid = vd; is_dir = dir; block = e }) vz
                          (ground arith)))
              ]
        ]
      ]
    ]
  ]

-- A search that finds nothing returns -1, and one that does, the number of a used entry.
pub find_in_dir-DirectoryAt :
    (s : Fs) (d : ℤ) (base : ℕ) (t : CString)
    → DirectoryAt s d base
    → find_in_dir d t s ≡ find_in_block s.fs_data base t
unfolding find_in_dir
find_in_dir-DirectoryAt s d base t at = ground arith

pub find_in_block-missing :
    (m : Mem) (base : ℕ) (t : CString)
    → find_in_block m base t ≡ minus_one
    → find_first (entry_matches m base t) max_dir_entries 0 ≡ none
unfolding find_in_block entry_matches entry_is_empty
find_in_block-missing m base t e =
    elim (Option-cases (find_first (entry_matches m base t) max_dir_entries 0)) [
      | inl missing ↦ missing
      | inr (k, found) ↦
          (let first : IsFirst (entry_matches m base t) max_dir_entries 0 k =
              find_first-IsFirst _ max_dir_entries 0 k found in
            absurd (ground (arith, found, first.passes)))
    ]

-- A number that passes the check fits in an `int`, and is not -1.
pub IsInt-valid_inumber : (z : ℤ) → valid_inumber z ≡ true → IsInt z × (is_minus_one z ≡ false)
IsInt-valid_inumber (pos n) h = (ground arith, refl)
IsInt-valid_inumber (negsuc n) h = cc

-- What a search of a block returns: -1, or the number in an entry in use.
pub find_in_block-cases :
    (m : Mem) (base : ℕ) (t : CString)
    → (find_in_block m base t ≡ minus_one)
      ⊎ ((k : ℕ) × (k < max_dir_entries)
          × (entry_is_empty m base k ≡ false)
          × (find_in_block m base t ≡ load_int m (d_inumber_at base k)))
unfolding find_in_block entry_matches
find_in_block-cases m base t =
    elim (Option-cases (find_first (entry_matches m base t) max_dir_entries 0)) [
      | inl e ↦ inl (ground (arith, e))
      | inr (k, e) ↦
          (let first : IsFirst (entry_matches m base t) max_dir_entries 0 k =
              find_first-IsFirst _ max_dir_entries 0 k e in
            inr (k, omega (arith, first.below), ground (arith, first.passes), ground (arith, e)))
    ]
