-- ===== src/Projeto2/Directory/RoundTrip.antt =====
-- `find_in_dir` after `add_dir_entry`, at the level of the two functions.
use projeto_sistemas_operati.Projeto2.Types.{max_file_name, Fs}
use projeto_sistemas_operati.Base.{
  ap, arith, sym, ◌∙◌, minus_one, ◌≢◌, false, is_minus_one, ◌≤◌, ◌<◌, length, ◌≡◌, ℕ, ℤ,
}
use projeto_sistemas_operati.Memory.{IsText, CString}
use projeto_sistemas_operati.Projeto2.Directory.Outcomes.{
  IsInt-valid_inumber, added, refused, add_dir_entry-Adds, find_in_dir-DirectoryAt, DirectoryAt,
  AddsAt,
}
use projeto_sistemas_operati.Projeto2.Directory.{
  add_dir_entry, find_in_dir, fill_entry, entry_matches,
}
use projeto_sistemas_operati.Projeto2.Directory.Lookup.{
  entry_matches_long, entry_matches_other, find_in_block_new, find_in_block_other,
}

module _ (s : Fs) (d z : ℤ) (name : CString) (base i : ℕ) (at : AddsAt s d z name base i) where
  abbrev s' : Fs
  s' = record s { fs_data = fill_entry s.fs_data base i z name }

  after : DirectoryAt s' d base
  after = record {
    valid = at.directory.valid;
    is_dir = at.directory.is_dir;
    block = at.directory.block;
  }

  lookup_same :
      (t : CString)
      → entry_matches s'.fs_data base t i ≡ false
      → find_in_dir d t s' ≡ find_in_dir d t s
  lookup_same t miss =
      find_in_dir-DirectoryAt s' d base t after
      ∙ find_in_block_other s.fs_data base i z name at.first.passes t miss
      ∙ sym (find_in_dir-DirectoryAt s d base t at.directory)

  lookup_new :
      IsText name
      → length name < max_file_name
      → find_in_dir d name s ≡ minus_one
      → find_in_dir d name s' ≡ z
  lookup_new text fits missing =
      let (int, used) = IsInt-valid_inumber z at.sub_valid in
      find_in_dir-DirectoryAt s' d base name after
      ∙ find_in_block_new s.fs_data base i z name at.first.passes int used fits
          (omega (arith, at.first.below))
          (sym (find_in_dir-DirectoryAt s d base name at.directory) ∙ missing)

-- A name of at most 39 bytes, none of them 0, that the directory lacked is found after it was
-- added successfully, under the number that it was added with.
pub find_in_dir-add_dir_entry :
    (s : Fs) (d z : ℤ) (name : CString)
    → IsText name
    → length name < max_file_name
    → find_in_dir d name s ≡ minus_one
    → is_minus_one (add_dir_entry d z name s).0 ≡ false
    → find_in_dir d name (add_dir_entry d z name s).1 ≡ z
find_in_dir-add_dir_entry s d z name text fits missing h = elim (add_dir_entry-Adds s d z name) [
  | refused e ↦ absurd (cc (ap (λ r. is_minus_one r.0) e))
  | added base i at e ↦ rw e (lookup_new s d z name base i at text fits missing)
]

-- Adding a name of at most 39 bytes leaves the lookup of every other name as it was, where no byte
-- of the two names is 0.
pub find_in_dir-add_dir_entry_ne :
    (s : Fs) (d z : ℤ) (name t : CString)
    → IsText name
    → IsText t
    → length name < max_file_name
    → t ≢ name
    → find_in_dir d t (add_dir_entry d z name s).1 ≡ find_in_dir d t s
find_in_dir-add_dir_entry_ne s d z name t text text' fits ne =
    elim (add_dir_entry-Adds s d z name) [
      | refused e ↦ rw e
      | added base i at e ↦ rw e (
          lookup_same s d z name base i at t
            (entry_matches_other s.fs_data base i z name t text text' fits ne))
    ]

-- A name of 40 bytes or more, none of them 0, is not found through an entry that was added, also
-- where it was added under that very name: the lookup of it is as before.
pub find_in_dir-add_dir_entry_long :
    (s : Fs) (d z : ℤ) (name t : CString)
    → IsText t
    → max_file_name ≤ length t
    → find_in_dir d t (add_dir_entry d z name s).1 ≡ find_in_dir d t s
find_in_dir-add_dir_entry_long s d z name t text long = elim (add_dir_entry-Adds s d z name) [
  | refused e ↦ rw e
  | added base i at e ↦
      rw e (
        lookup_same s d z name base i at t (entry_matches_long s.fs_data base i z name t text long))
]
