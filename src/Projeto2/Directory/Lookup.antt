-- ===== src/Projeto2/Directory/Lookup.antt =====
-- What `find_in_dir` finds after `add_dir_entry`.
use projeto_sistemas_operati.Base.{
  ℕ, ◌-◌, ◌≤◌, ◌<◌, ◌≡◌, ◌≢◌, ◌∙◌, sym, ap, inl, inr, true, false, none, some, arith, ℤ, minus_one,
  is_minus_one, length, IsInt, find_first, find_first-IsFirst, find_first-ext, find_first-none,
  find_first_of_least, IsFirst, Option-cases, Bool-cases, ℕ_discrete,
}
use projeto_sistemas_operati.Memory.{
  CString, Mem, IsText, strncmp_eq, strncmp_eq-Holds, strncmp_eq_cut, eq_of_strncmp_eq,
}
use projeto_sistemas_operati.Projeto2.Types.{max_dir_entries, max_file_name, d_name_at}
use projeto_sistemas_operati.Projeto2.Directory.{
  entry_is_empty, entry_matches, fill_entry, find_in_block,
}
use projeto_sistemas_operati.Projeto2.Directory.Entries.{
  SameEntry, fill_entry-SameEntry, d_inumber-fill_entry, d_inumber-SameEntry,
  entry_matches-SameEntry, fill_entry-Holds, fill_entry_end,
}
use projeto_sistemas_operati.Projeto2.Directory.Outcomes.{find_in_block-missing}

module _ (m : Mem) (base i : ℕ) (z : ℤ) (name : CString) where
  abbrev pub filled : Mem
  filled = fill_entry m base i z name

  -- The new entry has its name and number.
  entry_matches-fill_entry :
      IsInt z
      → is_minus_one z ≡ false
      → length name < max_file_name
      → entry_matches filled base name i ≡ true
  unfolding entry_matches entry_is_empty
  entry_matches-fill_entry int used fits = ground (
    arith,
    d_inumber-fill_entry m base i z name int,
    strncmp_eq-Holds max_file_name filled (d_name_at base i) name
        (fill_entry-Holds m base i z name fits),
  )

  -- It matches no other name.
  pub entry_matches_other :
      (t : CString)
      → IsText name
      → IsText t
      → length name < max_file_name
      → t ≢ name
      → entry_matches filled base t i ≡ false
  unfolding entry_matches
  entry_matches_other t text text' fits ne =
      elim (Bool-cases (strncmp_eq max_file_name filled (d_name_at base i) t)) [
        | inl e ↦ absurd (
            ne (
              sym (
                eq_of_strncmp_eq max_file_name filled (d_name_at base i) name t text text' fits
                  (fill_entry-Holds m base i z name fits) e)))
        | inr e ↦ ground (arith, e)
      ]

  -- A name of 40 bytes or more matches no new entry, not even its own.
  pub entry_matches_long :
      (t : CString) → IsText t → max_file_name ≤ length t → entry_matches filled base t i ≡ false
  unfolding entry_matches
  entry_matches_long t text long = ground (
    arith,
    strncmp_eq_cut (max_file_name - 1) max_file_name filled (d_name_at base i) t text
        (fill_entry_end m base i z name),
  )

  module _ (empty : entry_is_empty m base i ≡ true) where
    entry_matches_empty : (t : CString) → entry_matches m base t i ≡ false
    unfolding entry_matches
    entry_matches_empty t = ground (arith, empty)

    entry_matches_agree :
        (t : CString)
        → entry_matches filled base t i ≡ false
        → (k : ℕ) → entry_matches filled base t k ≡ entry_matches m base t k
    entry_matches_agree t miss k = elim (ℕ_discrete i k) [
      | yes same ↦
          ap (entry_matches filled base t) (sym same)
          ∙ miss
          ∙ sym (entry_matches_empty t)
          ∙ ap (entry_matches m base t) same
      | no other ↦ entry_matches-SameEntry base k (fill_entry-SameEntry m base i z name k other) t
    ]

    -- A name that the new entry does not match is found where it was before.
    pub find_in_block_other :
        (t : CString)
        → entry_matches filled base t i ≡ false
        → find_in_block filled base t ≡ find_in_block m base t
    unfolding find_in_block
    find_in_block_other t miss =
        let agree : find_first (entry_matches filled base t) max_dir_entries 0
            ≡ find_first (entry_matches m base t) max_dir_entries 0 =
          find_first-ext _ _ max_dir_entries 0 (λ k lo hi. entry_matches_agree t miss k) in
        elim (Option-cases (find_first (entry_matches m base t) max_dir_entries 0)) [
          | inl e ↦ ground (arith, agree, e)
          | inr (k, e) ↦
              (let first : IsFirst (entry_matches m base t) max_dir_entries 0 k =
                  find_first-IsFirst _ max_dir_entries 0 k e in
                let ne : i ≢ k = λ same.
                  cc (entry_matches_empty t, ap (entry_matches m base t) same, first.passes) in
                ground (
                  arith,
                  agree,
                  e,
                  d_inumber-SameEntry base k (fill_entry-SameEntry m base i z name k ne),
                ))
        ]

    -- A name that was missing is found at the new entry.
    pub find_in_block_new :
        IsInt z
        → is_minus_one z ≡ false
        → length name < max_file_name
        → i < max_dir_entries
        → find_in_block m base name ≡ minus_one
        → find_in_block filled base name ≡ z
    unfolding find_in_block
    find_in_block_new int used fits lt missing =
        let absent : find_first (entry_matches m base name) max_dir_entries 0 ≡ none =
          find_in_block-missing m base name missing in
        let found : find_first (entry_matches filled base name) max_dir_entries 0 ≡ some i =
          find_first_of_least _ max_dir_entries 0 i (omega arith) (omega arith)
            (entry_matches-fill_entry int used fits)
            (λ j lo hi.
              entry_matches-SameEntry base j (fill_entry-SameEntry m base i z name j (omega arith))
                name
              ∙ find_first-none _ max_dir_entries 0 absent j lo (omega arith)) in
        ground (arith, found, d_inumber-fill_entry m base i z name int)

-- A search reads the entries of the block and nothing else.
pub find_in_block-SameEntry :
    (m m' : Mem) (base : ℕ) (t : CString)
    → ((k : ℕ) → k < max_dir_entries → SameEntry m m' base k)
    → find_in_block m base t ≡ find_in_block m' base t
unfolding find_in_block
find_in_block-SameEntry m m' base t h =
    let agree : find_first (entry_matches m base t) max_dir_entries 0
        ≡ find_first (entry_matches m' base t) max_dir_entries 0 =
      find_first-ext _ _ max_dir_entries 0
        (λ k lo hi. entry_matches-SameEntry base k (h k (omega arith)) t) in
    elim (Option-cases (find_first (entry_matches m' base t) max_dir_entries 0)) [
      | inl e ↦ ground (arith, agree, e)
      | inr (k, e) ↦
          (let first : IsFirst (entry_matches m' base t) max_dir_entries 0 k =
              find_first-IsFirst _ max_dir_entries 0 k e in
            ground (arith, agree, e, d_inumber-SameEntry base k (h k (omega (arith, first.below)))))
    ]
