-- ===== src/Projeto2/Directory/Entries.antt =====
-- The bytes of directory entries: what filling one changes.
use projeto_sistemas_operati.Base.{
  ℕ, ◌+◌, ◌-◌, ◌≤◌, ◌<◌, ◌≡◌, ◌≢◌, ◌∙◌, ap, ◌⊎◌, arith, ℤ, IsInt, length, is_minus_one,
}
use projeto_sistemas_operati.Memory.{
  Mem, CString, Holds, Holds-bytes, char_at_end, store_int, load_int, load_int-store_int,
  store_int_outside, load_int-ext, strncpy_outside, strncpy_inside, strncmp_eq-ext,
}
use projeto_sistemas_operati.Projeto2.Types.{
  sizeof_dir_entry, max_file_name, d_name_at, d_inumber_at,
}
use projeto_sistemas_operati.Projeto2.Directory.{entry_is_empty, entry_matches, fill_entry}

-- Two memories agree on the bytes of the entry `k`.
abbrev pub SameEntry : Mem → Mem → ℕ → ℕ → Type 0
SameEntry m m' base k =
    (j : ℕ) → d_name_at base k ≤ j → j < d_name_at base k + sizeof_dir_entry → m j ≡ m' j

module _ {m m' : Mem} (base k : ℕ) (h : SameEntry m m' base k) where
  pub d_inumber-SameEntry : load_int m (d_inumber_at base k) ≡ load_int m' (d_inumber_at base k)
  d_inumber-SameEntry =
      load_int-ext m m' (d_inumber_at base k) (λ j lo hi. h j (omega arith) (omega arith))

  pub entry_is_empty-SameEntry : entry_is_empty m base k ≡ entry_is_empty m' base k
  unfolding entry_is_empty
  entry_is_empty-SameEntry = ap is_minus_one d_inumber-SameEntry

  pub entry_matches-SameEntry :
      (name : CString) → entry_matches m base name k ≡ entry_matches m' base name k
  unfolding entry_matches
  entry_matches-SameEntry name = rw (
    entry_is_empty-SameEntry,
    strncmp_eq-ext max_file_name m m' (d_name_at base k) name (λ j lo hi. h j lo (omega arith)),
  )

module _ (m : Mem) (base i : ℕ) (z : ℤ) (name : CString) where
  -- Filling an entry leaves every byte outside it alone.
  pub fill_entry_outside :
      (j : ℕ)
      → (j < d_name_at base i) ⊎ (d_name_at base i + sizeof_dir_entry ≤ j)
      → fill_entry m base i z name j ≡ m j
  unfolding fill_entry
  fill_entry_outside j h = ground (
    arith,
    strncpy_outside (store_int m (d_inumber_at base i) z) (d_name_at base i) name
        (max_file_name - 1) j,
    store_int_outside m (d_inumber_at base i) z j,
  )

  pub fill_entry-SameEntry : (k : ℕ) → i ≢ k → SameEntry (fill_entry m base i z name) m base k
  fill_entry-SameEntry k ne j lo hi = fill_entry_outside j (omega arith)

  pub d_inumber-fill_entry :
      IsInt z → load_int (fill_entry m base i z name) (d_inumber_at base i) ≡ z
  unfolding fill_entry
  d_inumber-fill_entry h =
      load_int-ext _ (store_int m (d_inumber_at base i) z) (d_inumber_at base i) (λ j lo hi.
        ground (
          arith,
          strncpy_outside (store_int m (d_inumber_at base i) z) (d_name_at base i) name
              (max_file_name - 1) j,
        ))
      ∙ load_int-store_int m (d_inumber_at base i) z h

  pub fill_entry-Holds :
      length name < max_file_name → Holds (fill_entry m base i z name) (d_name_at base i) name
  unfolding fill_entry
  fill_entry-Holds lt = Holds-bytes _ _ name (λ k le. ground (
    arith,
    char_at_end name k,
    strncpy_inside (store_int m (d_inumber_at base i) z) (d_name_at base i) name (max_file_name - 1)
        k,
  ))

  pub fill_entry_end : fill_entry m base i z name (d_name_at base i + (max_file_name - 1)) ≡ 0
  unfolding fill_entry
  fill_entry_end = ground arith
