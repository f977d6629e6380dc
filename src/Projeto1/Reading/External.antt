-- ===== src/Projeto1/Reading/External.antt =====
-- `tfs_copy_to_external_fs` from the lookup of its path on, for a file within its direct blocks.
use projeto_sistemas_operati.Projeto1.Operations.{
  tfs_close, valid_pathname, tfs_lookup, open_existing, tfs_open,
}
use projeto_sistemas_operati.Projeto1.Types.{buffer_size, Fs}
use projeto_sistemas_operati.Base.{
  update_ne, Array, ◌≢◌, find_first-IsFirst, IsFirst, find_first-none, update_back, find_first,
  update_self, Option-cases, ◌-◌, ap, ◌∙◌, refl, update, true, ◌/◌, inr, [], inl, ◌≤◌, minus_one,
  Bool-cases, arith, pos, ◌<◌, ◌≡◌, ℕ,
}
use projeto_sistemas_operati.Projeto2.Inodes.{inode_get}
use projeto_sistemas_operati.Memory.{CString}
use projeto_sistemas_operati.Projeto1.Reading.{copy_loop, tfs_copy_to_external_fs, copied, Copy}
use projeto_sistemas_operati.Projeto2.Types.{
  OpenFileEntry, is_free, free, taken, max_open_files, inode_table_size,
}
use projeto_sistemas_operati.Projeto1.Handles.{
  set_offset, remove_from_open_file_table, offset_of, add_to_open_file_table,
}
use projeto_sistemas_operati.Projeto1.Position.Direct.{Owns}
use projeto_sistemas_operati.Projeto1.Operations.Contents.{HasByte, direct_size, size_of}
use projeto_sistemas_operati.Projeto1.Reading.Copying.{copy_loop-content, closed_at, Whole, content}
use projeto_sistemas_operati.Projeto2.Blocks.Allocation.{free_of_is_free, taken_of_is_free}

open_existing-plain :
    (i : ℕ) (s : Fs)
    → i < inode_table_size
    → open_existing (pos i) 0 s ≡ add_to_open_file_table (pos i) 0 s
unfolding open_existing inode_get
open_existing-plain i s lt = ground (arith, lt)

valid_pathname-found :
    (path : CString) (i : ℕ) (s : Fs) → tfs_lookup path s ≡ pos i → valid_pathname path ≡ true
unfolding tfs_lookup
valid_pathname-found path i s e = elim (Bool-cases (valid_pathname path)) [
  | inl valid ↦ valid
  | inr bad ↦ absurd (cc (rw (bad, tfs_lookup) at e))
]

tfs_open-found :
    (path : CString) (i : ℕ) (s : Fs)
    → tfs_lookup path s ≡ pos i
    → i < inode_table_size
    → tfs_open path 0 s ≡ add_to_open_file_table (pos i) 0 s
unfolding tfs_open
tfs_open-found path i s e lt =
    rw (valid_pathname-found path i s e, e, tfs_open) (open_existing-plain i s lt)

-- Closing a handle in use changes the map of the handles alone.
tfs_close-frees :
    (g : ℕ) (s : Fs)
    → g < max_open_files
    → s.free_open_file_entries g ≡ taken
    → (tfs_close (pos g) s).1
      ≡ record s { free_open_file_entries = update s.free_open_file_entries g free }
unfolding tfs_close remove_from_open_file_table
tfs_close-frees g s below used = ground (arith, below, used)

-- The outcomes of copying the file `i` where the file outside can be opened.
pub data CopiesFile (s : Fs) (i : ℕ) (r : Copy) : Type 0 where
  no_handle :
      ((h : ℕ) → h < max_open_files → s.free_open_file_entries h ≡ taken)
      → r ≡ copied minus_one s []
      → CopiesFile s i r
  whole :
      (files : Array OpenFileEntry)
      → r ≡ copied (pos 0) (record s { open_file_table = files }) (content s i 0 (size_of s i))
      → ((h : ℕ) → s.free_open_file_entries h ≡ taken → files h ≡ s.open_file_table h)
      → CopiesFile s i r

module _ (s : Fs) (path : CString) (i fuel : ℕ) (found : tfs_lookup path s ≡ pos i)
    (lt : i < inode_table_size) (own : Owns s i) (within : size_of s i ≤ direct_size)
    (present : (k : ℕ) → k < size_of s i → HasByte s i k)
    (enough : size_of s i / buffer_size < fuel) where
  module _ (g : ℕ) (below : g < max_open_files) (unused : s.free_open_file_entries g ≡ free) where
    -- The state after the opening, with the handle `g`.
    abbrev opened : Fs
    opened = record s {
      free_open_file_entries = update s.free_open_file_entries g taken;
      open_file_table = update s.open_file_table g (record { of_inumber = pos i; of_offset = 0 });
    }

    offset-opened : offset_of opened g ≡ 0
    offset-opened = ground arith

    Whole-opened : Whole g i (pos g) opened
    Whole-opened = record {
      opened = record { is_handle = refl; below = below; file = ground arith; is_inode = lt };
      owns = record { is_block = own.is_block; apart = own.apart };
      le = omega (arith, offset-opened);
      within = within;
      present = present;
    }

    -- The table after the closing, which the handle `g` leaves with the offset `o`.
    abbrev closed_files : ℕ → Array OpenFileEntry
    closed_files o = update opened.open_file_table g (record { of_inumber = pos i; of_offset = o })

    closed_at-opened :
        (o : ℕ) → closed_at opened (pos g) g o ≡ record s { open_file_table = closed_files o }
    closed_at-opened o =
        tfs_close-frees g (set_offset opened g o) below
          (update_self s.free_open_file_entries g taken)
        ∙ ap
            (λ f. record s {
              open_file_table = (set_offset opened g o).open_file_table;
              free_open_file_entries = f;
            })
            (update_back s.free_open_file_entries g taken free unused)
        ∙ ap
            (λ (e : OpenFileEntry). record s {
              open_file_table = update opened.open_file_table g (record e { of_offset = o });
            })
            (update_self s.open_file_table g (record { of_inumber = pos i; of_offset = 0 }))

    files_same :
        (o h : ℕ) → s.free_open_file_entries h ≡ taken → closed_files o h ≡ s.open_file_table h
    files_same o h used =
        let ne : g ≢ h =
          λ e. absurd (ground (arith, unused, used, ap s.free_open_file_entries e)) in
        update_ne opened.open_file_table g h _ ne ∙ update_ne s.open_file_table g h _ ne

    copied_whole :
        copy_loop fuel (pos g) opened []
        ≡ copied (pos 0) (closed_at opened (pos g) g (size_of s i)) (content s i 0 (size_of s i))
    copied_whole =
        copy_loop-content g i (pos g) fuel opened [] Whole-opened
          (omega (arith, offset-opened, enough))
        ∙ ap
            (λ o.
              copied (pos 0) (closed_at opened (pos g) g (size_of s i))
                (content s i o (size_of s i - o)))
            offset-opened
        ∙ ap (λ n. copied (pos 0) (closed_at opened (pos g) g (size_of s i)) (content s i 0 n))
            {x = size_of s i - 0} (omega arith)

    CopiesFile-opened : CopiesFile s i (copy_loop fuel (pos g) opened [])
    CopiesFile-opened =
        whole (closed_files (size_of s i))
          (copied_whole
            ∙ ap (λ t. copied (pos 0) t (content s i 0 (size_of s i)))
                (closed_at-opened (size_of s i)))
          (files_same (size_of s i))

  pub tfs_copy_to_external_fs-CopiesFile : CopiesFile s i (tfs_copy_to_external_fs true path fuel s)
  unfolding tfs_copy_to_external_fs add_to_open_file_table
  tfs_copy_to_external_fs-CopiesFile =
      elim (Option-cases
        (find_first (λ h. is_free (s.free_open_file_entries h)) max_open_files 0)) [
          | inl e ↦
              no_handle
                (λ h below.
                  taken_of_is_free _
                    (find_first-none _ max_open_files 0 e h (omega arith) (omega (arith, below))))
                (rw (
                  tfs_open-found path i s found lt,
                  e,
                  tfs_copy_to_external_fs,
                  add_to_open_file_table,
                ))
          | inr (g, e) ↦
              (let first : IsFirst _ max_open_files 0 g =
                  find_first-IsFirst _ max_open_files 0 g e in
                rw
                  (
                    tfs_open-found path i s found lt,
                    e,
                    tfs_copy_to_external_fs,
                    add_to_open_file_table,
                  )
                  (CopiesFile-opened g (omega (arith, first.below))
                    (free_of_is_free _ first.passes)))
        ]
