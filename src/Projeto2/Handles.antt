-- ===== src/Projeto2/Handles.antt =====
-- fs/state.c: the table of open files.
use projeto_sistemas_operati.Base.{
  ℕ, not, ◌||◌, Option, none, some, update, if◌then◌else◌, find_first, ℤ, pos, minus_one,
}
use projeto_sistemas_operati.Projeto2.Types.{
  Fs, free, taken, is_free, is_taken, max_open_files, index, valid_file_handle,
}

unfoldable pub add_to_open_file_table : ℤ → ℕ → Fs → ℤ × Fs
add_to_open_file_table inumber offset s =
    elim (find_first (λ i. is_free (s.free_open_file_entries i)) max_open_files 0) [
      | none ↦ (minus_one, s)
      | some i ↦ (
        pos i,
        record s {
          free_open_file_entries = update s.free_open_file_entries i taken;
          open_file_table =
              update s.open_file_table i (record { of_inumber = inumber; of_offset = offset });
        },
      )
    ]

unfoldable pub remove_from_open_file_table : ℤ → Fs → ℤ × Fs
remove_from_open_file_table fhandle s =
    if not (valid_file_handle fhandle) || not (is_taken (s.free_open_file_entries (index fhandle)))
    then (minus_one, s)
    else (
      pos 0,
      record s { free_open_file_entries = update s.free_open_file_entries (index fhandle) free },
    )

-- The index of the entry; `none` is NULL.
unfoldable pub get_open_file_entry : ℤ → Option ℕ
get_open_file_entry fhandle = if valid_file_handle fhandle then some (index fhandle) else none
