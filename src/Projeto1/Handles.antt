-- ===== src/Projeto1/Handles.antt =====
-- fs/state.c: the table of open files.
use projeto_sistemas_operati.Base.{
  some, none, pos, minus_one, ◌||◌, not, update, find_first, if◌then◌else◌, ℕ, ℤ,
}
use projeto_sistemas_operati.Projeto1.Types.{Fs}
use projeto_sistemas_operati.Projeto2.Types.{
  taken, free, index, is_taken, max_open_files, valid_file_handle, is_free,
}

unfoldable pub add_to_open_file_table : ℤ → ℕ → Fs → ℤ × Fs
add_to_open_file_table inumber offset s =
    elim (find_first (λ i. is_free (s.free_open_file_entries i)) max_open_files 0) [
      | none ↦ (minus_one, s)
      | some i ↦ (
        pos i,
        record s {
          free_open_file_entries = update s.free_open_file_entries i taken;
          open_file_table =
              update s.open_file_table i (record { of_inumber = inumber; of_offset = offset });
        },
      )
    ]

unfoldable pub remove_from_open_file_table : ℤ → Fs → ℤ × Fs
remove_from_open_file_table fhandle s =
    if not (valid_file_handle fhandle) || not (is_taken (s.free_open_file_entries (index fhandle)))
    then (minus_one, s)
    else (
      pos 0,
      record s { free_open_file_entries = update s.free_open_file_entries (index fhandle) free },
    )

abbrev pub offset_of : Fs → ℕ → ℕ
offset_of s h = (s.open_file_table h).of_offset

-- `file->of_offset = o` for the entry `h`.
abbrev pub set_offset : Fs → ℕ → ℕ → Fs
set_offset s h o = record s {
  open_file_table = update s.open_file_table h (record (s.open_file_table h) { of_offset = o });
}
