-- ===== src/Projeto2/Invariant/Counter.antt =====
-- What the calls on the table of open files do to the number of handles in use.
use projeto_sistemas_operati.Base.{
  ℕ, suc, ◌<◌, ◌≡◌, refl, inl, inr, true, arith, ℤ, pos, is_minus_one, if◌then◌else◌, find_first,
  find_first-IsFirst, IsFirst, Option-cases, count-add_one,
}
use projeto_sistemas_operati.Projeto2.Types.{Fs, is_free, is_taken, max_open_files}
use projeto_sistemas_operati.Projeto2.Handles.{add_to_open_file_table, remove_from_open_file_table}
use projeto_sistemas_operati.Projeto2.Invariant.{open_handles}
use projeto_sistemas_operati.Projeto2.Invariant.Handles.{with_handle, without_handle}

open_handles-with_handle :
    (s : Fs) (h : ℕ) (inumber : ℤ) (offset : ℕ)
    → h < max_open_files
    → is_free (s.free_open_file_entries h) ≡ true
    → open_handles (with_handle s h inumber offset) ≡ suc (open_handles s)
open_handles-with_handle s h inumber offset lt e =
    count-add_one _ _ max_open_files h lt (ground arith) (ground arith) (λ j ne. ground arith)

open_handles-without_handle :
    (s : Fs) (h : ℕ)
    → h < max_open_files
    → is_taken (s.free_open_file_entries h) ≡ true
    → open_handles s ≡ suc (open_handles (without_handle s h))
open_handles-without_handle s h lt e =
    count-add_one _ _ max_open_files h lt (ground arith) e (λ j ne. ground arith)

-- add_to_open_file_table adds one to the number of handles in use, or returns -1 and leaves it.
pub open_handles-add :
    (inumber : ℤ) (offset : ℕ) (s : Fs)
    → let (r, s') = add_to_open_file_table inumber offset s in
      open_handles s' ≡ (if is_minus_one r then open_handles s else suc (open_handles s))
unfolding add_to_open_file_table
open_handles-add inumber offset s =
    elim (Option-cases (find_first (λ i. is_free (s.free_open_file_entries i)) max_open_files 0)) [
      | inl e ↦ rw (e, add_to_open_file_table)
      | inr (h, e) ↦
          rw (e, add_to_open_file_table)
            (let first : IsFirst _ max_open_files 0 h = find_first-IsFirst _ max_open_files 0 h e in
              open_handles-with_handle s h inumber offset (omega (arith, first.below)) first.passes)
    ]

-- remove_from_open_file_table takes one from the number of handles in use, or returns -1 and
-- leaves it.
pub open_handles-remove :
    (fhandle : ℤ) (s : Fs)
    → let (r, s') = remove_from_open_file_table fhandle s in
      open_handles s ≡ (if is_minus_one r then open_handles s' else suc (open_handles s'))
unfolding remove_from_open_file_table
open_handles-remove (pos h) s = ground (arith, open_handles-without_handle s h)
open_handles-remove fhandle s = refl
