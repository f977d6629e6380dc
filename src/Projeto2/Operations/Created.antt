-- ===== src/Projeto2/Operations/Created.antt =====
-- A file that `tfs_open` creates is found afterwards.
use projeto_sistemas_operati.Projeto2.Types.{
  Inode, tfs_o_creat, has_flag, max_file_name, max_open_files, root_dir_inum, is_free, free, Fs,
}
use projeto_sistemas_operati.Projeto2.Handles.{add_to_open_file_table}
use projeto_sistemas_operati.Projeto2.Operations.{
  open_new, open_unsynchronized, valid_pathname, lookup_unsynchronized,
}
use projeto_sistemas_operati.Memory.{IsText, CString}
use projeto_sistemas_operati.Base.{
  update_self, refl, ap, ◌∙◌, false, sym, is_minus_one, ◌<◌, inr, length, inl, minus_one, arith,
  drop, pos, find_first, true, Option-cases, ◌≡◌, ℕ, ℤ,
}
use projeto_sistemas_operati.Projeto2.Directory.{add_dir_entry, find_in_dir}
use projeto_sistemas_operati.Projeto2.Invariant.{Inv}
use projeto_sistemas_operati.Projeto2.Inodes.Creation.{empty_file, with_file}
use projeto_sistemas_operati.Projeto2.Directory.Outcomes.{added, refused, add_dir_entry-Adds}
use projeto_sistemas_operati.Projeto2.Invariant.Open.{lookup-SameEntry}
use projeto_sistemas_operati.Projeto2.Operations.Opening.{
  made, no_entry, no_inode, open_new-OpensNew,
}
use projeto_sistemas_operati.Projeto2.Invariant.Inodes.{create-Inv}
use projeto_sistemas_operati.Projeto2.Directory.RoundTrip.{find_in_dir-add_dir_entry}

find_in_dir-add_to_open_file_table :
    (d z : ℤ) (offset : ℕ) (t : CString) (s : Fs)
    → find_in_dir d t (add_to_open_file_table z offset s).1 ≡ find_in_dir d t s
unfolding add_to_open_file_table find_in_dir
find_in_dir-add_to_open_file_table d z offset t s =
    elim (Option-cases (find_first (λ i. is_free (s.free_open_file_entries i)) max_open_files 0)) [
      | inl e ↦ ground (arith, e)
      | inr (h, e) ↦ ground (arith, e)
    ]

lookup_valid :
    (name : CString) (s : Fs)
    → valid_pathname name ≡ true
    → lookup_unsynchronized name s ≡ find_in_dir (pos root_dir_inum) (drop 1 name) s
unfolding lookup_unsynchronized
lookup_valid name s valid = ground arith

size-add_to_open_file_table :
    (z : ℤ) (offset : ℕ) (s : Fs)
    → (add_to_open_file_table z offset s).1.inode_table ≡ s.inode_table
unfolding add_to_open_file_table
size-add_to_open_file_table z offset s =
    elim (Option-cases (find_first (λ i. is_free (s.free_open_file_entries i)) max_open_files 0)) [
      | inl e ↦ rw (e, add_to_open_file_table)
      | inr (h, e) ↦ rw (e, add_to_open_file_table)
    ]

-- A new file: its i-node was free, its size is 0, and a lookup of the path finds it.
pub record IsNewFile (s : Fs) (name : CString) (i : ℕ) (t : Fs) : Type 0 where
  pub was_free : s.freeinode_ts i ≡ free
  pub empty : (t.inode_table i).i_size ≡ 0
  pub found : lookup_unsynchronized name t ≡ pos i

module _ (s : Fs) (name : CString) (v : Inv s) (valid : valid_pathname name ≡ true)
    (text : IsText (drop 1 name)) (missing : lookup_unsynchronized name s ≡ minus_one)
    (fits : length (drop 1 name) < max_file_name) where
  missing-with_file :
      (i : ℕ)
      → s.freeinode_ts i ≡ free
      → find_in_dir (pos root_dir_inum) (drop 1 name) (with_file s i) ≡ minus_one
  missing-with_file i f =
      sym (lookup_valid name (with_file s i) valid)
      ∙ lookup-SameEntry name v (create-Inv v i empty_file f refl) (λ k lt j lo hi. refl)
      ∙ missing

  inode_table-add_dir_entry :
      (z : ℤ) (t : Fs) (n : CString)
      → (add_dir_entry (pos root_dir_inum) z n t).1.inode_table ≡ t.inode_table
  inode_table-add_dir_entry z t n = elim (add_dir_entry-Adds t (pos root_dir_inum) z n) [
    | refused e ↦ rw e
    | added base k at e ↦ rw e
  ]

  open_new-IsNewFile :
      is_minus_one (open_new name s).0 ≡ false → (i : ℕ) × IsNewFile s name i (open_new name s).1
  open_new-IsNewFile done = elim (open_new-OpensNew s name) [
    | no_inode e ↦ absurd (cc (ap (λ r. is_minus_one r.0) e))
    | no_entry i f e ↦ absurd (cc (ap (λ r. is_minus_one r.0) e))
    | made i lt f ok e ↦ (
      i,
      rw e (record {
        was_free = f;
        empty =
            ap (λ t. (t i).i_size)
              (size-add_to_open_file_table (pos i) 0 _
                ∙ inode_table-add_dir_entry (pos i) (with_file s i) (drop 1 name))
            ∙ ap (λ (n : Inode). n.i_size) (update_self s.inode_table i empty_file);
        found =
            lookup_valid name _ valid
            ∙ find_in_dir-add_to_open_file_table (pos root_dir_inum) (pos i) 0 (drop 1 name) _
            ∙ find_in_dir-add_dir_entry (with_file s i) (pos root_dir_inum) (pos i) (drop 1 name)
                text fits (missing-with_file i f) ok;
      }),
    )
  ]

  -- In well-formed tables, opening a path that is missing, with O_CREAT, where the path is valid,
  -- its name has at most 39 bytes, none of them 0, and the opening succeeds, creates a file: its
  -- i-node was free, its size is 0, and a lookup of the path finds it.
  pub open_unsynchronized-IsNewFile :
      (flags : ℕ)
      → has_flag flags tfs_o_creat ≡ true
      → is_minus_one (open_unsynchronized name flags s).0 ≡ false
      → (i : ℕ) × IsNewFile s name i (open_unsynchronized name flags s).1
  unfolding open_unsynchronized
  open_unsynchronized-IsNewFile flags creat done =
      let creates : open_unsynchronized name flags s ≡ open_new name s = ground arith in
      rw creates (open_new-IsNewFile (ap (λ r. is_minus_one r.0) (sym creates) ∙ done))
