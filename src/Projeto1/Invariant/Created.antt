-- ===== src/Projeto1/Invariant/Created.antt =====
-- What the part of `tfs_open` that creates a file comes to, once and twice.
use projeto_sistemas_operati.Projeto1.Operations.{tfs_lookup, valid_pathname, open_new}
use projeto_sistemas_operati.Projeto1.Types.{Fs}
use projeto_sistemas_operati.Projeto1.Invariant.{Inv}
use projeto_sistemas_operati.Memory.{IsText, CString}
use projeto_sistemas_operati.Base.{
  IsFirst, refl, update_ne, find_first-IsFirst, arith, ap, ◌∙◌, sym, inr, Option-cases, inl,
  minus_one, some, ◌≢◌, length, find_first, drop, pos, false, true, ◌≡◌, ◌<◌, ℤ, ℕ, is_minus_one,
}
use projeto_sistemas_operati.Projeto2.Types.{
  OpenFileEntry, max_open_files, is_free, valid_inumber, max_file_name, max_dir_entries, taken,
  free, inode_table_size,
}
use projeto_sistemas_operati.Projeto1.Inodes.Creation.{
  created, no_free_inode, inode_create-CreatesInode,
}
use projeto_sistemas_operati.Projeto1.Operations.Separate.{IsFile}
use projeto_sistemas_operati.Projeto2.Directory.{find_in_block, fill_entry, entry_is_empty}
use projeto_sistemas_operati.Projeto1.Invariant.Opening.{
  tfs_lookup_lem, open_new-Inv, add_dir_entry-root,
}
use projeto_sistemas_operati.Projeto1.Operations.Creating.{with_file}
use projeto_sistemas_operati.Projeto1.Invariant.Creating.{Inv-with_file}
use projeto_sistemas_operati.Projeto1.Handles.{add_to_open_file_table}
use projeto_sistemas_operati.Projeto2.Blocks.Allocation.{free_of_is_free}
use projeto_sistemas_operati.Projeto2.Directory.Outcomes.{IsInt-valid_inumber}
use projeto_sistemas_operati.Projeto2.Directory.Lookup.{find_in_block_new}

-- An opening has made the file `file`, whose i-node was free, added an entry for it, and opened it as
-- `handle`.
pub record Creates (s : Fs) (name : CString) (r : ℤ × Fs) : Type 0 where
  pub file : ℕ
  pub entry : ℕ
  pub handle : ℕ
  pub returned : r.0 ≡ pos handle
  pub below : file < inode_table_size
  pub was_free : s.freeinode_ts file ≡ free
  pub is_file : IsFile r.1 file
  pub others_used : (k : ℕ) → s.freeinode_ts k ≡ taken → r.1.freeinode_ts k ≡ taken
  pub types_same :
      (k : ℕ) → file ≢ k → (r.1.inode_table k).i_node_type ≡ (s.inode_table k).i_node_type
  pub first_empty : find_first (entry_is_empty s.fs_data 0) max_dir_entries 0 ≡ some entry
  pub is_valid : valid_inumber (pos file) ≡ true
  pub entered : r.1.fs_data ≡ fill_entry s.fs_data 0 entry (pos file) (drop 1 name)
  pub handle_free : s.free_open_file_entries handle ≡ free
  pub handle_used : r.1.free_open_file_entries handle ≡ taken
  pub of_file : (r.1.open_file_table handle).of_inumber ≡ pos file
  pub handles_same : (h : ℕ) → handle ≢ h → r.1.open_file_table h ≡ s.open_file_table h

-- A handle is found for the new file, or the opening fails.
module _ (s : Fs) (v : Inv s) (name : CString) (i k : ℕ) (lt : i < inode_table_size)
    (unused : s.freeinode_ts i ≡ free)
    (e : find_first (entry_is_empty s.fs_data 0) max_dir_entries 0 ≡ some k)
    (valid : valid_inumber (pos i) ≡ true) where
  abbrev made : Fs
  made = with_file s i lt unused v.apart

  abbrev entered_in : Fs
  entered_in = record made { fs_data = fill_entry made.fs_data 0 k (pos i) (drop 1 name) }

  handle-Creates :
      is_minus_one (add_to_open_file_table (pos i) 0 entered_in).0 ≡ false
      → Creates s name (add_to_open_file_table (pos i) 0 entered_in)
  unfolding add_to_open_file_table
  handle-Creates ok =
      elim (Option-cases
        (find_first (λ h. is_free (s.free_open_file_entries h)) max_open_files 0)) [
          | inl none_left ↦ absurd (ground (arith, none_left, ok))
          | inr (h, found) ↦
              rw (found, add_to_open_file_table)
                (record {
                  file = i;
                  entry = k;
                  handle = h;
                  returned = refl;
                  below = lt;
                  was_free = unused;
                  is_file = (ground arith, ground arith);
                  others_used = λ j used. ground (arith, used);
                  types_same = λ j ne. ground (arith, ne);
                  first_empty = e;
                  is_valid = valid;
                  entered = refl;
                  handle_free =
                      free_of_is_free _ (find_first-IsFirst _ max_open_files 0 h found).passes;
                  handle_used = ground arith;
                  of_file = ground arith;
                  handles_same = λ g ne. update_ne s.open_file_table h g _ ne;
                })
        ]

open_new-Creates :
    (s : Fs) (name : CString)
    → Inv s
    → is_minus_one (open_new name s).0 ≡ false
    → Creates s name (open_new name s)
unfolding open_new
open_new-Creates s name v ok = elim (inode_create-CreatesInode s) [
  | no_free_inode e all ↦ absurd (cc (rw (e, open_new) at ok))
  | created i lt unused least e ↦
      elim (add_dir_entry-root (with_file s i lt unused v.apart) (Inv-with_file s i lt unused v)
        (pos i) (drop 1 name)) [
          | inl refused ↦ absurd (cc (rw (e, refused, open_new) at ok))
          | inr (k, e', valid, added) ↦
              rw (e, added, open_new)
                (handle-Creates s v name i k lt unused e' valid (rw (e, added, open_new) at ok))
        ]
]

-- Project 1: where a lookup does not find a path, the creation of it, done twice, makes two files if
-- both succeed, although a lookup between them finds the first: the path is valid, its name has at
-- most 39 bytes, none of them 0, and the tables are well formed. The two handles are of different
-- files in use.
pub open_new-twice :
    (s : Fs) (name : CString)
    → Inv s
    → valid_pathname name ≡ true
    → IsText (drop 1 name)
    → length (drop 1 name) < max_file_name
    → tfs_lookup name s ≡ minus_one
    → is_minus_one (open_new name s).0 ≡ false
    → is_minus_one (open_new name (open_new name s).1).0 ≡ false
    → let t = (open_new name s).1 in
      let u = (open_new name t).1 in
      (i k h g : ℕ) × (tfs_lookup name t ≡ pos i)
      × (i ≢ k)
      × IsFile u i
      × IsFile u k
      × ((open_new name s).0 ≡ pos h)
      × ((open_new name t).0 ≡ pos g)
      × ((u.open_file_table h).of_inumber ≡ pos i)
      × ((u.open_file_table g).of_inumber ≡ pos k)
open_new-twice s name v valid text fits missing ok ok' =
    let t : Fs = (open_new name s).1 in
    let w : Inv t = open_new-Inv s name v in
    let first : Creates s name (open_new name s) = open_new-Creates s name v ok in
    let second : Creates t name (open_new name t) = open_new-Creates t name w ok' in
    let other : first.file ≢ second.file =
      λ e. absurd (cc (sym first.is_file.0 ∙ ap t.freeinode_ts e ∙ second.was_free)) in
    let other_handle : second.handle ≢ first.handle = λ e.
      absurd
        (cc (sym first.handle_used ∙ ap t.free_open_file_entries (sym e) ∙ second.handle_free)) in
    let empties : IsFirst (entry_is_empty s.fs_data 0) max_dir_entries 0 first.entry =
      find_first-IsFirst _ max_dir_entries 0 first.entry first.first_empty in
    let (int, used) = IsInt-valid_inumber (pos first.file) first.is_valid in
    (
      first.file,
      second.file,
      first.handle,
      second.handle,
      tfs_lookup_lem t w name valid
          ∙ ap (λ m. find_in_block m 0 (drop 1 name)) first.entered
          ∙ find_in_block_new s.fs_data 0 first.entry (pos first.file) (drop 1 name) empties.passes
              int used fits (omega (arith, empties.below))
              (sym (tfs_lookup_lem s v name valid) ∙ missing),
      other,
      (
        second.others_used first.file first.is_file.0,
        second.types_same first.file (λ e. other (sym e)) ∙ first.is_file.1,
      ),
      second.is_file,
      first.returned,
      second.returned,
      ap (λ (f : OpenFileEntry). f.of_inumber) (second.handles_same first.handle other_handle)
          ∙ first.of_file,
      second.of_file,
    )
