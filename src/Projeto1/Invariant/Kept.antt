-- ===== src/Projeto1/Invariant/Kept.antt =====
-- What the branches of `tfs_open` leave of the directory and of the map of the i-nodes.
use projeto_sistemas_operati.Projeto1.Operations.{truncate, open_existing, open_new}
use projeto_sistemas_operati.Projeto1.Types.{Fs}
use projeto_sistemas_operati.Projeto1.Invariant.{Inv}
use projeto_sistemas_operati.Projeto1.Invariant.Creating.{Inv-with_file}
use projeto_sistemas_operati.Projeto1.Invariant.Freeing.{truncate-Freed, Freed}
use projeto_sistemas_operati.Projeto1.Invariant.Opening.{
  add_dir_entry-root, inode_delete-new, inode_get-Names,
}
use projeto_sistemas_operati.Projeto1.Handles.{add_to_open_file_table}
use projeto_sistemas_operati.Projeto1.Inodes.Creation.{
  created, no_free_inode, inode_create-CreatesInode,
}
use projeto_sistemas_operati.Projeto1.Operations.Creating.{with_file}
use projeto_sistemas_operati.Projeto2.Inodes.{inode_get}
use projeto_sistemas_operati.Projeto2.Invariant.{Names}
use projeto_sistemas_operati.Projeto2.Types.{
  has_flag, index, is_free, max_open_files, taken, free, tfs_o_trunc,
}
use projeto_sistemas_operati.Base.{
  ◌≡◌, ◌≢◌, ◌∙◌, sym, ap, refl, arith, ℕ, ℤ, pos, some, inl, inr, Bool-cases, Option-cases, drop,
  find_first, is_minus_one, update_ne, update_self,
}
use projeto_sistemas_operati.Memory.{CString}

-- A handle changes neither.
add_to_open_file_table-Same :
    (inum : ℤ) (offset : ℕ) (s : Fs)
    → ((add_to_open_file_table inum offset s).1.fs_data ≡ s.fs_data)
      × ((add_to_open_file_table inum offset s).1.freeinode_ts ≡ s.freeinode_ts)
unfolding add_to_open_file_table
add_to_open_file_table-Same inum offset s =
    elim (Option-cases (find_first (λ h. is_free (s.free_open_file_entries h)) max_open_files 0)) [
      | inl e ↦ rw (e, add_to_open_file_table) (refl, refl)
      | inr (h, e) ↦ rw (e, add_to_open_file_table) (refl, refl)
    ]

-- Nor does opening a file that was found.
pub open_existing-Same :
    (s : Fs) (inum : ℤ) (flags : ℕ)
    → Inv s
    → Names s.freeinode_ts inum
    → ((open_existing inum flags s).1.fs_data ≡ s.fs_data)
      × ((open_existing inum flags s).1.freeinode_ts ≡ s.freeinode_ts)
unfolding open_existing
open_existing-Same s inum flags v n =
    let i : ℕ = index inum in
    let got : inode_get inum ≡ some i = inode_get-Names s inum n in
    let (type, direct) = v.files i n.not_root n.below n.in_use in
    let f : Freed s i (truncate i s).1 = truncate-Freed i direct type in
    elim (Bool-cases (has_flag flags tfs_o_trunc)) [
      | inr keep ↦ rw (got, keep, open_existing) (add_to_open_file_table-Same inum _ s)
      | inl trunc ↦ elim (Bool-cases (is_minus_one (truncate i s).0)) [
        | inl bad ↦ rw (got, trunc, bad, open_existing) (f.bytes_same, f.map_same)
        | inr ok ↦
            (let (bytes, map) = add_to_open_file_table-Same inum _ (truncate i s).1 in
              rw (got, trunc, ok, open_existing) (bytes ∙ f.bytes_same, map ∙ f.map_same))
      ]
    ]

-- The i-nodes in use stay in use where a file is created.
pub open_new-KeepsUsed :
    (s : Fs) (name : CString) (k : ℕ)
    → Inv s
    → s.freeinode_ts k ≡ taken
    → (open_new name s).1.freeinode_ts k ≡ taken
unfolding open_new
open_new-KeepsUsed s name k v used = elim (inode_create-CreatesInode s) [
  | no_free_inode e all ↦ rw (e, open_new) used
  | created i lt unused least e ↦
      (let t : Fs = with_file s i lt unused v.apart in
        let ne : i ≢ k = λ q. absurd (cc (sym used ∙ ap s.freeinode_ts (sym q) ∙ unused)) in
        let kept : t.freeinode_ts k ≡ taken = update_ne s.freeinode_ts i k taken ne ∙ used in
        elim (add_dir_entry-root t (Inv-with_file s i lt unused v) (pos i) (drop 1 name)) [
          | inl refused ↦
              rw (e, refused, open_new)
                (ap (λ (u : Fs). u.freeinode_ts k)
                    (inode_delete-new t i lt (update_self s.freeinode_ts i taken) (ground arith)
                      (ground arith))
                  ∙ update_ne t.freeinode_ts i k free ne
                  ∙ kept)
          | inr (j, e', valid, added) ↦
              rw (e, added, open_new)
                (ap (λ f. f k) (add_to_open_file_table-Same (pos i) 0 _).1 ∙ kept)
        ])
]
