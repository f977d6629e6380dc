-- ===== src/Projeto1/Invariant/Opening.antt =====
-- `tfs_open` keeps the tables well formed, on every path through it.
use projeto_sistemas_operati.Projeto1.Operations.{
  truncate, valid_pathname, tfs_lookup, tfs_open, open_existing, open_new,
}
use projeto_sistemas_operati.Projeto1.Inodes.{inode_delete}
use projeto_sistemas_operati.Projeto1.Types.{set_freeinode, block_number, Fs}
use projeto_sistemas_operati.Projeto2.Inodes.{inode_get}
use projeto_sistemas_operati.Projeto1.Invariant.{Inv}
use projeto_sistemas_operati.Base.{
  is_minus_one, subst, update_self, ◌∙◌, sym, find_first, Option-cases, ◌==◌, drop, length, suc,
  ◌⊎◌, ap, refl, arith, inl, is_nonneg, some, minus_one, true, inr, pos, ◌≡◌, ℤ, ◌<◌, Bool-cases, ℕ,
}
use projeto_sistemas_operati.Memory.{CString}
use projeto_sistemas_operati.Projeto2.Blocks.{data_block_get}
use projeto_sistemas_operati.Projeto1.Inodes.Creation.{
  created, no_free_inode, inode_create-CreatesInode,
}
use projeto_sistemas_operati.Projeto2.Types.{
  tfs_o_trunc, index, max_dir_entries, free, tfs_o_creat, has_flag, t_file, taken, root_dir_inum,
  inode_table_size, is_directory, valid_inumber,
}
use projeto_sistemas_operati.Projeto1.Directory.{add_to_block, find_in_dir, add_dir_entry}
use projeto_sistemas_operati.Projeto2.Invariant.{Names}
use projeto_sistemas_operati.Projeto1.Invariant.Creating.{
  add_to_open_file_table-Inv, Inv-unmade, not_root_of_free, Inv-with_file, Inv-handles,
}
use projeto_sistemas_operati.Projeto2.Directory.{entry_is_empty, find_in_block, fill_entry}
use projeto_sistemas_operati.Projeto1.Operations.Separate.{Separate-tables}
use projeto_sistemas_operati.Projeto2.Invariant.Open.{EntriesValid-fill}
use projeto_sistemas_operati.Projeto1.Operations.Creating.{with_file}
use projeto_sistemas_operati.Projeto2.Directory.Outcomes.{find_in_block-cases, IsInt-valid_inumber}
use projeto_sistemas_operati.Projeto1.Invariant.Truncating.{truncate-Inv}

module _ (s : Fs) (v : Inv s) where
  root_valid : valid_inumber (pos root_dir_inum) ≡ true
  root_valid = refl

  root_block_got : data_block_get (block_number s root_dir_inum 0) ≡ some 0
  unfolding data_block_get
  root_block_got = ground (arith, v.root_number)

  root_is_directory : is_directory (s.inode_table root_dir_inum).i_node_type ≡ true
  root_is_directory = ap is_directory v.apart.root_type

  -- Adding to the root directory is refused, or an entry of block 0 is filled.
  pub add_dir_entry-root :
      (z : ℤ) (name : CString)
      → (add_dir_entry (pos root_dir_inum) z name s ≡ (minus_one, s))
        ⊎ ((k : ℕ) × (find_first (entry_is_empty s.fs_data 0) max_dir_entries 0 ≡ some k)
            × (valid_inumber z ≡ true)
            × (add_dir_entry (pos root_dir_inum) z name s
                ≡ (pos 0, record s { fs_data = fill_entry s.fs_data 0 k z name })))
  unfolding add_dir_entry add_to_block
  add_dir_entry-root z name = elim (Bool-cases (valid_inumber z)) [
    | inr bad ↦ inl (ground (arith, bad))
    | inl valid ↦ elim (Bool-cases (length name == 0)) [
      | inl empty ↦ inl (ground (arith, valid, root_is_directory, empty))
      | inr text ↦ elim (Option-cases (find_first (entry_is_empty s.fs_data 0) max_dir_entries 0)) [
        | inl full ↦ inl (ground (arith, valid, root_is_directory, text, root_block_got, full))
        | inr (k, e) ↦
            inr (k, e, valid, ground (arith, valid, root_is_directory, text, root_block_got, e))
      ]
    ]
  ]

  pub filled-Inv :
      (k : ℕ) (z : ℤ) (name : CString)
      → valid_inumber z ≡ true
      → Names s.freeinode_ts z
      → Inv (record s { fs_data = fill_entry s.fs_data 0 k z name })
  filled-Inv k z name valid n = record {
    apart =
        Separate-tables (fill_entry s.fs_data 0 k z name) s.open_file_table s.free_open_file_entries
          s.inode_table_lock v.apart;
    root_number = v.root_number;
    files = v.files;
    entries =
        EntriesValid-fill s.fs_data s.freeinode_ts k z name v.entries n
          (IsInt-valid_inumber z valid).0;
    handles = v.handles;
  }

  pub tfs_lookup_lem :
      (name : CString)
      → valid_pathname name ≡ true
      → tfs_lookup name s ≡ find_in_block s.fs_data 0 (drop 1 name)
  unfolding tfs_lookup find_in_dir
  tfs_lookup_lem name valid = ground (arith, valid, root_is_directory, root_block_got)

  -- What a lookup finds is the number of a file in use.
  pub lookup-Names :
      (name : CString)
      → is_nonneg (tfs_lookup name s) ≡ true
      → Names s.freeinode_ts (tfs_lookup name s)
  unfolding tfs_lookup find_in_dir
  lookup-Names name found = elim (Bool-cases (valid_pathname name)) [
    | inr bad ↦ absurd (ground (arith, bad, found))
    | inl valid ↦
        (let e : tfs_lookup name s ≡ find_in_block s.fs_data 0 (drop 1 name) =
            tfs_lookup_lem name valid in
          elim (find_in_block-cases s.fs_data 0 (drop 1 name)) [
            | inl missing ↦ absurd (cc (ap is_nonneg (sym (e ∙ missing)) ∙ found))
            | inr (k, lt, used, at) ↦
                subst (Names s.freeinode_ts) (sym (e ∙ at)) (v.entries k lt used)
          ])
  ]

pub inode_delete-new :
    (s : Fs) (i : ℕ)
    → i < inode_table_size
    → s.freeinode_ts i ≡ taken
    → (s.inode_table i).i_node_type ≡ t_file
    → (s.inode_table i).i_size ≡ 0
    → (inode_delete (pos i) s).1 ≡ set_freeinode s i free
unfolding inode_delete
inode_delete-new s i lt used type empty = ground (arith, lt, used, type, empty)

pub open_new-Inv : (s : Fs) (name : CString) → Inv s → Inv (open_new name s).1
unfolding open_new
open_new-Inv s name v = elim (inode_create-CreatesInode s) [
  | no_free_inode e all ↦
      rw (e, open_new)
        (Inv-handles s.open_file_table s.free_open_file_entries (suc s.inode_table_lock) v
          v.handles)
  | created i lt unused least e ↦
      (let t : Fs = with_file s i lt unused v.apart in
        let w : Inv t = Inv-with_file s i lt unused v in
        let named : Names t.freeinode_ts (pos i) = record {
          is_pos = refl;
          not_root = not_root_of_free s i lt unused v;
          below = lt;
          in_use = update_self s.freeinode_ts i taken;
        } in
        elim (add_dir_entry-root t w (pos i) (drop 1 name)) [
          | inl refused ↦
              rw (e, refused, open_new)
                (subst Inv
                  (sym (
                    inode_delete-new t i lt (update_self s.freeinode_ts i taken) (ground arith)
                      (ground arith)))
                  (Inv-unmade s i lt unused v))
          | inr (k, e', valid, added) ↦
              rw (e, added, open_new)
                (add_to_open_file_table-Inv _ (pos i) 0
                  (filled-Inv t w k (pos i) (drop 1 name) valid named) named)
        ])
]

pub inode_get-Names :
    (s : Fs) (inum : ℤ) → Names s.freeinode_ts inum → inode_get inum ≡ some (index inum)
unfolding inode_get
inode_get-Names s inum n = ground (arith, n)

-- A file that is truncated or not, before it gets a handle.
pub open_existing-Inv :
    (s : Fs) (inum : ℤ) (flags : ℕ)
    → Inv s
    → Names s.freeinode_ts inum
    → Inv (open_existing inum flags s).1
unfolding open_existing
open_existing-Inv s inum flags v n =
    let i : ℕ = index inum in
    let got : inode_get inum ≡ some i = inode_get-Names s inum n in
    let (w, same) = truncate-Inv i v (subst (Names s.freeinode_ts) n.is_pos n) in
    elim (Bool-cases (has_flag flags tfs_o_trunc)) [
      | inr keep ↦ rw (got, keep, open_existing) (add_to_open_file_table-Inv s inum _ v n)
      | inl trunc ↦ elim (Bool-cases (is_minus_one (truncate i s).0)) [
        | inl bad ↦ rw (got, trunc, bad, open_existing) w
        | inr ok ↦
            rw (got, trunc, ok, open_existing)
              (add_to_open_file_table-Inv (truncate i s).1 inum _ w
                (subst (λ f. Names f inum) (sym same) n))
      ]
    ]

-- Opening a path keeps the tables well formed, whatever the path and the flags.
pub tfs_open-Inv : (s : Fs) (name : CString) (flags : ℕ) → Inv s → Inv (tfs_open name flags s).1
unfolding tfs_open
tfs_open-Inv s name flags v = elim (Bool-cases (valid_pathname name)) [
  | inr bad ↦ rw (bad, tfs_open) v
  | inl valid ↦ elim (Bool-cases (is_nonneg (tfs_lookup name s))) [
    | inl found ↦
        rw (valid, found, tfs_open)
          (open_existing-Inv s (tfs_lookup name s) flags v (lookup-Names s v name found))
    | inr missing ↦ elim (Bool-cases (has_flag flags tfs_o_creat)) [
      | inl creat ↦ rw (valid, missing, creat, tfs_open) (open_new-Inv s name v)
      | inr plain ↦ rw (valid, missing, plain, tfs_open) v
    ]
  ]
]
