-- ===== src/Projeto2/Invariant/Open.antt =====
-- `open_unsynchronized` keeps the invariant, on every path through it.
use projeto_sistemas_operati.Projeto2.Operations.{
  truncate, valid_pathname, open_existing, open_new, lookup_unsynchronized, open_unsynchronized,
}
use projeto_sistemas_operati.Projeto2.Types.{
  max_dir_entries, block_size, tfs_o_append, index, tfs_o_trunc, taken, tfs_o_creat, has_flag,
  AllocationState, root_dir_inum, Fs,
}
use projeto_sistemas_operati.Base.{
  ◌<◌, minus_one, ◌≤◌, if◌then◌else◌, subst, ◌∙◌, sym, update_self, ℕ_discrete, drop, IsInt, inr,
  Array, inl, refl, arith, Bool-cases, true, ◌≡◌, pos, is_nonneg, ℕ, ℤ,
}
use projeto_sistemas_operati.Memory.{Mem, CString}
use projeto_sistemas_operati.Projeto2.Invariant.{EntriesValid, Names, Inv}
use projeto_sistemas_operati.Projeto2.Directory.Outcomes.{
  find_in_block-cases, find_in_dir-DirectoryAt, IsInt-valid_inumber, added, refused,
  add_dir_entry-Adds, DirectoryAt,
}
use projeto_sistemas_operati.Projeto2.Directory.{fill_entry, find_in_block, add_dir_entry}
use projeto_sistemas_operati.Projeto2.Operations.Opening.{
  made, no_entry, no_inode, open_new-OpensNew,
}
use projeto_sistemas_operati.Projeto2.Blocks.{data_block_free, data_block_get}
use projeto_sistemas_operati.Projeto2.Invariant.Inodes.{
  truncate-Inv, create-Inv, not_root_of_free, give_back-Inv,
}
use projeto_sistemas_operati.Projeto2.Inodes.Creation.{with_file, empty_file}
use projeto_sistemas_operati.Projeto2.Directory.Entries.{
  entry_is_empty-SameEntry, d_inumber-SameEntry, fill_entry-SameEntry, SameEntry,
  d_inumber-fill_entry,
}
use projeto_sistemas_operati.Projeto2.Invariant.Handles.{add_to_open_file_table-Inv}
use projeto_sistemas_operati.Projeto2.Inodes.{inode_get}
use projeto_sistemas_operati.Projeto2.Handles.{add_to_open_file_table}
use projeto_sistemas_operati.Projeto2.Directory.Lookup.{find_in_block-SameEntry}

root_at : (s : Fs) → Inv s → DirectoryAt s (pos root_dir_inum) 0
unfolding data_block_get
root_at s v = record {
  valid = refl;
  is_dir = ground (arith, v.root);
  block = ground (arith, v.root);
}

base-eq : (s : Fs) (base : ℕ) → Inv s → DirectoryAt s (pos root_dir_inum) base → base ≡ 0
base-eq s base v at = ground (arith, at.block, (root_at s v).block)

pub EntriesValid-fill :
    (m : Mem) (fi : Array AllocationState) (i : ℕ) (z : ℤ) (name : CString)
    → EntriesValid m fi
    → Names fi z
    → IsInt z
    → EntriesValid (fill_entry m 0 i z name) fi
EntriesValid-fill m fi i z name v n int k lt used = elim (ℕ_discrete i k) [
  | yes same ↦ rw (← same, d_inumber-fill_entry m 0 i z name int) n
  | no other ↦
      (let agree : SameEntry (fill_entry m 0 i z name) m 0 k =
          fill_entry-SameEntry m 0 i z name k other in
        rw (d_inumber-SameEntry 0 k agree)
          (v k lt (sym (entry_is_empty-SameEntry 0 k agree) ∙ used)))
]

-- A new entry of the root directory names a file in use.
add_dir_entry-Inv :
    (s : Fs) (z : ℤ) (name : CString)
    → Inv s
    → Names s.freeinode_ts z
    → Inv (add_dir_entry (pos root_dir_inum) z name s).1
add_dir_entry-Inv s z name v n = elim (add_dir_entry-Adds s (pos root_dir_inum) z name) [
  | refused e ↦ rw e v
  | added base i at e ↦
      rw (e, base-eq s base v at.directory)
        (record {
          root = v.root;
          files = v.files;
          handles = v.handles;
          entries =
              EntriesValid-fill s.fs_data s.freeinode_ts i z name v.entries n
                (IsInt-valid_inumber z at.sub_valid).0;
        })
]

freeinode-add_dir_entry :
    (s : Fs) (d z : ℤ) (name : CString) → (add_dir_entry d z name s).1.freeinode_ts ≡ s.freeinode_ts
freeinode-add_dir_entry s d z name = elim (add_dir_entry-Adds s d z name) [
  | refused e ↦ rw e
  | added base i at e ↦ rw e
]

-- A lookup is a search of block 0.
pub lookup_lem :
    (s : Fs) (name : CString)
    → Inv s
    → lookup_unsynchronized name s
      ≡ (if valid_pathname name then find_in_block s.fs_data 0 (drop 1 name) else minus_one)
unfolding lookup_unsynchronized
lookup_lem s name v =
    ground (arith, find_in_dir-DirectoryAt s (pos root_dir_inum) 0 (drop 1 name) (root_at s v))

-- Lookups depend on the bytes of the root directory's entries and on nothing else.
pub lookup-SameEntry :
    {s t : Fs} (name : CString)
    → Inv s
    → Inv t
    → ((k : ℕ) → k < max_dir_entries → SameEntry t.fs_data s.fs_data 0 k)
    → lookup_unsynchronized name t ≡ lookup_unsynchronized name s
lookup-SameEntry {s} {t} name v w same = ground (
  arith,
  lookup_lem s name v,
  lookup_lem t name w,
  find_in_block-SameEntry t.fs_data s.fs_data 0 (drop 1 name) same,
)

-- In well-formed tables, what a lookup in the root directory finds is the number of a file in use,
-- other than the root.
pub lookup-Names :
    (s : Fs) (name : CString)
    → Inv s
    → is_nonneg (lookup_unsynchronized name s) ≡ true
    → Names s.freeinode_ts (lookup_unsynchronized name s)
lookup-Names s name v h = elim (find_in_block-cases s.fs_data 0 (drop 1 name)) [
  | inl missing ↦ absurd (ground (arith, missing, lookup_lem s name v))
  | inr (k, lt, used, found) ↦
      subst (Names s.freeinode_ts) (sym (ground (arith, found, lookup_lem s name v)))
        (v.entries k lt used)
]

open_new-Inv : (s : Fs) (name : CString) → Inv s → Inv (open_new name s).1
open_new-Inv s name v = elim (open_new-OpensNew s name) [
  | no_inode e ↦ rw e v
  | no_entry i f e ↦ rw e (give_back-Inv v i empty_file f refl)
  | made i lt f ok e ↦
      (let named : Names (with_file s i).freeinode_ts (pos i) = record {
        is_pos = refl;
        not_root = not_root_of_free v i f;
        below = lt;
        in_use = update_self s.freeinode_ts i taken;
      } in
        rw e (
          add_to_open_file_table-Inv _
            (add_dir_entry-Inv (with_file s i) (pos i) (drop 1 name)
              (create-Inv v i empty_file f refl) named)
            (pos i) 0
            (subst (λ f. Names f (pos i))
              (sym
                (freeinode-add_dir_entry (with_file s i) (pos root_dir_inum) (pos i) (drop 1 name)))
              named)
            (omega arith)))
]

freeinode-truncate : (s : Fs) (i : ℕ) → (truncate i s).1.freeinode_ts ≡ s.freeinode_ts
unfolding truncate data_block_free
freeinode-truncate s i = ground arith

-- The tables after the truncation, where the flags ask for it.
abbrev pub after_trunc : ℕ → ℕ → Fs → Fs
after_trunc flags i s = if has_flag flags tfs_o_trunc then (truncate i s).1 else s

abbrev pub first_offset : ℕ → ℕ → Fs → ℕ
first_offset flags i s = if has_flag flags tfs_o_append then (s.inode_table i).i_size else 0

module _ (s : Fs) (inum : ℤ) (flags : ℕ) (v : Inv s) (n : Names s.freeinode_ts inum) where
  abbrev truncated : Fs
  truncated = after_trunc flags (index inum) s

  truncated-Inv : Inv truncated
  truncated-Inv = elim (Bool-cases (has_flag flags tfs_o_trunc)) [
    | inl trunc ↦ rw trunc (truncate-Inv v (index inum) n.not_root n.below n.in_use).1
    | inr keep ↦ rw keep v
  ]

  truncated-freeinode : truncated.freeinode_ts ≡ s.freeinode_ts
  truncated-freeinode = elim (Bool-cases (has_flag flags tfs_o_trunc)) [
    | inl trunc ↦ rw trunc (freeinode-truncate s (index inum))
    | inr keep ↦ rw keep
  ]

  -- A file in use is opened at its end or its start, truncated first where the flags say so.
  pub open_existing_lem :
      open_existing inum flags s
      ≡ add_to_open_file_table inum (first_offset flags (index inum) truncated) truncated
  unfolding open_existing inode_get
  open_existing_lem = ground (arith, (truncate-Inv v (index inum) n.not_root n.below n.in_use).0)

  open_existing-Inv : Inv (open_existing inum flags s).1
  open_existing-Inv =
      let named : Names truncated.freeinode_ts inum =
        subst (λ f. Names f inum) (sym truncated-freeinode) n in
      let small : (truncated.inode_table (index inum)).i_size ≤ block_size =
        truncated-Inv.files.small (index inum) named.not_root named.below named.in_use in
      rw open_existing_lem (
        add_to_open_file_table-Inv truncated truncated-Inv inum
          (first_offset flags (index inum) truncated) named (ground (arith, small)))

-- Opening a file keeps the tables well formed, whatever the path and the flags.
pub open_unsynchronized-Inv :
    (s : Fs) (name : CString) (flags : ℕ) → Inv s → Inv (open_unsynchronized name flags s).1
unfolding open_unsynchronized
open_unsynchronized-Inv s name flags v =
    elim (Bool-cases (is_nonneg (lookup_unsynchronized name s))) [
      | inl e ↦
          rw (e, open_unsynchronized) (open_existing-Inv s _ flags v (lookup-Names s name v e))
      | inr e ↦ elim (Bool-cases (has_flag flags tfs_o_creat)) [
        | inl creat ↦ rw (e, creat, open_unsynchronized) (open_new-Inv s name v)
        | inr plain ↦ rw (e, plain, open_unsynchronized) v
      ]
    ]
