-- ===== src/Projeto1/Operations/Separate.antt =====
-- Files do not share blocks: an invariant of the tables, for files within their direct blocks.
use projeto_sistemas_operati.Projeto1.Types.{Inode, block_number, indirect_access_block, Fs}
use projeto_sistemas_operati.Base.{
  refl, Array, ◌∙◌, is_minus_one, sym, subst, arith, ◌≢◌, ap, ℕ_discrete, ◌≡◌, ◌<◌, ℕ,
}
use projeto_sistemas_operati.Projeto2.Types.{
  AllocationState, OpenFileEntry, index, t_file, t_directory, taken, inode_table_size,
  root_dir_inum,
}
use projeto_sistemas_operati.Projeto1.Operations.Others.{Spares, Foreign}
use projeto_sistemas_operati.Projeto1.Position.Direct.{
  Owns-same, IsBlock, HasNumber, block_of, Owns,
}
use projeto_sistemas_operati.Memory.{Mem}

abbrev pub IsFile : Fs → ℕ → Type 0
IsFile s i = (s.freeinode_ts i ≡ taken) × ((s.inode_table i).i_node_type ≡ t_file)

-- The direct blocks of files are blocks in use, no two are one, and none is the root directory's.
pub record Separate (s : Fs) : Type 0 where
  pub root_type : (s.inode_table root_dir_inum).i_node_type ≡ t_directory
  pub root_used : s.freeinode_ts root_dir_inum ≡ taken
  pub root_block : s.free_blocks (block_of s root_dir_inum 0) ≡ taken
  pub root_apart :
      (i : ℕ) → i < inode_table_size → IsFile s i → Foreign s i (block_of s root_dir_inum 0)
  pub owns : (i : ℕ) → i < inode_table_size → IsFile s i → Owns s i
  pub disjoint :
      (i k j l : ℕ)
      → i < inode_table_size
      → k < inode_table_size
      → i ≢ k
      → IsFile s i
      → IsFile s k
      → j < indirect_access_block
      → l < indirect_access_block
      → HasNumber s i j
      → HasNumber s k l
      → block_of s i j ≢ block_of s k l

-- It depends on the i-nodes and on the maps of the i-nodes and blocks alone.
pub Separate-tables :
    {s : Fs} (bytes : Mem) (files : Array OpenFileEntry) (entries : Array AllocationState)
    (lock : ℕ)
    → Separate s
    → Separate (record s {
      fs_data = bytes;
      open_file_table = files;
      free_open_file_entries = entries;
      inode_table_lock = lock;
    })
Separate-tables bytes files entries lock sep = record {
  root_type = sep.root_type;
  root_used = sep.root_used;
  root_block = sep.root_block;
  root_apart = λ i lt f. record {
    in_use = (sep.root_apart i lt f).in_use;
    not_mine = (sep.root_apart i lt f).not_mine;
  };
  owns = λ i lt f. Owns-same refl (λ k. refl) (sep.owns i lt f);
  disjoint = sep.disjoint;
}

-- `t` is a state after a write to the file `i`.
module _ {s t : Fs} {i : ℕ} (sep : Separate s) (lt : i < inode_table_size) (file : IsFile s i)
    (own : Owns t i) (spare : (b : ℕ) → Foreign s i b → Spares s i b t) where
  root_spared : Spares s i (block_of s root_dir_inum 0) t
  root_spared = spare (block_of s root_dir_inum 0) (sep.root_apart i lt file)

  number_same : (k l : ℕ) → i ≢ k → block_number t k l ≡ block_number s k l
  number_same k l ne = ap (λ (n : Inode). n.i_data_block l) (root_spared.inodes_same k ne)

  not_root : i ≢ root_dir_inum
  not_root e =
      absurd (ground (arith, file.1, ap (λ k. (s.inode_table k).i_node_type) e, sep.root_type))

  IsFile-back : (k : ℕ) → IsFile t k → IsFile s k
  IsFile-back k (used, type) = (
    ap (λ f. f k) (sym root_spared.map_same) ∙ used,
    elim (ℕ_discrete i k) [
      | yes same ↦ ap (λ m. (s.inode_table m).i_node_type) (sym same) ∙ file.1
      | no ne ↦ ap (λ (n : Inode). n.i_node_type) (sym (root_spared.inodes_same k ne)) ∙ type
    ],
  )

  has_back : (k l : ℕ) → i ≢ k → HasNumber t k l → HasNumber s k l
  has_back k l ne h = ap is_minus_one (sym (number_same k l ne)) ∙ h

  -- A block of another file is spared.
  other_spared :
      (k l : ℕ)
      → k < inode_table_size
      → l < indirect_access_block
      → i ≢ k
      → IsFile s k
      → HasNumber s k l
      → Spares s i (block_of s k l) t
  other_spared k l lk ll ne fk h = spare (block_of s k l) (record {
    in_use = ((sep.owns k lk fk).is_block l ll h).in_use;
    not_mine = λ j lj hj e. sep.disjoint i k j l lt lk ne file fk lj ll hj h e;
  })

  Owns-other : (k : ℕ) → k < inode_table_size → i ≢ k → IsFile s k → Owns t k
  Owns-other k lk ne fk = record {
    is_block = λ l ll h. subst (IsBlock t.free_blocks) (sym (number_same k l ne)) (
        let b : IsBlock s.free_blocks (block_number s k l) =
          (sep.owns k lk fk).is_block l ll (has_back k l ne h) in
        record {
          is_pos = b.is_pos;
          below = b.below;
          in_use = (other_spared k l lk ll ne fk (has_back k l ne h)).foreign.in_use;
        });
    apart = λ j l lj ll hj hl e.
        (sep.owns k lk fk).apart j l lj ll (has_back k j ne hj) (has_back k l ne hl)
          (ap index (sym (number_same k j ne)) ∙ e ∙ ap index (number_same k l ne));
  }

  -- A block of the file written, and one of another file.
  disjoint-written :
      (k j l : ℕ)
      → k < inode_table_size
      → i ≢ k
      → IsFile s k
      → j < indirect_access_block
      → l < indirect_access_block
      → HasNumber t i j
      → HasNumber t k l
      → block_of t i j ≢ block_of t k l
  disjoint-written k j l lk ne fk lj ll hj hl e =
      (other_spared k l lk ll ne fk (has_back k l ne hl)).foreign.not_mine j lj hj
        (e ∙ ap index (number_same k l ne))

  root_block_same : block_of t root_dir_inum 0 ≡ block_of s root_dir_inum 0
  root_block_same = ap index (number_same root_dir_inum 0 not_root)

  Foreign-root :
      (k : ℕ) → k < inode_table_size → IsFile s k → Foreign t k (block_of s root_dir_inum 0)
  Foreign-root k lk fk = elim (ℕ_discrete i k) [
    | yes same ↦ subst (λ m. Foreign t m (block_of s root_dir_inum 0)) same root_spared.foreign
    | no ne ↦ record {
      in_use = root_spared.foreign.in_use;
      not_mine = λ j lj h e.
          (sep.root_apart k lk fk).not_mine j lj (has_back k j ne h)
            (ap index (sym (number_same k j ne)) ∙ e);
    }
  ]

  disjoint-kept :
      (k m j l : ℕ)
      → k < inode_table_size
      → m < inode_table_size
      → k ≢ m
      → IsFile s k
      → IsFile s m
      → j < indirect_access_block
      → l < indirect_access_block
      → HasNumber t k j
      → HasNumber t m l
      → block_of t k j ≢ block_of t m l
  disjoint-kept k m j l lk lm ne fk fm lj ll hj hl e = elim (ℕ_discrete i k) [
    | yes ik ↦
        disjoint-written m j l lm (λ im. ne (sym ik ∙ im)) fm lj ll
          (subst (λ n. HasNumber t n j) (sym ik) hj) hl (ap (λ n. block_of t n j) ik ∙ e)
    | no ik ↦ elim (ℕ_discrete i m) [
      | yes im ↦
          disjoint-written k l j lk ik fk ll lj (subst (λ n. HasNumber t n l) (sym im) hl) hj
            (ap (λ n. block_of t n l) im ∙ sym e)
      | no im ↦
          sep.disjoint k m j l lk lm ne fk fm lj ll (has_back k j ik hj) (has_back m l im hl)
            (ap index (sym (number_same k j ik)) ∙ e ∙ ap index (number_same m l im))
    ]
  ]

  pub Separate-written : Separate t
  Separate-written = record {
    root_type =
        ap (λ (n : Inode). n.i_node_type) (root_spared.inodes_same root_dir_inum not_root)
        ∙ sep.root_type;
    root_used = ap (λ f. f root_dir_inum) root_spared.map_same ∙ sep.root_used;
    root_block = ap t.free_blocks root_block_same ∙ root_spared.foreign.in_use;
    root_apart =
        λ k lk fk. subst (Foreign t k) (sym root_block_same) (Foreign-root k lk (IsFile-back k fk));
    owns = λ k lk fk. elim (ℕ_discrete i k) [
      | yes same ↦ subst (Owns t) same own
      | no ne ↦ Owns-other k lk ne (IsFile-back k fk)
    ];
    disjoint = λ k m j l lk lm ne fk fm lj ll hj hl e.
        disjoint-kept k m j l lk lm ne (IsFile-back k fk) (IsFile-back m fm) lj ll hj hl e;
  }
