-- ===== src/Projeto1/Invariant.antt =====
-- What the tables of fs/state.c satisfy between calls, for files within their direct blocks.
pub mod Freeing
pub mod Truncating
pub mod Creating
pub mod Opening
pub mod Created
pub mod Racing
pub mod Kept
pub mod Interleaved
pub mod Writing
pub mod Calls
use projeto_sistemas_operati.Base.{
  true, subst, is_minus_one, sym, ap, pos, ◌<◌, ◌≡◌, ◌∙◌, ℕ, ℤ, Array,
}
use projeto_sistemas_operati.Projeto1.Types.{Inode, indirect_access_block, block_number, Fs}
use projeto_sistemas_operati.Projeto1.Operations.Separate.{IsFile, Separate}
use projeto_sistemas_operati.Projeto2.Types.{
  max_open_files, t_file, inode_table_size, taken, index, AllocationState, root_dir_inum,
}
use projeto_sistemas_operati.Projeto2.Invariant.{EntriesValid, Names}
use projeto_sistemas_operati.Projeto1.Position.Direct.{IsBlock, HasNumber, Owns, block_of}

-- The file of the handle `h`.
abbrev pub file_of : Fs → ℕ → ℕ
file_of s h = index (s.open_file_table h).of_inumber

-- A file without an indirect block.
abbrev pub DirectFile : Inode → Type 0
DirectFile n =
    (n.i_node_type ≡ t_file) × (is_minus_one (n.i_data_block indirect_access_block) ≡ true)

-- A number in use names a file, which has no indirect block; the root directory is i-node 0, with its
-- entries in block 0; entries and handles in use name files.
pub record Inv (s : Fs) : Type 0 where
  pub apart : Separate s
  pub root_number : block_number s root_dir_inum 0 ≡ pos 0
  pub files :
      (i : ℕ)
      → 0 < i
      → i < inode_table_size
      → s.freeinode_ts i ≡ taken
      → DirectFile (s.inode_table i)
  pub entries : EntriesValid s.fs_data s.freeinode_ts
  pub handles :
      (h : ℕ)
      → h < max_open_files
      → s.free_open_file_entries h ≡ taken
      → Names s.freeinode_ts (s.open_file_table h).of_inumber

-- In `t` the root is as in `s`, and each direct block of a file was one of that file, and is in use.
pub record Fewer (s t : Fs) : Type 0 where
  pub root_type :
      (t.inode_table root_dir_inum).i_node_type ≡ (s.inode_table root_dir_inum).i_node_type
  pub root_used : t.freeinode_ts root_dir_inum ≡ s.freeinode_ts root_dir_inum
  pub root_number : block_number t root_dir_inum 0 ≡ block_number s root_dir_inum 0
  pub root_block : t.free_blocks (block_of s root_dir_inum 0) ≡ taken
  pub numbers :
      (k j : ℕ)
      → k < inode_table_size
      → j < indirect_access_block
      → IsFile t k
      → HasNumber t k j
      → IsFile s k
        × (block_number t k j ≡ block_number s k j)
        × (t.free_blocks (block_of s k j) ≡ taken)

module _ {s t : Fs} (sep : Separate s) (f : Fewer s t) where
  -- A direct block of a file in `t`, as it is in `s`.
  had :
      (k j : ℕ)
      → k < inode_table_size
      → j < indirect_access_block
      → IsFile t k
      → HasNumber t k j
      → HasNumber s k j × (block_of t k j ≡ block_of s k j)
  had k j lk lj file h =
      let same : block_number t k j ≡ block_number s k j = (f.numbers k j lk lj file h).1 in
      (ap is_minus_one (sym same) ∙ h, ap index same)

  Owns-fewer : (k : ℕ) → k < inode_table_size → IsFile t k → Owns t k
  Owns-fewer k lk file = record {
    is_block = λ j lj h.
        let (old, same, used) = f.numbers k j lk lj file h in
        let b : IsBlock s.free_blocks (block_number s k j) =
          (sep.owns k lk old).is_block j lj (had k j lk lj file h).0 in
        subst (IsBlock t.free_blocks) (sym same)
          (record { is_pos = b.is_pos; below = b.below; in_use = used });
    apart = λ j l lj ll hj hl e.
        (sep.owns k lk (f.numbers k j lk lj file hj).0).apart j l lj ll (had k j lk lj file hj).0
          (had k l lk ll file hl).0 (sym (had k j lk lj file hj).1 ∙ e ∙ (had k l lk ll file hl).1);
  }

  pub Separate-fewer : Separate t
  Separate-fewer = record {
    root_type = f.root_type ∙ sep.root_type;
    root_used = f.root_used ∙ sep.root_used;
    root_block = ap (λ z. t.free_blocks (index z)) f.root_number ∙ f.root_block;
    root_apart = λ k lk file. record {
      in_use = ap (λ z. t.free_blocks (index z)) f.root_number ∙ f.root_block;
      not_mine = λ j lj h e.
          (sep.root_apart k lk (f.numbers k j lk lj file h).0).not_mine j lj
            (had k j lk lj file h).0 (sym (had k j lk lj file h).1 ∙ e ∙ ap index f.root_number);
    };
    owns = Owns-fewer;
    disjoint = λ k m j l lk lm ne fk fm lj ll hj hl e.
        sep.disjoint k m j l lk lm ne (f.numbers k j lk lj fk hj).0 (f.numbers m l lm ll fm hl).0 lj
          ll (had k j lk lj fk hj).0 (had m l lm ll fm hl).0
          (sym (had k j lk lj fk hj).1 ∙ e ∙ (had m l lm ll fm hl).1);
  }

-- A number that names a file in use names one also where the map of i-nodes has grown.
pub Names-kept :
    {f g : Array AllocationState} (z : ℤ)
    → (f (index z) ≡ taken → g (index z) ≡ taken)
    → Names f z
    → Names g z
Names-kept z kept n = record {
  is_pos = n.is_pos;
  not_root = n.not_root;
  below = n.below;
  in_use = kept n.in_use;
}

pub Names-IsFile : {s : Fs} {z : ℤ} → Inv s → Names s.freeinode_ts z → IsFile s (index z)
Names-IsFile {s} {z} v n = (n.in_use, (v.files (index z) n.not_root n.below n.in_use).0)
