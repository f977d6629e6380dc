-- ===== src/Projeto1/Inodes/Creation.antt =====
-- The outcomes of `inode_create (T_FILE)`, and what they do to `inode_table_lock`.
use projeto_sistemas_operati.Projeto1.Types.{blocks, set_freeinode, set_inode, Inode, Fs}
use projeto_sistemas_operati.Projeto1.Inodes.{inode_create, init_inode}
use projeto_sistemas_operati.Base.{
  find_first-IsFirst, IsFirst, inr, find_first-none, update-update, arith, inl, ◌<◌, pos, suc,
  minus_one, find_first, fill, Option-cases, ◌≡◌, ℤ, ℕ,
}
use projeto_sistemas_operati.Projeto2.Types.{free, inode_table_size, is_free, taken, t_file}
use projeto_sistemas_operati.Projeto2.Blocks.Allocation.{free_of_is_free, taken_of_is_free}

abbrev pub empty_inode : Inode → Inode
empty_inode n = record n {
  i_node_type = t_file;
  i_size = 0;
  i_data_block = fill blocks minus_one n.i_data_block;
}

pub data CreatesInode (s : Fs) (r : ℤ × Fs) : Type 0 where
  no_free_inode :
      r ≡ (minus_one, record s { inode_table_lock = suc s.inode_table_lock })
      → ((i : ℕ) → i < inode_table_size → s.freeinode_ts i ≡ taken)
      → CreatesInode s r
  created :
      (i : ℕ)
      → i < inode_table_size
      → s.freeinode_ts i ≡ free
      → ((j : ℕ) → j < i → s.freeinode_ts j ≡ taken)
      → r ≡ (pos i, set_inode (set_freeinode s i taken) i (empty_inode (s.inode_table i)))
      → CreatesInode s r

init_file :
    (s : Fs) (i : ℕ)
    → init_inode t_file i
        (set_inode (set_freeinode s i taken) i (record (s.inode_table i) { i_node_type = t_file }))
      ≡ (pos i, set_inode (set_freeinode s i taken) i (empty_inode (s.inode_table i)))
unfolding init_inode
init_file s i = ground (
  arith,
  update-update s.inode_table i (record (s.inode_table i) { i_node_type = t_file })
      (empty_inode (s.inode_table i)),
)

-- Project 1: inode_create (T_FILE) takes the lowest free i-node and makes it an empty file with no
-- blocks, and inode_table_lock is as before; where every i-node is taken, it returns -1 and keeps
-- inode_table_lock.
pub inode_create-CreatesInode : (s : Fs) → CreatesInode s (inode_create t_file s)
unfolding inode_create
inode_create-CreatesInode s =
    elim (Option-cases (find_first (λ i. is_free (s.freeinode_ts i)) inode_table_size 0)) [
      | inl e ↦ no_free_inode (rw (e, inode_create)) (λ i lt.
          taken_of_is_free _ (find_first-none _ inode_table_size 0 e i (omega arith) (omega arith)))
      | inr (i, e) ↦
          (let first : IsFirst _ inode_table_size 0 i =
              find_first-IsFirst _ inode_table_size 0 i e in
            created i (omega (arith, first.below)) (free_of_is_free _ first.passes)
              (λ j lt. taken_of_is_free _ (first.least j (omega arith) lt))
              (rw (e, inode_create) (init_file s i)))
    ]
