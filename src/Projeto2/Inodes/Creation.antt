-- ===== src/Projeto2/Inodes/Creation.antt =====
-- The outcomes of `inode_create (T_FILE)`, and of deleting the i-node that it made.
use projeto_sistemas_operati.Projeto2.Types.{
  free, is_free, taken, set_freeinode, inode_table_size, set_inode, t_file, Inode, Fs,
}
use projeto_sistemas_operati.Projeto2.Inodes.{inode_create, inode_delete, init_inode}
use projeto_sistemas_operati.Base.{
  refl, find_first-IsFirst, IsFirst, inr, find_first-none, update-update, arith, inl, pos,
  find_first, Option-cases, ◌<◌, ◌≡◌, minus_one, ℤ, ℕ,
}
use projeto_sistemas_operati.Projeto2.Blocks.Allocation.{free_of_is_free, taken_of_is_free}

abbrev pub empty_file : Inode
empty_file = record { i_node_type = t_file; i_size = 0; i_data_block = minus_one }

-- The tables with the i-node `i` taken for a new file.
abbrev pub with_file : Fs → ℕ → Fs
with_file s i = set_inode (set_freeinode s i taken) i empty_file

pub data CreatesFile (s : Fs) (r : ℤ × Fs) : Type 0 where
  no_free_inode :
      r ≡ (minus_one, s)
      → ((i : ℕ) → i < inode_table_size → s.freeinode_ts i ≡ taken)
      → CreatesFile s r
  created :
      (i : ℕ)
      → i < inode_table_size
      → s.freeinode_ts i ≡ free
      → ((j : ℕ) → j < i → s.freeinode_ts j ≡ taken)
      → r ≡ (pos i, with_file s i)
      → CreatesFile s r

init_file :
    (s : Fs) (i : ℕ) (n : Inode)
    → n.i_node_type ≡ t_file
    → init_inode t_file i (set_inode (set_freeinode s i taken) i n) ≡ (pos i, with_file s i)
unfolding init_inode
init_file s i n e = ground (arith, update-update s.inode_table i n empty_file)

-- inode_create (T_FILE) takes the lowest free i-node and makes it an empty file; it returns -1,
-- and changes nothing, exactly where every i-node is taken.
pub inode_create-CreatesFile : (s : Fs) → CreatesFile s (inode_create t_file s)
unfolding inode_create
inode_create-CreatesFile s =
    elim (Option-cases (find_first (λ i. is_free (s.freeinode_ts i)) inode_table_size 0)) [
      | inl e ↦ no_free_inode (rw (e, inode_create)) (λ i lt.
          taken_of_is_free _ (find_first-none _ inode_table_size 0 e i (omega arith) (omega arith)))
      | inr (i, e) ↦
          (let first : IsFirst _ inode_table_size 0 i =
              find_first-IsFirst _ inode_table_size 0 i e in
            created i (omega (arith, first.below)) (free_of_is_free _ first.passes)
              (λ j lt. taken_of_is_free _ (first.least j (omega arith) lt))
              (rw (e, inode_create) (init_file s i _ refl)))
    ]

-- Deleting an empty file that was just created gives the map of i-nodes back.
pub inode_delete-with_file :
    (s : Fs) (i : ℕ)
    → i < inode_table_size
    → inode_delete (pos i) (with_file s i) ≡ (pos 0, set_freeinode (with_file s i) i free)
unfolding inode_delete
inode_delete-with_file s i lt = ground arith
