-- ===== src/Projeto2/Operations/Opening.antt =====
-- The outcomes of `open_new`.
use projeto_sistemas_operati.Projeto2.Types.{
  inode_table_size, root_dir_inum, set_freeinode, free, Fs,
}
use projeto_sistemas_operati.Projeto2.Operations.{open_new}
use projeto_sistemas_operati.Memory.{CString}
use projeto_sistemas_operati.Base.{false, drop, is_minus_one, pos, ◌<◌, ℕ, minus_one, arith, ◌≡◌, ℤ}
use projeto_sistemas_operati.Projeto2.Inodes.Creation.{
  created, no_free_inode, inode_delete-with_file, with_file, inode_create-CreatesFile,
}
use projeto_sistemas_operati.Projeto2.Directory.Outcomes.{added, refused, add_dir_entry-Adds}
use projeto_sistemas_operati.Projeto2.Directory.{add_dir_entry}
use projeto_sistemas_operati.Projeto2.Handles.{add_to_open_file_table}

-- It fails and changes nothing; or the new i-node is given back; or the file is made, with an entry
-- and, where one is free, a handle at offset 0.
pub data OpensNew (s : Fs) (name : CString) (r : ℤ × Fs) : Type 0 where
  no_inode : r ≡ (minus_one, s) → OpensNew s name r
  no_entry :
      (i : ℕ)
      → s.freeinode_ts i ≡ free
      → r ≡ (minus_one, set_freeinode (with_file s i) i free)
      → OpensNew s name r
  made :
      (i : ℕ)
      → i < inode_table_size
      → s.freeinode_ts i ≡ free
      → is_minus_one (add_dir_entry (pos root_dir_inum) (pos i) (drop 1 name) (with_file s i)).0
        ≡ false
      → r
        ≡ add_to_open_file_table
            (pos i)
            0
            (add_dir_entry (pos root_dir_inum) (pos i) (drop 1 name) (with_file s i)).1
      → OpensNew s name r

-- Creating a file fails and leaves the tables as they were; or it fails and gives back an i-node
-- that was free and was made an empty file; or the file is made with an entry, and then the table
-- of handles decides the result.
pub open_new-OpensNew : (s : Fs) (name : CString) → OpensNew s name (open_new name s)
unfolding open_new
open_new-OpensNew s name = elim (inode_create-CreatesFile s) [
  | no_free_inode e taken_all ↦ no_inode (ground (arith, e))
  | created i lt f low e ↦
      elim (add_dir_entry-Adds (with_file s i) (pos root_dir_inum) (pos i) (drop 1 name)) [
        | refused e' ↦ no_entry i f (ground (arith, e, e', inode_delete-with_file s i lt))
        | added base k at e' ↦ made i lt f (ground (arith, e')) (ground (arith, e, e'))
      ]
]
