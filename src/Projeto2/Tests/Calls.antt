-- ===== src/Projeto2/Tests/Calls.antt =====
-- The theorems on the API's calls at a run that starts it, opens a file and closes it.
use projeto_sistemas_operati.Projeto2.Api.{
  tfs_write, open_counted, tfs_close, tfs_open, Locking, tfs_init, Tfs, Setup,
}
use projeto_sistemas_operati.Projeto2.Invariant.{TfsInv}
use projeto_sistemas_operati.Projeto2.Api.Steps.{
  writes, closes, here, next, opens, Step-TfsInv, tfs_init-Reach,
}
use projeto_sistemas_operati.Projeto2.Api.Counter.{tfs_init-TfsInv}
use projeto_sistemas_operati.Base.{find_first, arith, refl, pos}
use projeto_sistemas_operati.Projeto2.Tests.{hello, path_f, zeroed}
use projeto_sistemas_operati.Projeto2.Directory.{
  fill_entry, add_to_block, entry_is_empty, entry_matches, find_in_block, find_in_dir,
  clear_entries, add_dir_entry,
}
use projeto_sistemas_operati.Projeto2.Types.{tfs_o_creat}
use projeto_sistemas_operati.Projeto2.Operations.{
  advance_write, ensure_block, clip_write, write_block, write_unsynchronized, truncate,
  open_existing, open_new, valid_pathname, lookup_unsynchronized, open_unsynchronized, init_fs,
}
use projeto_sistemas_operati.Projeto2.Inodes.{
  inode_get, state_init, init_directory, init_inode, inode_create,
}
use projeto_sistemas_operati.Projeto2.Blocks.{data_block_get, data_block_free, data_block_alloc}
use projeto_sistemas_operati.Memory.{
  memcpy, strncmp_eq, strncpy, from_word, word_at, load_int, to_word, store_int,
}
use projeto_sistemas_operati.Projeto2.Handles.{get_open_file_entry, add_to_open_file_table}
use projeto_sistemas_operati.Projeto2.Operations.Writing.{Opened}

abbrev setup : Setup
setup = record { mutex_init = pos 0; cond_init = pos 0 }

abbrev locking : Locking
locking = record { lock = pos 0; unlock = pos 0 }

abbrev started : Tfs
started = (tfs_init setup zeroed).1

abbrev with_open_file : Tfs
with_open_file = (tfs_open locking path_f tfs_o_creat started).1

abbrev with_bytes : Tfs
with_bytes = (tfs_write locking (pos 0) hello 5 with_open_file).1

abbrev all_closed : Tfs
all_closed = (tfs_close locking (pos 0) with_bytes).1

only_handle : Opened with_open_file.fs (pos 0) 0 1
unfolding tfs_init tfs_open open_counted init_fs inode_create init_inode init_directory
    data_block_alloc data_block_free data_block_get clear_entries store_int to_word find_first
    state_init open_unsynchronized lookup_unsynchronized valid_pathname find_in_dir find_in_block
    entry_matches entry_is_empty load_int word_at from_word open_new open_existing truncate
    inode_get add_dir_entry add_to_block fill_entry strncpy strncmp_eq add_to_open_file_table
    get_open_file_entry write_unsynchronized write_block clip_write ensure_block advance_write
    memcpy
only_handle = record { is_handle = refl; below = omega arith; in_use = refl; file = refl }

started-TfsInv : TfsInv started
started-TfsInv = (tfs_init-TfsInv setup zeroed refl refl).1

Step-TfsInv_example : TfsInv with_open_file
Step-TfsInv_example = Step-TfsInv (opens locking path_f tfs_o_creat) started-TfsInv

tfs_init-Reach_example : TfsInv all_closed
tfs_init-Reach_example = tfs_init-Reach setup zeroed all_closed refl refl (
    next
      (next (next here (opens locking path_f tfs_o_creat))
        (writes locking (pos 0) hello 5 only_handle (omega arith)))
      (closes locking (pos 0)))
