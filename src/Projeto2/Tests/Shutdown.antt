-- ===== src/Projeto2/Tests/Shutdown.antt =====
-- The theorems on the shutdown, with a file open and with an opening under way.
use projeto_sistemas_operati.Projeto2.Api.Shutdown.{
  waiting_for_all, wakes, closes_counted, here, next, begin_destroy-Reach, begin_destroy-race,
  past_wait, ShutdownReach, not_called, test_all_closed, begin_destroy, Shutdown,
}
use projeto_sistemas_operati.Projeto2.Api.{
  open_counted, tfs_open, close_counted, Locking, Tfs, tfs_init,
}
use projeto_sistemas_operati.Base.{false, is_minus_one, find_first, refl, true, pos, ◌≡◌, is_zero}
use projeto_sistemas_operati.Projeto2.Invariant.{open_handles, TfsInv}
use projeto_sistemas_operati.Projeto2.Operations.{
  advance_write, ensure_block, clip_write, write_block, write_unsynchronized, truncate,
  open_existing, open_new, valid_pathname, lookup_unsynchronized, open_unsynchronized, init_fs,
}
use projeto_sistemas_operati.Projeto2.Api.Counter.{tfs_init-TfsInv, tfs_open-TfsInv}
use projeto_sistemas_operati.Projeto2.Tests.{zeroed, path_f}
use projeto_sistemas_operati.Projeto2.Inodes.{
  inode_get, state_init, init_directory, init_inode, inode_create,
}
use projeto_sistemas_operati.Projeto2.Types.{tfs_o_creat}
use projeto_sistemas_operati.Projeto2.Blocks.{data_block_get, data_block_free, data_block_alloc}
use projeto_sistemas_operati.Projeto2.Directory.{
  fill_entry, add_to_block, add_dir_entry, entry_is_empty, entry_matches, find_in_block,
  find_in_dir, clear_entries,
}
use projeto_sistemas_operati.Memory.{
  memcpy, strncmp_eq, strncpy, from_word, word_at, load_int, to_word, store_int,
}
use projeto_sistemas_operati.Projeto2.Handles.{get_open_file_entry, add_to_open_file_table}

abbrev locking : Locking
locking = record { lock = pos 0; unlock = pos 0 }

abbrev started : Tfs
started = (tfs_init (record { mutex_init = pos 0; cond_init = pos 0 }) zeroed).1

abbrev with_open_file : Tfs
with_open_file = (tfs_open locking path_f tfs_o_creat started).1

with_open_file-TfsInv : TfsInv with_open_file
with_open_file-TfsInv =
    tfs_open-TfsInv locking path_f tfs_o_creat started
      (tfs_init-TfsInv (record { mutex_init = pos 0; cond_init = pos 0 }) zeroed refl refl).1

-- The destroyer begins while a file is open; the file is closed; the destroyer wakes.
abbrev before : Shutdown
before = record { tfs = with_open_file; destroyer = not_called; passed = 0 }

abbrev closed : Shutdown
closed = record (begin_destroy before) {
  tfs = (close_counted (pos 0) (begin_destroy before).tfs).1;
}

abbrev woken : Shutdown
woken = record closed { destroyer = test_all_closed closed.tfs }

is_waiting : closed.destroyer ≡ waiting_for_all
unfolding begin_destroy test_all_closed tfs_init tfs_open open_counted init_fs inode_create
    init_inode init_directory data_block_alloc data_block_free data_block_get clear_entries
    store_int to_word find_first state_init open_unsynchronized lookup_unsynchronized valid_pathname
    find_in_dir find_in_block entry_matches entry_is_empty load_int word_at from_word open_new
    open_existing truncate inode_get add_dir_entry add_to_block fill_entry strncpy strncmp_eq
    add_to_open_file_table get_open_file_entry write_unsynchronized write_block clip_write
    ensure_block advance_write memcpy
is_waiting = refl

begin_destroy-Reach_example :
    (is_zero woken.tfs.can_open_files ≡ true)
    × (woken.destroyer ≡ past_wait → open_handles woken.tfs.fs ≡ 0)
begin_destroy-Reach_example =
    begin_destroy-Reach before woken with_open_file-TfsInv refl refl
      (next (next here (closes_counted (pos 0))) (wakes is_waiting))

-- No file is open, and an opening has passed its test.
abbrev opening : Shutdown
opening = record { tfs = started; destroyer = not_called; passed = 1 }

nothing_open : opening.tfs.open_files ≡ pos 0
unfolding tfs_init init_fs
nothing_open = refl

would_succeed : is_minus_one (open_unsynchronized path_f tfs_o_creat opening.tfs.fs).0 ≡ false
unfolding tfs_init init_fs inode_create init_inode init_directory data_block_alloc data_block_free
    data_block_get clear_entries store_int to_word find_first state_init open_unsynchronized
    lookup_unsynchronized valid_pathname find_in_dir find_in_block entry_matches entry_is_empty
    load_int word_at from_word open_new open_existing truncate inode_get add_dir_entry add_to_block
    fill_entry strncpy strncmp_eq add_to_open_file_table get_open_file_entry write_unsynchronized
    write_block clip_write ensure_block advance_write memcpy
would_succeed = refl

begin_destroy-race_example :
    (u : Shutdown) × ShutdownReach (begin_destroy opening) u
    × (u.destroyer ≡ past_wait)
    × (u.tfs.open_files ≡ pos 1)
begin_destroy-race_example =
    begin_destroy-race opening path_f tfs_o_creat nothing_open refl would_succeed
