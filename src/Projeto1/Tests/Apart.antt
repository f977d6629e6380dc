-- ===== src/Projeto1/Tests/Apart.antt =====
-- The theorem on the states that calls reach.
use projeto_sistemas_operati.Projeto1.Types.{Fs}
use projeto_sistemas_operati.Projeto1.Operations.{
  valid_pathname, open_new, tfs_lookup, tfs_open, tfs_close, tfs_init,
}
use projeto_sistemas_operati.Base.{
  none, some, false, is_minus_one, minus_one, find_first, true, arith, refl, ◌≢◌, [], ◌∷◌, ℕ, ◌≡◌,
  pos, ℤ,
}
use projeto_sistemas_operati.Projeto1.Tests.{five_bytes}
use projeto_sistemas_operati.Projeto2.Types.{has_flag, tfs_o_creat, tfs_o_trunc}
use projeto_sistemas_operati.Projeto1.Invariant.{Inv}
use projeto_sistemas_operati.Memory.{
  strncmp_eq, strncpy, to_word, word_at, from_word, store_int, load_int, CString,
}
use projeto_sistemas_operati.Projeto1.Handles.{add_to_open_file_table}
use projeto_sistemas_operati.Projeto1.Invariant.Calls.{none_yet, tfs_init-Calls}
use projeto_sistemas_operati.Projeto1.Operations.Separate.{IsFile}
use projeto_sistemas_operati.Projeto1.Invariant.Racing.{OpenStep-race}
use projeto_sistemas_operati.Projeto1.Invariant.Interleaved.{OpenSteps-keeps}
use projeto_sistemas_operati.Projeto2.Invariant.{Names}
use projeto_sistemas_operati.Projeto1.Operations.Racing.{
  Openers, OpenStep, OpenSteps, at_entry, to_create, returned, look_up, take_lock, with_lock,
  looked_up, to_open, then_step, not_begun, locks, looks_up,
}
use projeto_sistemas_operati.Projeto1.Directory.{add_to_block, add_dir_entry, find_in_dir}
use projeto_sistemas_operati.Projeto2.Directory.{
  fill_entry, clear_entries, entry_is_empty, entry_matches, find_in_block,
}
use projeto_sistemas_operati.Projeto1.Inodes.{state_init, init_directory, init_inode, inode_create}
use projeto_sistemas_operati.Projeto1.Blocks.{data_block_alloc}
use projeto_sistemas_operati.Projeto2.Blocks.{data_block_get}

abbrev path_f : CString
path_f = b'/' ∷ b'f' ∷ []

-- A file is created and closed, and opened again with O_TRUNC.
abbrev closed : Fs
closed = (tfs_close (pos 0) (tfs_open path_f tfs_o_creat (tfs_init five_bytes).1).1).1

abbrev reopened : Fs
reopened = (tfs_open path_f tfs_o_trunc closed).1

-- Both openings of a new path have looked it up before either creates it.
abbrev new_system : Fs
new_system = (tfs_init five_bytes).1

abbrev created_once : Fs
created_once = (open_new path_f new_system).1

abbrev created_twice : Fs
created_twice = (open_new path_f created_once).1

path_f-valid : valid_pathname path_f ≡ true
unfolding valid_pathname
path_f-valid = refl

path_f_missing : tfs_lookup path_f new_system ≡ minus_one
unfolding tfs_lookup valid_pathname find_in_dir find_in_block entry_matches entry_is_empty tfs_init
    inode_create init_inode init_directory data_block_alloc data_block_get state_init find_first
    clear_entries load_int store_int from_word word_at to_word
path_f_missing = refl

once_created : is_minus_one (open_new path_f new_system).0 ≡ false
unfolding tfs_lookup valid_pathname find_in_dir find_in_block entry_matches entry_is_empty tfs_init
    inode_create init_inode init_directory data_block_alloc data_block_get state_init find_first
    clear_entries load_int store_int from_word word_at to_word open_new add_dir_entry add_to_block
    add_to_open_file_table fill_entry strncpy strncmp_eq
once_created = refl

twice_created : is_minus_one (open_new path_f created_once).0 ≡ false
unfolding tfs_lookup valid_pathname find_in_dir find_in_block entry_matches entry_is_empty tfs_init
    inode_create init_inode init_directory data_block_alloc data_block_get state_init find_first
    clear_entries load_int store_int from_word word_at to_word open_new add_dir_entry add_to_block
    add_to_open_file_table fill_entry strncpy strncmp_eq
twice_created = refl

abbrev two_openers : Openers
two_openers = record { fs = new_system; holder = none; phase = λ i. at_entry }

OpenStep-race_example :
    (x y z : Openers) × (a b h g : ℕ) × OpenSteps path_f tfs_o_creat two_openers x
    × (x.fs ≡ new_system)
    × OpenStep path_f tfs_o_creat 0 x y
    × (y.phase 0 ≡ returned (pos h))
    × (y.phase 1 ≡ to_create)
    × (tfs_lookup path_f y.fs ≡ pos a)
    × OpenStep path_f tfs_o_creat 1 y z
    × (z.phase 1 ≡ returned (pos g))
    × (a ≢ b)
    × IsFile z.fs a
    × IsFile z.fs b
    × ((z.fs.open_file_table h).of_inumber ≡ pos a)
    × ((z.fs.open_file_table g).of_inumber ≡ pos b)
unfolding has_flag
OpenStep-race_example =
    OpenStep-race path_f tfs_o_creat 0 1 two_openers (λ e. absurd (omega (arith, e))) refl refl refl
      (tfs_init-Calls five_bytes new_system none_yet).0 path_f-valid
      ((λ e. absurd (omega (arith, e))), tt) (omega arith) refl path_f_missing once_created
      twice_created

-- One of them has made its lookup under the lock.
abbrev first_looked : Openers
first_looked = look_up path_f 0 (take_lock 0 two_openers)

OpenSteps-keeps_example :
    Inv first_looked.fs
    × ((i : ℕ) → first_looked.phase i ≡ with_lock → first_looked.holder ≡ some i)
    × ((i : ℕ) (inum : ℤ)
        → first_looked.phase i ≡ looked_up inum
        → (first_looked.holder ≡ some i) × (tfs_lookup path_f first_looked.fs ≡ inum))
    × ((i : ℕ) (inum : ℤ)
        → first_looked.phase i ≡ to_open inum
        → Names first_looked.fs.freeinode_ts inum)
unfolding take_lock
OpenSteps-keeps_example =
    OpenSteps-keeps path_f tfs_o_creat two_openers first_looked
      (tfs_init-Calls five_bytes new_system none_yet).0 (λ i. refl)
      (then_step 0 (then_step 0 not_begun (locks refl path_f-valid refl refl))
        (looks_up refl refl refl))
