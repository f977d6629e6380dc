-- ===== src/Projeto1/Operations/Racing.antt =====
-- fs/operations.c, several threads in `tfs_open` with `inode_table_lock`. The taking of this lock,
-- the lookup, the giving back, the work on a file found and the creation are a step each; the
-- creation, whose functions take the lock one after the other, begins where the lock is free. The
-- rwlock of an i-node is left out, and each thread makes one call.
use projeto_sistemas_operati.Memory.{CString}
use projeto_sistemas_operati.Projeto1.Types.{Fs}
use projeto_sistemas_operati.Projeto1.Inodes.{inode_create}
use projeto_sistemas_operati.Projeto1.Operations.{
  open_existing, open_new, tfs_lookup, valid_pathname,
}
use projeto_sistemas_operati.Projeto2.Types.{has_flag, t_file, tfs_o_creat}
use projeto_sistemas_operati.Base.{
  false, true, ◌≡◌, ℤ, ℕ, Option, Array, none, some, update, minus_one, is_minus_one, is_nonneg,
  if◌then◌else◌,
}

-- Where a thread is in `tfs_open`: before the lock, after it was taken, after the lookup with what it
-- found, on its way to the file found or to the creation of one, after the return.
pub data OpenPhase : Type 0 where
  at_entry with_lock to_create : OpenPhase
  looked_up to_open returned : ℤ → OpenPhase

-- `holder` is the thread that has `inode_table_lock`.
pub record Openers : Type 0 where
  pub fs : Fs
  pub holder : Option ℕ
  pub phase : Array OpenPhase

unfoldable pub refuse : ℕ → Openers → Openers
refuse i w = record w { phase = update w.phase i (returned minus_one) }

unfoldable pub take_lock : ℕ → Openers → Openers
take_lock i w = record w { holder = some i; phase = update w.phase i with_lock }

unfoldable pub look_up : CString → ℕ → Openers → Openers
look_up name i w = record w { phase = update w.phase i (looked_up (tfs_lookup name w.fs)) }

-- Where a thread goes with what its lookup has found.
unfoldable pub after_lookup : ℕ → ℤ → OpenPhase
after_lookup flags inum =
    if is_nonneg inum
    then to_open inum
    else if has_flag flags tfs_o_creat
    then to_create
    else returned minus_one

-- Every branch gives the lock back before it goes on.
unfoldable pub give_back : ℕ → ℤ → ℕ → Openers → Openers
give_back flags inum i w = record w {
  holder = none;
  phase = update w.phase i (after_lookup flags inum);
}

unfoldable pub open_found : ℕ → ℤ → ℕ → Openers → Openers
open_found flags inum i w =
    let (r, s) = open_existing inum flags w.fs in
    record w { fs = s; phase = update w.phase i (returned r) }

-- `inode_create` takes the lock again, and keeps it where it fails.
unfoldable pub create_missing : CString → ℕ → Openers → Openers
create_missing name i w =
    let (r, s) = open_new name w.fs in
    record {
      fs = s;
      holder = if is_minus_one (inode_create t_file w.fs).0 then some i else none;
      phase = update w.phase i (returned r);
    }

-- A step of the thread `i` in `tfs_open (name, flags)`.
pub data OpenStep (name : CString) (flags i : ℕ) (w u : Openers) : Type 0 where
  refuses :
      w.phase i ≡ at_entry
      → valid_pathname name ≡ false
      → u ≡ refuse i w
      → OpenStep name flags i w u
  locks :
      w.phase i ≡ at_entry
      → valid_pathname name ≡ true
      → w.holder ≡ none
      → u ≡ take_lock i w
      → OpenStep name flags i w u
  looks_up :
      w.phase i ≡ with_lock → w.holder ≡ some i → u ≡ look_up name i w → OpenStep name flags i w u
  gives_back :
      (inum : ℤ)
      → w.phase i ≡ looked_up inum
      → w.holder ≡ some i
      → u ≡ give_back flags inum i w
      → OpenStep name flags i w u
  opens_found :
      (inum : ℤ)
      → w.phase i ≡ to_open inum
      → u ≡ open_found flags inum i w
      → OpenStep name flags i w u
  creates :
      w.phase i ≡ to_create
      → w.holder ≡ none
      → u ≡ create_missing name i w
      → OpenStep name flags i w u

-- The threads are all in `tfs_open` with the same path and flags.
pub data OpenSteps (name : CString) (flags : ℕ) (w : Openers) : Openers → Type 0 where
  not_begun : OpenSteps name flags w w
  then_step :
      {u x : Openers} (i : ℕ)
      → OpenSteps name flags w u
      → OpenStep name flags i u x
      → OpenSteps name flags w x
