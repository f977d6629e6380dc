-- ===== src/Projeto2/Api/Shutdown.antt =====
-- fs/operations.c: `tfs_destroy_after_all_closed` and the calls that run beside it. A call's part
-- under the lock is one step; an opening tests `can_open_files` before it takes the lock, in a step
-- of its own. The lock itself does not fail here.
use projeto_sistemas_operati.Projeto2.Api.{unlocked, Locking, open_counted, Tfs, close_counted}
use projeto_sistemas_operati.Base.{
  minus_one, is_minus_one, sym, inr, inl, suc, ap, Bool-cases, true, refl, ◌∙◌, false,
  if◌then◌else◌, ℕ, ℤ, ◌≡◌, pos, is_zero, arith,
}
use projeto_sistemas_operati.Projeto2.Invariant.{open_handles, TfsInv}
use projeto_sistemas_operati.Projeto2.Api.Counter.{close_counted-TfsInv, open_counted-TfsInv}
use projeto_sistemas_operati.Projeto2.Invariant.Counter.{open_handles-remove}
use projeto_sistemas_operati.Memory.{CString}
use projeto_sistemas_operati.Projeto2.Operations.{open_unsynchronized}

-- Where `tfs_destroy_after_all_closed` is: not called, in its loop of waiting, or past it.
pub data Destroyer : Type 0 where
  not_called waiting_for_all past_wait : Destroyer

-- The files, the destroyer, and how many openings have passed the test and not yet the lock.
pub record Shutdown : Type 0 where
  pub tfs : Tfs
  pub destroyer : Destroyer
  pub passed : ℕ

-- The test of the loop, as the destroyer runs it under the lock.
unfoldable pub test_all_closed : Tfs → Destroyer
test_all_closed t = if is_zero t.open_files then past_wait else waiting_for_all

-- `tfs_destroy_after_all_closed` up to its first test.
unfoldable pub begin_destroy : Shutdown → Shutdown
begin_destroy w =
    let t = record (w.tfs) { can_open_files = pos 0 } in
    record w { tfs = t; destroyer = test_all_closed t }

-- What `tfs_destroy_after_all_closed` returns, once its waiting is over; it does not use the result of
-- `tfs_destroy`.
unfoldable pub destroy_result : Locking → ℤ
destroy_result l = if is_zero l.lock then unlocked l (pos 0) else minus_one

-- A step of one of the threads. A waiting destroyer tests again when it wakes, signalled or not.
pub data ShutdownStep (w : Shutdown) : Shutdown → Type 0 where
  passes :
      is_zero w.tfs.can_open_files ≡ false → ShutdownStep w (record w { passed = suc w.passed })
  opens_counted :
      {n : ℕ} (name : CString) (flags : ℕ)
      → w.passed ≡ suc n
      → ShutdownStep w (record w { tfs = (open_counted name flags w.tfs).1; passed = n })
  closes_counted :
      (fhandle : ℤ) → ShutdownStep w (record w { tfs = (close_counted fhandle w.tfs).1 })
  begins : w.destroyer ≡ not_called → ShutdownStep w (begin_destroy w)
  wakes :
      w.destroyer ≡ waiting_for_all
      → ShutdownStep w (record w { destroyer = test_all_closed w.tfs })

-- Every step keeps the tables well formed and the counter right.
pub ShutdownStep-TfsInv : {w u : Shutdown} → ShutdownStep w u → TfsInv w.tfs → TfsInv u.tfs
unfolding begin_destroy
ShutdownStep-TfsInv (passes e) v = v
ShutdownStep-TfsInv {w} (opens_counted name flags e) v = open_counted-TfsInv name flags w.tfs v
ShutdownStep-TfsInv {w} (closes_counted fhandle) v = close_counted-TfsInv fhandle w.tfs v
ShutdownStep-TfsInv (begins e) v = record { tables = v.tables; counter = v.counter }
ShutdownStep-TfsInv (wakes e) v = v

-- The shutdown has begun and no opening is between its test and the lock.
pub record Closing (w : Shutdown) : Type 0 where
  pub inv : TfsInv w.tfs
  pub shut : w.tfs.can_open_files ≡ pos 0
  pub none_passed : w.passed ≡ 0
  pub all_closed : w.destroyer ≡ past_wait → open_handles w.tfs.fs ≡ 0

test-all_closed : (t : Tfs) → TfsInv t → test_all_closed t ≡ past_wait → open_handles t.fs ≡ 0
unfolding test_all_closed
test-all_closed t v e = elim (Bool-cases (is_zero t.open_files)) [
  | inl z ↦ ground (arith, v.counter, z)
  | inr nz ↦
      (let waits : test_all_closed t ≡ waiting_for_all = ground (arith, nz) in
        absurd (cc (sym e ∙ waits)))
]

close_counted-can_open :
    (fhandle : ℤ) (t : Tfs) → (close_counted fhandle t).1.can_open_files ≡ t.can_open_files
unfolding close_counted
close_counted-can_open fhandle t = refl

close-less :
    (fhandle : ℤ) (t : Tfs)
    → open_handles t.fs ≡ 0
    → open_handles (close_counted fhandle t).1.fs ≡ 0
unfolding close_counted
close-less fhandle t e = ground (arith, open_handles-remove fhandle t.fs)

ShutdownStep-Closing : {w u : Shutdown} → ShutdownStep w u → Closing w → Closing u
unfolding begin_destroy
ShutdownStep-Closing (passes e) c = absurd (ground (arith, e, c.shut))
ShutdownStep-Closing (opens_counted name flags e) c = absurd (ground (arith, e, c.none_passed))
ShutdownStep-Closing {w} (closes_counted fhandle) c = record {
  inv = close_counted-TfsInv fhandle w.tfs c.inv;
  shut = close_counted-can_open fhandle w.tfs ∙ c.shut;
  none_passed = c.none_passed;
  all_closed = λ d. close-less fhandle w.tfs (c.all_closed d);
}
ShutdownStep-Closing {w} (begins e) c =
    let v : TfsInv (begin_destroy w).tfs = ShutdownStep-TfsInv {w = w} (begins e) c.inv in
    record {
      inv = v;
      shut = refl;
      none_passed = c.none_passed;
      all_closed = test-all_closed (begin_destroy w).tfs v;
    }
ShutdownStep-Closing {w} (wakes e) c = record {
  inv = c.inv;
  shut = c.shut;
  none_passed = c.none_passed;
  all_closed = test-all_closed w.tfs c.inv;
}

pub data ShutdownReach (w : Shutdown) : Shutdown → Type 0 where
  here : ShutdownReach w w
  next : {u x : Shutdown} → ShutdownReach w u → ShutdownStep u x → ShutdownReach w x

Reach-Closing : {w u : Shutdown} → ShutdownReach w u → Closing w → Closing u
Reach-Closing here c = c
Reach-Closing (next r st) c = ShutdownStep-Closing st (Reach-Closing r c)

-- Where tfs_destroy_after_all_closed begins in a state with well-formed tables and a right
-- counter, and no opening is then between its test of can_open_files and the lock: whatever steps
-- follow, the destroyer is past its waiting only where no handle is in use, and no opening can
-- pass its test.
pub begin_destroy-Reach :
    (w u : Shutdown)
    → TfsInv w.tfs
    → w.destroyer ≡ not_called
    → w.passed ≡ 0
    → ShutdownReach (begin_destroy w) u
    → (is_zero u.tfs.can_open_files ≡ true) × (u.destroyer ≡ past_wait → open_handles u.tfs.fs ≡ 0)
unfolding begin_destroy
begin_destroy-Reach w u v d p steps =
    let t : Tfs = (begin_destroy w).tfs in
    let inv : TfsInv t = ShutdownStep-TfsInv {w = w} (begins d) v in
    let c : Closing u =
      Reach-Closing steps
        (record { inv = inv; shut = refl; none_passed = p; all_closed = test-all_closed t inv }) in
    (ap is_zero c.shut, c.all_closed)

-- Where tfs_destroy_after_all_closed begins while no file is open and one opening, which would
-- succeed, is between its test of can_open_files and the lock, a file can be open once the
-- destroyer is past its waiting.
pub begin_destroy-race :
    (w : Shutdown) (name : CString) (flags : ℕ)
    → w.tfs.open_files ≡ pos 0
    → w.passed ≡ 1
    → is_minus_one (open_unsynchronized name flags w.tfs.fs).0 ≡ false
    → (u : Shutdown) × ShutdownReach (begin_destroy w) u
      × (u.destroyer ≡ past_wait)
      × (u.tfs.open_files ≡ pos 1)
unfolding begin_destroy test_all_closed open_counted
begin_destroy-race w name flags closed p succeeds = (
  record (begin_destroy w) { tfs = (open_counted name flags (begin_destroy w).tfs).1; passed = 0 },
  next here (opens_counted name flags p),
  ground (arith, closed),
  ground (arith, closed, succeeds),
)
