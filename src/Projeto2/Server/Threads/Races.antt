-- ===== src/Projeto2/Server/Threads/Races.antt =====
-- What the missing lock of the main loop comes to: requests that are lost.
use projeto_sistemas_operati.Projeto2.Server.Threads.{
  works, tests, falls_asleep, clears, fills, allocates, ThreadStep, MainStep, at_test, after_work,
  allocated, main_crashed, woken, before_wait, asleep, allocate, listening, clear_request,
  test_buffer, buffer_of, Threads, fill_request,
}
use projeto_sistemas_operati.Base.{
  true, false, inl, ap, update, sym, ◌∙◌, update_self, refl, some, none, ◌≡◌, Option, ℕ,
}
use projeto_sistemas_operati.Memory.{Mem}
use projeto_sistemas_operati.Projeto2.Server.Threads.Progress.{
  dispatch-Returns, Resting-other, Resting-own, Resting,
}
use projeto_sistemas_operati.Projeto2.Server.Threads.Runs.{
  Called, here, cleared_request, MainStep-Untouched, worked, slept, main_step, found_request,
  ThreadStep-Untouched, thread_step, ThreadStep-Moves, found_none, own_step, Moves, Run, Local,
}
use projeto_sistemas_operati.Projeto2.Api.{Locking}
use projeto_sistemas_operati.Projeto2.Server.Workers.{ServerState}
use projeto_sistemas_operati.Projeto2.Server.Threads.Taking.{
  fill_request-server, fill_request-crash, clear_request-Local, fill_request-Local,
  test_buffer-Local, allocate-Local,
}

asleep-own : {i : ℕ} {u x : Threads} → u.phase i ≡ asleep → ¬ Moves i u x
asleep-own p (found_none q r local) = cc (sym p ∙ q)
asleep-own p (found_request c q r local) = cc (sym p ∙ q)
asleep-own p (slept q local) = cc (sym p ∙ q)
asleep-own p (worked c q r h local) = cc (sym p ∙ q)
asleep-own p (cleared_request q local) = cc (sym p ∙ q)

Run-asleep :
    {i : ℕ} {b : Option Mem} {w : Threads} {n : ℕ} {u : Threads}
    → Local w i asleep b
    → Run i w n u
    → (n ≡ 0) × Local u i asleep b
Run-asleep at here = (refl, at)
Run-asleep {i} at (own_step {n} {u} {x} r st) =
    absurd (asleep-own (Run-asleep at r).1.0 (ThreadStep-Moves i u x st))
Run-asleep {i} at (thread_step {n} {u} {x} j ne r st) =
    let (z, (p, e)) = Run-asleep at r in
    let (q, f) = ThreadStep-Untouched u x i j ne st in (z, (q ∙ p, f ∙ e))
Run-asleep {i} at (main_step {n} {u} {x} j ne r st) =
    let (z, (p, e)) = Run-asleep at r in
    let (q, f) = MainStep-Untouched u x i j ne st in (z, (q ∙ p, f ∙ e))

Run-Resting :
    {i : ℕ} {w : Threads} {n : ℕ} {u : Threads} → Resting w i → Run i w n u → buffer_of u i ≡ none
Run-Resting {i} {w} at r = (rests at r).0
  where
    rests : {n : ℕ} {u : Threads} → Resting w i → Run i w n u → Resting u i
    rests at here = at
    rests at (own_step {n} {u} {x} r st) =
        Resting-own i u x (rests at r) (ThreadStep-Moves i u x st)
    rests at (thread_step {n} {u} {x} j ne r st) =
        Resting-other i u x (rests at r) (ThreadStep-Untouched u x i j ne st)
    rests at (main_step {n} {u} {x} j ne r st) =
        Resting-other i u x (rests at r) (MainStep-Untouched u x i j ne st)

-- Where the thread of a session has found no request and does not wait yet, the main loop can
-- store a request of any content and signal, and the thread then falls asleep: in every run from
-- there in which the main loop takes up nothing for the session, the thread makes no step and the
-- request stays; a thread wakes only where it is signalled.
pub signal-lost :
    (i : ℕ) (fresh m : Mem) (w : Threads)
    → w.main ≡ listening
    → Local w i before_wait none
    → (v x u : Threads) × MainStep i w v
      × MainStep i v x
      × ThreadStep i x u
      × ((n : ℕ) (y : Threads) → Run i u n y → (n ≡ 0) × Local y i asleep (some m))
unfolding woken
signal-lost i fresh m w e local =
    let v : Threads = allocate i fresh m w in
    let x : Threads = fill_request i m v in
    let u : Threads = record x { phase = update x.phase i asleep } in
    let (at_v, main_v) = allocate-Local i w fresh m local in
    let (at_x, main_x) = fill_request-Local i v m at_v in
    (
      v,
      x,
      u,
      allocates fresh m e refl,
      fills m main_v refl,
      falls_asleep at_x.0 refl,
      λ n y r. Run-asleep (update_self x.phase i asleep, at_x.1) r,
    )

-- Where the worker of a request has returned to its thread, the main loop can store the next
-- request of the session before the thread clears thread_buffer; the thread then frees it. The
-- file system and the replies are as before, and in every run from there in which the main loop
-- takes up nothing for the session, it has no request.
pub request-lost :
    (i : ℕ) (fresh m b : Mem) (w : Threads)
    → w.main ≡ listening
    → Local w i after_work (some b)
    → (v x u : Threads) × MainStep i w v
      × MainStep i v x
      × ThreadStep i x u
      × (u.server.tfs ≡ w.server.tfs)
      × (u.server.sent ≡ w.server.sent)
      × ((n : ℕ) (y : Threads) → Run i u n y → buffer_of y i ≡ none)
unfolding woken allocate clear_request
request-lost i fresh m b w e local =
    let v : Threads = allocate i fresh m w in
    let x : Threads = fill_request i m v in
    let u : Threads = clear_request i x in
    let (at_v, main_v) = allocate-Local i w fresh m local in
    let (at_x, main_x) = fill_request-Local i v m at_v in
    let (at_u, main_u) = clear_request-Local i x in
    let same = fill_request-server i v m at_v in
    (
      v,
      x,
      u,
      allocates fresh m e refl,
      fills m main_v refl,
      clears at_x.0 refl,
      ap (λ s. s.tfs) same,
      ap (λ s. s.sent) same,
      λ n y r. Run-Resting (at_u.1, inl at_u.0) r,
    )

-- Where the thread of a session without a request is before its test of thread_buffer, and
-- table_lock is not held: once the main loop has a new buffer for the session, the thread can take
-- it for a request before it is filled; its next step is that of the worker on what malloc left in
-- it, and then it clears thread_buffer; the main loop then writes through NULL.
pub unfilled-crashes :
    (l : Locking) (i : ℕ) (fresh m : Mem) (w : Threads)
    → w.main ≡ listening
    → Local w i at_test none
    → w.server.sessions.table_lock ≡ false
    → (v x y z u : Threads) × MainStep i w v
      × ThreadStep i v x
      × ThreadStep i x y
      × ThreadStep i y z
      × MainStep i z u
      × Called i fresh x y
      × (u.main ≡ main_crashed)
unfolding allocate clear_request
unfilled-crashes l i fresh m w e local free_lock =
    let v : Threads = allocate i fresh m w in
    let (at_v, main_v) = allocate-Local i w fresh m local in
    let x : Threads = test_buffer i v in
    let (at_x, main_x, same) = test_buffer-Local i v at_v in
    let (s, d) =
      dispatch-Returns l true (λ k. 0) i fresh x.server
        (ap (λ (t : ServerState). t.sessions.table_lock) same ∙ free_lock) in
    let y : Threads = record x { server = s; phase = update x.phase i after_work } in
    let z : Threads = clear_request i y in
    let main_z : z.main ≡ allocated i m = main_x ∙ main_v in
    (
      v,
      x,
      y,
      z,
      fill_request i m z,
      allocates fresh m e refl,
      tests at_v.0 refl,
      works l true (λ k. 0) fresh s at_x.0 at_x.1 d refl,
      clears (update_self x.phase i after_work) refl,
      fills m main_z refl,
      record {
        at_worker = at_x.0;
        with_it = at_x.1;
        locking = l;
        written = true;
        content = λ k. 0;
        worked_to = d;
      },
      fill_request-crash i m z (clear_request-Local i y).0.1,
    )
