-- ===== src/Projeto2/Server/Threads/Progress.antt =====
-- A request that its thread is awake for is served.
use mathlib.Core.Option
use projeto_sistemas_operati.Projeto2.Server.Workers.{
  is_code, ServerState, worker_unmount, dispatch,
}
use projeto_sistemas_operati.Base.{
  dec_le, subst, inr, sym, inl, arith, ◌<◌, ◌∙◌, ◌≤◌, zero, refl, suc, ◌⊎◌, ℤ, true, some, none,
  false, if◌then◌else◌, ◌≡◌, Array, Option, Bool, ℕ,
}
use projeto_sistemas_operati.Projeto2.Server.Threads.{
  clears, clear_request, works, tests, test_buffer, ThreadStep, asleep, before_wait, after_work,
  at_work, at_test, buffer_of, Threads,
}
use projeto_sistemas_operati.Projeto2.Api.{Locking}
use projeto_sistemas_operati.Memory.{load_int, Mem}
use projeto_sistemas_operati.Projeto2.Server.Threads.Runs.{
  Called, OwnStepIn, Untouched, main_step, thread_step, own_step, MainStep-Untouched, worked,
  ThreadStep-Untouched, slept, found_request, here, cleared_request, ThreadStep-Moves, found_none,
  Moves, Run, Local,
}
use projeto_sistemas_operati.Projeto2.Server.{
  tfs_op_code_read, tfs_op_code_write, tfs_op_code_close, tfs_op_code_open, tfs_op_code_unmount,
  tfs_op_code_mount,
}

abbrev pub Returns : Option ServerState → Type 0
Returns r = (t : ServerState) × (r ≡ some t)

if_Returns :
    (c : Bool) (x y : Option ServerState) → Returns x → Returns y → Returns (if c then x else y)
if_Returns true x y hx hy = hx
if_Returns false x y hx hy = hy

worker_unmount-Returns :
    (written : Bool) (b : Mem) (s : ServerState)
    → s.sessions.table_lock ≡ false
    → Returns (Option.map (λ r. r.1) (worker_unmount written b s))
unfolding worker_unmount
worker_unmount-Returns true b s e = rw (e, worker_unmount) (_, refl)
worker_unmount-Returns false b s e = rw (e, worker_unmount) (_, refl)

-- The switch waits for nothing but `table_lock`.
pub dispatch-Returns :
    (l : Locking) (written : Bool) (content : Array ℕ) (i : ℕ) (b : Mem) (s : ServerState)
    → s.sessions.table_lock ≡ false
    → Returns (dispatch l written content i b s)
unfolding dispatch
dispatch-Returns l written content i b s e =
    let code : ℤ = load_int b 0 in
    if_Returns (is_code code tfs_op_code_mount) _ _ (_, refl)
      (if_Returns (is_code code tfs_op_code_unmount) _ _ (worker_unmount-Returns written b s e) (
        if_Returns (is_code code tfs_op_code_open) _ _ (_, refl)
          (if_Returns (is_code code tfs_op_code_close) _ _ (_, refl)
            (if_Returns (is_code code tfs_op_code_write) _ _ (_, refl)
              (if_Returns (is_code code tfs_op_code_read) _ _ (_, refl) (_, refl))))))

-- A session without a request, whose thread does nothing for one.
abbrev pub Resting : Threads → ℕ → Type 0
Resting u i =
    (buffer_of u i ≡ none)
    × ((u.phase i ≡ at_test) ⊎ ((u.phase i ≡ before_wait) ⊎ (u.phase i ≡ asleep)))

-- Where the thread and the request `b` are after `n` steps of the thread.
abbrev Progress : ℕ → Mem → Threads → ℕ → Type 0
Progress i b u zero = Local u i at_test (some b)
Progress i b u (suc zero) = Local u i at_work (some b)
Progress i b u (suc (suc zero)) = Local u i after_work (some b)
Progress i b u (suc (suc (suc n))) = Resting u i

pub Resting-own : (i : ℕ) (u x : Threads) → Resting u i → Moves i u x → Resting x i
Resting-own i u x (e, p) (found_none q r (p', e')) = (e', inr (inl p'))
Resting-own i u x (e, p) (found_request c q r local) = absurd (cc (sym e ∙ r))
Resting-own i u x (e, p) (slept q (p', e')) = (e' ∙ e, inr (inr p'))
Resting-own i u x (e, p) (worked c q r h local) = absurd (cc (sym e ∙ r))
Resting-own i u x (e, p) (cleared_request q (p', e')) = (e', inl p')

pub Resting-other : (i : ℕ) (u x : Threads) → Resting u i → Untouched i u x → Resting x i
Resting-other i u x (e, inl p) (q, r) = (r ∙ e, inl (q ∙ p))
Resting-other i u x (e, inr (inl p)) (q, r) = (r ∙ e, inr (inl (q ∙ p)))
Resting-other i u x (e, inr (inr p)) (q, r) = (r ∙ e, inr (inr (q ∙ p)))

module _ (i : ℕ) (b : Mem) (u x : Threads) where
  Progress-own : (n : ℕ) → Progress i b u n → Moves i u x → Progress i b x (suc n)
  Progress-own zero (p, e) (found_none q r local) = absurd (cc (sym e ∙ r))
  Progress-own zero (p, e) (found_request c q r (p', e')) = (p', cc (e', r, e))
  Progress-own zero (p, e) (slept q local) = absurd (cc (sym p ∙ q))
  Progress-own zero (p, e) (worked c q r h local) = absurd (cc (sym p ∙ q))
  Progress-own zero (p, e) (cleared_request q local) = absurd (cc (sym p ∙ q))
  Progress-own (suc zero) (p, e) (found_none q r local) = absurd (cc (sym p ∙ q))
  Progress-own (suc zero) (p, e) (found_request c q r local) = absurd (cc (sym p ∙ q))
  Progress-own (suc zero) (p, e) (slept q local) = absurd (cc (sym p ∙ q))
  Progress-own (suc zero) (p, e) (worked c q r h (p', e')) = (p', cc (e', sym r ∙ e))
  Progress-own (suc zero) (p, e) (cleared_request q local) = absurd (cc (sym p ∙ q))
  Progress-own (suc (suc zero)) (p, e) (found_none q r local) = absurd (cc (sym p ∙ q))
  Progress-own (suc (suc zero)) (p, e) (found_request c q r local) = absurd (cc (sym p ∙ q))
  Progress-own (suc (suc zero)) (p, e) (slept q local) = absurd (cc (sym p ∙ q))
  Progress-own (suc (suc zero)) (p, e) (worked c q r g local) = absurd (cc (sym p ∙ q))
  Progress-own (suc (suc zero)) (p, e) (cleared_request q (p', e')) = (e', inl p')
  Progress-own (suc (suc (suc n))) rest moves = Resting-own i u x rest moves

  Progress-other : (n : ℕ) → Progress i b u n → Untouched i u x → Progress i b x n
  Progress-other zero (p, e) (q, r) = (q ∙ p, r ∙ e)
  Progress-other (suc zero) (p, e) (q, r) = (q ∙ p, r ∙ e)
  Progress-other (suc (suc zero)) (p, e) (q, r) = (q ∙ p, r ∙ e)
  Progress-other (suc (suc (suc n))) rest same = Resting-other i u x rest same

Run-Progress :
    {i : ℕ} {b : Mem} {w : Threads} {n : ℕ} {u : Threads}
    → Local w i at_test (some b)
    → Run i w n u
    → Progress i b u n
Run-Progress at here = at
Run-Progress {i} {b} at (own_step {n} {u} {x} r st) =
    Progress-own i b u x n (Run-Progress at r) (ThreadStep-Moves i u x st)
Run-Progress {i} {b} at (thread_step {n} {u} {x} j ne r st) =
    Progress-other i b u x n (Run-Progress at r) (ThreadStep-Untouched u x i j ne st)
Run-Progress {i} {b} at (main_step {n} {u} {x} j ne r st) =
    Progress-other i b u x n (Run-Progress at r) (MainStep-Untouched u x i j ne st)

-- The thread has a step while its request is not cleared_request.
Progress-steps :
    (l : Locking) (i n : ℕ) (b : Mem) (u : Threads)
    → Progress i b u n
    → n < 3
    → u.server.sessions.table_lock ≡ false
    → (x : Threads) × ThreadStep i u x
Progress-steps l i zero b u (p, e) lt free_lock = (test_buffer i u, tests p refl)
Progress-steps l i (suc zero) b u (p, e) lt free_lock =
    let (s, d) = dispatch-Returns l true (λ k. 0) i b u.server free_lock in
    (_, works l true (λ k. 0) b s p e d refl)
Progress-steps l i (suc (suc zero)) b u (p, e) lt free_lock = (clear_request i u, clears p refl)
Progress-steps l i (suc (suc (suc n))) b u h lt free_lock = absurd (omega (arith, lt))

Progress-over : (i n : ℕ) (b : Mem) (u : Threads) → Progress i b u n → 3 ≤ n → buffer_of u i ≡ none
Progress-over i zero b u h le = absurd (omega (arith, le))
Progress-over i (suc zero) b u h le = absurd (omega (arith, le))
Progress-over i (suc (suc zero)) b u h le = absurd (omega (arith, le))
Progress-over i (suc (suc (suc n))) b u (e, p) le = e

-- The step that the thread makes with the request `b` before its worker.
at_work-Called :
    (i : ℕ) (b : Mem) (u x : Threads) → Local u i at_work (some b) → Moves i u x → Called i b u x
at_work-Called i b u x (p, e) (found_none q r local) = absurd (cc (sym p ∙ q))
at_work-Called i b u x (p, e) (found_request c q r local) = absurd (cc (sym p ∙ q))
at_work-Called i b u x (p, e) (slept q local) = absurd (cc (sym p ∙ q))
at_work-Called i b u x (p, e) (worked c q r h local) =
    subst (λ m. Called i m u x) (cc (sym r ∙ e)) h
at_work-Called i b u x (p, e) (cleared_request q local) = absurd (cc (sym p ∙ q))

-- The second step of the thread is that of the worker.
Run-calls :
    {i : ℕ} {b : Mem} {w : Threads} {n : ℕ} {u : Threads}
    → Local w i at_test (some b)
    → (r : Run i w n u) → 2 ≤ n
    → OwnStepIn (Called i b) r
Run-calls at here le = absurd (omega (arith, le))
Run-calls {i} {b} at (own_step {n} {u} {x} r st) le = elim (dec_le 2 n) [
  | yes more ↦ inl (Run-calls at r more)
  | no few ↦ inr (
      at_work-Called i b u x
        (subst (Progress i b u) {y = 1} (omega (arith, le, few)) (Run-Progress at r))
        (ThreadStep-Moves i u x st))
]
Run-calls at (thread_step j ne r st) le = Run-calls at r le
Run-calls at (main_step j ne r st) le = Run-calls at r le

-- Where the thread of a session is before its test of thread_buffer and the session has a request:
-- in every run of the main loop and of all threads in which the main loop takes up no other
-- request for the session, the thread can make a step as long as it has made fewer than three and
-- table_lock is not held; once it has made two, one of its steps in this run was that of the
-- worker on this request, which stood in thread_buffer then, from the server as it was before that
-- step to the server after it; and once it has made three, thread_buffer is NULL.
pub Run-serves :
    (l : Locking) (i n : ℕ) (b : Mem) (w u : Threads)
    → Local w i at_test (some b)
    → (r : Run i w n u)
    → (n < 3 → u.server.sessions.table_lock ≡ false → (x : Threads) × ThreadStep i u x)
      × (2 ≤ n → OwnStepIn (Called i b) r)
      × (3 ≤ n → buffer_of u i ≡ none)
Run-serves l i n b w u at r = (
  λ lt free_lock. Progress-steps l i n b u (Run-Progress at r) lt free_lock,
  λ le. Run-calls at r le,
  λ le. Progress-over i n b u (Run-Progress at r) le,
)
