-- ===== src/Projeto2/Server/Threads/Runs.antt =====
-- Runs of the main loop and the threads, seen from one session.
use projeto_sistemas_operati.Projeto2.Server.Threads.{
  clears, after_work, works, asleep, falls_asleep, woken, before_wait, fills, allocates, at_work,
  tests, with_buffer, buffer_of, MainStep, at_test, fill_request, Phase, clear_request, ThreadStep,
  Threads, allocate, test_buffer,
}
use projeto_sistemas_operati.Projeto2.Server.Workers.{dispatch, ServerState}
use projeto_sistemas_operati.Base.{
  ◌⊎◌, Bool, ◌∙◌, sym, refl, subst, update_self, none, Array, inr, update_ne, inl, Option-cases, ap,
  some, suc, ◌≡◌, ◌≢◌, Option, ℕ,
}
use projeto_sistemas_operati.Memory.{Mem}
use projeto_sistemas_operati.Projeto2.Server.{SessionEntry}
use projeto_sistemas_operati.Projeto2.Server.Tables.{dispatch-KeepsTable}
use projeto_sistemas_operati.Projeto2.Api.{Locking}

-- A run in which the main loop takes up nothing for the session `i`; its thread has made `n` steps.
pub data Run (i : ℕ) (w : Threads) : ℕ → Threads → Type 0 where
  here : Run i w 0 w
  own_step : {n : ℕ} {u x : Threads} → Run i w n u → ThreadStep i u x → Run i w (suc n) x
  thread_step :
      {n : ℕ} {u x : Threads} (j : ℕ) → j ≢ i → Run i w n u → ThreadStep j u x → Run i w n x
  main_step : {n : ℕ} {u x : Threads} (j : ℕ) → j ≢ i → Run i w n u → MainStep j u x → Run i w n x

-- What a session's thread sees of its own: where it is, and its request.
abbrev pub Local : Threads → ℕ → Phase → Option Mem → Type 0
Local w i p b = (w.phase i ≡ p) × (buffer_of w i ≡ b)

with_buffer-other :
    (s : ServerState) (i j : ℕ) (b : Option Mem)
    → j ≢ i
    → ((with_buffer s j b).sessions.session_table i).thread_buffer
      ≡ (s.sessions.session_table i).thread_buffer
with_buffer-other s i j b ne =
    ap (λ (e : SessionEntry). e.thread_buffer) (update_ne s.sessions.session_table j i _ ne)

-- The steps of another thread, and those of the main loop for another session, change neither.
abbrev pub Untouched : ℕ → Threads → Threads → Type 0
Untouched i w u = (u.phase i ≡ w.phase i) × (buffer_of u i ≡ buffer_of w i)

test_buffer-Untouched : (w : Threads) (i j : ℕ) → j ≢ i → Untouched i w (test_buffer j w)
unfolding test_buffer
test_buffer-Untouched w i j ne = elim (Option-cases (buffer_of w j)) [
  | inl e ↦ rw (e, test_buffer) (update_ne w.phase j i before_wait ne, refl)
  | inr (b, e) ↦ rw (e, test_buffer) (update_ne w.phase j i at_work ne, refl)
]

fill_request-Untouched :
    (w : Threads) (i j : ℕ) (m : Mem) → j ≢ i → Untouched i w (fill_request j m w)
unfolding fill_request
fill_request-Untouched w i j m ne = elim (Option-cases (buffer_of w j)) [
  | inl e ↦ rw (e, fill_request) (refl, refl)
  | inr (b, e) ↦
      rw (e, fill_request)
        (update_ne w.phase j i (woken (w.phase j)) ne, with_buffer-other w.server i j (some m) ne)
]

clear_request-Untouched : (w : Threads) (i j : ℕ) → j ≢ i → Untouched i w (clear_request j w)
unfolding clear_request
clear_request-Untouched w i j ne =
    (update_ne w.phase j i at_test ne, with_buffer-other w.server i j none ne)

allocate-Untouched :
    (w : Threads) (i j : ℕ) (fresh m : Mem) → j ≢ i → Untouched i w (allocate j fresh m w)
unfolding allocate
allocate-Untouched w i j fresh m ne = (refl, with_buffer-other w.server i j (some fresh) ne)

pub ThreadStep-Untouched : (w u : Threads) (i j : ℕ) → j ≢ i → ThreadStep j w u → Untouched i w u
ThreadStep-Untouched w u i j ne (tests p e) =
    subst (Untouched i w) (sym e) (test_buffer-Untouched w i j ne)
ThreadStep-Untouched w u i j ne (falls_asleep p e) =
    subst (Untouched i w) (sym e) (update_ne w.phase j i asleep ne, refl)
ThreadStep-Untouched w u i j ne (works l written content b s p r d e) =
    subst (Untouched i w) (sym e) (
      update_ne w.phase j i after_work ne,
      ap (λ (t : Array SessionEntry). (t i).thread_buffer)
          (dispatch-KeepsTable l written content b w.server j s d),
    )
ThreadStep-Untouched w u i j ne (clears p e) =
    subst (Untouched i w) (sym e) (clear_request-Untouched w i j ne)

pub MainStep-Untouched : (w u : Threads) (i j : ℕ) → j ≢ i → MainStep j w u → Untouched i w u
MainStep-Untouched w u i j ne (allocates fresh m p e) =
    subst (Untouched i w) (sym e) (allocate-Untouched w i j fresh m ne)
MainStep-Untouched w u i j ne (fills m p e) =
    subst (Untouched i w) (sym e) (fill_request-Untouched w i j m ne)

-- The step from `u` to `x` is that of the worker on the request `b`: the thread has come to it with
-- this request, and the server after it is what the worker leaves of the server before it.
pub record Called (i : ℕ) (b : Mem) (u x : Threads) : Type 0 where
  pub at_worker : u.phase i ≡ at_work
  pub with_it : buffer_of u i ≡ some b
  pub locking : Locking
  pub written : Bool
  pub content : Array ℕ
  pub worked_to : dispatch locking written content i b u.server ≡ some x.server

-- Some step of the session's thread in this run goes from a state to another as `P` says.
abbrev pub OwnStepIn :
    {i : ℕ} {w : Threads} {n : ℕ} {u : Threads}
    → (Threads → Threads → Type 0)
    → Run i w n u
    → Type 0
OwnStepIn P here = ⊥
OwnStepIn P (own_step {n} {u} {x} r st) = OwnStepIn P r ⊎ P u x
OwnStepIn P (thread_step j ne r st) = OwnStepIn P r
OwnStepIn P (main_step j ne r st) = OwnStepIn P r

pub OwnStepIn-map :
    {i : ℕ} {w : Threads} {n : ℕ} {u : Threads} {P Q : Threads → Threads → Type 0} (r : Run i w n u)
    → ((x y : Threads) → P x y → Q x y)
    → OwnStepIn P r
    → OwnStepIn Q r
OwnStepIn-map here f h = h
OwnStepIn-map (own_step r st) f (inl h) = inl (OwnStepIn-map r f h)
OwnStepIn-map (own_step {n} {u} {x} r st) f (inr h) = inr (f u x h)
OwnStepIn-map (thread_step j ne r st) f h = OwnStepIn-map r f h
OwnStepIn-map (main_step j ne r st) f h = OwnStepIn-map r f h

-- The steps of the session's own thread, by where it is.
pub data Moves (i : ℕ) (w u : Threads) : Type 0 where
  found_none : w.phase i ≡ at_test → buffer_of w i ≡ none → Local u i before_wait none → Moves i w u
  found_request :
      (b : Mem)
      → w.phase i ≡ at_test
      → buffer_of w i ≡ some b
      → Local u i at_work (some b)
      → Moves i w u
  slept : w.phase i ≡ before_wait → Local u i asleep (buffer_of w i) → Moves i w u
  worked :
      (b : Mem)
      → w.phase i ≡ at_work
      → buffer_of w i ≡ some b
      → Called i b w u
      → Local u i after_work (some b)
      → Moves i w u
  cleared_request : w.phase i ≡ after_work → Local u i at_test none → Moves i w u

test_buffer-Moves : (i : ℕ) (w : Threads) → w.phase i ≡ at_test → Moves i w (test_buffer i w)
unfolding test_buffer
test_buffer-Moves i w p = elim (Option-cases (buffer_of w i)) [
  | inl e ↦ rw (e, test_buffer) (found_none p e (update_self w.phase i before_wait, e))
  | inr (b, e) ↦ rw (e, test_buffer) (found_request b p e (update_self w.phase i at_work, e))
]

clear_request-Moves : (i : ℕ) (w : Threads) → w.phase i ≡ after_work → Moves i w (clear_request i w)
unfolding clear_request
clear_request-Moves i w p = cleared_request p (
  update_self w.phase i at_test,
  ap (λ (e : SessionEntry). e.thread_buffer) (update_self w.server.sessions.session_table i _),
)

pub ThreadStep-Moves : (i : ℕ) (w u : Threads) → ThreadStep i w u → Moves i w u
ThreadStep-Moves i w u (tests p e) = subst (Moves i w) (sym e) (test_buffer-Moves i w p)
ThreadStep-Moves i w u (falls_asleep p e) =
    subst (Moves i w) (sym e) (slept p (update_self w.phase i asleep, refl))
ThreadStep-Moves i w u (works l written content b s p r d e) = subst (Moves i w) (sym e) (
    worked b p r
      (record {
        at_worker = p;
        with_it = r;
        locking = l;
        written = written;
        content = content;
        worked_to = d;
      })
      (
        update_self w.phase i after_work,
        ap (λ (t : Array SessionEntry). (t i).thread_buffer)
              (dispatch-KeepsTable l written content b w.server i s d)
            ∙ r,
      ))
ThreadStep-Moves i w u (clears p e) = subst (Moves i w) (sym e) (clear_request-Moves i w p)
