-- ===== src/Projeto2/Server/Threads/Orderly.antt =====
-- Where the main loop takes up a request for a session only while its thread waits, no request is
-- lost.
use projeto_sistemas_operati.Projeto2.Server.Threads.{
  fill_request, fills, allocate, allocates, woken, after_work, at_work, clears, works, falls_asleep,
  MainStep, buffer_of, listening, before_wait, tests, allocated, at_test, ThreadStep, asleep,
  main_crashed, clear_request, Threads, test_buffer,
}
use projeto_sistemas_operati.Base.{
  ◌⊎◌, some, refl, none, inr, subst, inl, ℕ_discrete, ap, Option-cases, sym, ◌∙◌, ◌≡◌, ◌≢◌, ℕ,
}
use projeto_sistemas_operati.Memory.{Mem}
use projeto_sistemas_operati.Projeto2.Server.Threads.Runs.{
  MainStep-Untouched, ThreadStep-Untouched, cleared_request, ThreadStep-Moves, worked, slept,
  found_request, Local, found_none, Moves, Untouched,
}
use projeto_sistemas_operati.Projeto2.Server.Threads.Taking.{fill_request-Local, allocate-Local}

abbrev Filling : Threads → ℕ → Type 0
Filling u i = (m : Mem) × (u.main ≡ allocated i m)

-- What a session may be in.
data Orderly (u : Threads) (i : ℕ) : Type 0 where
  testing : u.phase i ≡ at_test → ¬ Filling u i → Orderly u i
  soon_asleep : Local u i before_wait none → ¬ Filling u i → Orderly u i
  sleeping : Local u i asleep none → ¬ Filling u i → Orderly u i
  filling : (b : Mem) → Local u i asleep (some b) → Filling u i → Orderly u i
  working :
      (b : Mem)
      → (u.phase i ≡ at_work) ⊎ (u.phase i ≡ after_work)
      → buffer_of u i ≡ some b
      → ¬ Filling u i
      → Orderly u i

-- A run in which a request is taken up only for a session whose thread waits.
pub data OrderlyRun (w : Threads) : Threads → Type 0 where
  start : OrderlyRun w w
  by_thread : {u x : Threads} (j : ℕ) → OrderlyRun w u → ThreadStep j u x → OrderlyRun w x
  by_main :
      {u x : Threads} (j : ℕ)
      → (u.main ≡ listening → u.phase j ≡ asleep)
      → OrderlyRun w u
      → MainStep j u x
      → OrderlyRun w x

test_buffer-main : (j : ℕ) (w : Threads) → (test_buffer j w).main ≡ w.main
unfolding test_buffer
test_buffer-main j w = elim (Option-cases (buffer_of w j)) [
  | inl e ↦ rw (e, test_buffer) refl
  | inr (b, e) ↦ rw (e, test_buffer) refl
]

ThreadStep-main : (j : ℕ) (w u : Threads) → ThreadStep j w u → u.main ≡ w.main
unfolding clear_request
ThreadStep-main j w u (tests p e) = ap (λ x. x.main) e ∙ test_buffer-main j w
ThreadStep-main j w u (falls_asleep p e) = ap (λ x. x.main) e
ThreadStep-main j w u (works l written content b s p r d e) = ap (λ x. x.main) e
ThreadStep-main j w u (clears p e) = ap (λ x. x.main) e

not-Filling-kept : (w u : Threads) (i : ℕ) → u.main ≡ w.main → ¬ Filling w i → ¬ Filling u i
not-Filling-kept w u i same idle (m, e) = idle (m, sym same ∙ e)

Orderly-other :
    (w u : Threads) (i : ℕ)
    → Untouched i w u
    → (Filling w i → Filling u i)
    → (Filling u i → Filling w i)
    → Orderly w i
    → Orderly u i
Orderly-other w u i (q, r) f g (testing p idle) = testing (q ∙ p) (λ x. idle (g x))
Orderly-other w u i (q, r) f g (soon_asleep (p, e) idle) =
    soon_asleep (q ∙ p, r ∙ e) (λ x. idle (g x))
Orderly-other w u i (q, r) f g (sleeping (p, e) idle) = sleeping (q ∙ p, r ∙ e) (λ x. idle (g x))
Orderly-other w u i (q, r) f g (filling b (p, e) h) = filling b (q ∙ p, r ∙ e) (f h)
Orderly-other w u i (q, r) f g (working b (inl p) e idle) =
    working b (inl (q ∙ p)) (r ∙ e) (λ x. idle (g x))
Orderly-other w u i (q, r) f g (working b (inr p) e idle) =
    working b (inr (q ∙ p)) (r ∙ e) (λ x. idle (g x))

-- A thread that does not wait is not one whose buffer the main loop fills.
not_asleep : (w : Threads) (i : ℕ) → Orderly w i → w.phase i ≢ asleep → ¬ Filling w i
not_asleep w i (testing p idle) ne f = idle f
not_asleep w i (soon_asleep local idle) ne f = idle f
not_asleep w i (sleeping (p, e) idle) ne f = ne p
not_asleep w i (filling b (p, e) g) ne f = ne p
not_asleep w i (working b p e idle) ne f = idle f

before_wait-none :
    (w : Threads) (i : ℕ) → Orderly w i → w.phase i ≡ before_wait → buffer_of w i ≡ none
before_wait-none w i (testing p idle) q = absurd (cc (sym p ∙ q))
before_wait-none w i (soon_asleep (p, e) idle) q = e
before_wait-none w i (sleeping (p, e) idle) q = e
before_wait-none w i (filling b (p, e) g) q = absurd (cc (sym p ∙ q))
before_wait-none w i (working b (inl p) e idle) q = absurd (cc (sym p ∙ q))
before_wait-none w i (working b (inr p) e idle) q = absurd (cc (sym p ∙ q))

Orderly-own : (w u : Threads) (i : ℕ) → Moves i w u → u.main ≡ w.main → Orderly w i → Orderly u i
Orderly-own w u i (found_none p e local) same o =
    soon_asleep local
      (not-Filling-kept w u i same (not_asleep w i o (λ q. absurd (cc (sym p ∙ q)))))
Orderly-own w u i (found_request b p e (q, r)) same o =
    working b (inl q) r
      (not-Filling-kept w u i same (not_asleep w i o (λ q'. absurd (cc (sym p ∙ q')))))
Orderly-own w u i (slept p (q, r)) same o =
    sleeping (q, r ∙ before_wait-none w i o p)
      (not-Filling-kept w u i same (not_asleep w i o (λ q'. absurd (cc (sym p ∙ q')))))
Orderly-own w u i (worked b p e h (q, r)) same o =
    working b (inr q) r
      (not-Filling-kept w u i same (not_asleep w i o (λ q'. absurd (cc (sym p ∙ q')))))
Orderly-own w u i (cleared_request p (q, r)) same o =
    testing q (not-Filling-kept w u i same (not_asleep w i o (λ q'. absurd (cc (sym p ∙ q')))))

abbrev Sound : Threads → Type 0
Sound u = (u.main ≢ main_crashed) × ((i : ℕ) → Orderly u i)

Sound-thread : (w u : Threads) (j : ℕ) → ThreadStep j w u → Sound w → Sound u
Sound-thread w u j st (no_crash, o) =
    let same : u.main ≡ w.main = ThreadStep-main j w u st in
    (
      λ e. no_crash (sym same ∙ e),
      λ i. elim (ℕ_discrete j i) [
        | yes e ↦ subst (Orderly u) e (Orderly-own w u j (ThreadStep-Moves j w u st) same (o j))
        | no ne ↦
            Orderly-other w u i (ThreadStep-Untouched w u i j ne st) (λ (m, f). (m, same ∙ f))
              (λ (m, f). (m, sym same ∙ f)) (o i)
      ],
    )

-- The session whose buffer the main loop fills.
filled-by_main :
    (w : Threads) (i : ℕ) → Orderly w i → Filling w i → (b : Mem) × Local w i asleep (some b)
filled-by_main w i (testing p idle) f = absurd (idle f)
filled-by_main w i (soon_asleep local idle) f = absurd (idle f)
filled-by_main w i (sleeping local idle) f = absurd (idle f)
filled-by_main w i (filling b local g) f = (b, local)
filled-by_main w i (working b p e idle) f = absurd (idle f)

other_session : {i j : ℕ} {m m' : Mem} → j ≢ i → allocated j m ≢ allocated i m'
other_session ne e = ne (cc e)

Sound-allocate :
    (w : Threads) (j : ℕ) (fresh m : Mem)
    → w.main ≡ listening
    → w.phase j ≡ asleep
    → Sound w
    → Sound (allocate j fresh m w)
Sound-allocate w j fresh m e p (no_crash, o) =
    let u : Threads = allocate j fresh m w in
    let (at, main_at) = allocate-Local j w fresh m (p, refl) in
    (
      λ f. absurd (cc (sym main_at ∙ f)),
      λ i. elim (ℕ_discrete j i) [
        | yes same ↦ subst (Orderly u) same (filling fresh at (m, main_at))
        | no ne ↦
            Orderly-other w u i (MainStep-Untouched w u i j ne (allocates fresh m e refl))
              (λ (k, f). absurd (cc (sym e ∙ f)))
              (λ (k, f). absurd (other_session ne (sym main_at ∙ f))) (o i)
      ],
    )

Sound-fill :
    (w : Threads) (j : ℕ) (m : Mem) → w.main ≡ allocated j m → Sound w → Sound (fill_request j m w)
unfolding woken
Sound-fill w j m e (no_crash, o) =
    let u : Threads = fill_request j m w in
    let (b, local) = filled-by_main w j (o j) (m, e) in
    let ((at, r), main_at) = fill_request-Local j w m local in
    (
      λ f. absurd (cc (sym main_at ∙ f)),
      λ i. elim (ℕ_discrete j i) [
        | yes same ↦ subst (Orderly u) same (testing at (λ (k, f). absurd (cc (sym main_at ∙ f))))
        | no ne ↦
            Orderly-other w u i (MainStep-Untouched w u i j ne (fills m e refl))
              (λ (k, f). absurd (other_session ne (sym e ∙ f)))
              (λ (k, f). absurd (cc (sym main_at ∙ f))) (o i)
      ],
    )

Sound-run : {w u : Threads} → OrderlyRun w u → Sound w → Sound u
Sound-run start h = h
Sound-run (by_thread {u} {x} j r st) h = Sound-thread u x j st (Sound-run r h)
Sound-run (by_main {u} {x} j waits r (allocates fresh m e eq)) h =
    subst Sound (sym eq) (Sound-allocate u j fresh m e (waits e) (Sound-run r h))
Sound-run (by_main {u} {x} j waits r (fills m e eq)) h =
    subst Sound (sym eq) (Sound-fill u j m e (Sound-run r h))

asleep-rests :
    (u : Threads) (i : ℕ)
    → Orderly u i
    → u.phase i ≡ asleep
    → (buffer_of u i ≡ none) ⊎ ((m : Mem) × (u.main ≡ allocated i m))
asleep-rests u i (testing p idle) q = absurd (cc (sym p ∙ q))
asleep-rests u i (soon_asleep (p, e) idle) q = absurd (cc (sym p ∙ q))
asleep-rests u i (sleeping (p, e) idle) q = inl e
asleep-rests u i (filling b local f) q = inr f
asleep-rests u i (working b (inl p) e idle) q = absurd (cc (sym p ∙ q))
asleep-rests u i (working b (inr p) e idle) q = absurd (cc (sym p ∙ q))

-- From a state in which every thread is before its test of thread_buffer and the main loop reads
-- the pipe, in every run in which the main loop takes up a request only for a session whose thread
-- waits: the main loop never writes through NULL, and a thread that waits has no request, or the
-- main loop is about to fill it and signal.
pub OrderlyRun-keeps :
    (w u : Threads)
    → ((i : ℕ) → w.phase i ≡ at_test)
    → w.main ≡ listening
    → OrderlyRun w u
    → (u.main ≢ main_crashed)
      × ((i : ℕ)
          → u.phase i ≡ asleep
          → (buffer_of u i ≡ none) ⊎ ((m : Mem) × (u.main ≡ allocated i m)))
OrderlyRun-keeps w u begins main_at r =
    let (no_crash, o) = Sound-run r (
      λ e. absurd (cc (sym main_at ∙ e)),
      λ i. testing (begins i) (λ (m, f). absurd (cc (sym main_at ∙ f))),
    ) in
    (no_crash, λ i p. asleep-rests u i (o i) p)
