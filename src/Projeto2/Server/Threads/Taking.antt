-- ===== src/Projeto2/Server/Threads/Taking.antt =====
-- The steps of the main loop for a request, and what they do for its session.
use projeto_sistemas_operati.Projeto2.Server.Threads.{
  main_crashed, listening, with_buffer, at_work, woken, allocated, test_buffer, at_test, Phase,
  buffer_of, Threads, allocate, clear_request, fill_request,
}
use projeto_sistemas_operati.Base.{ap, ◌∙◌, arith, update_self, refl, none, Option, ◌≡◌, some, ℕ}
use projeto_sistemas_operati.Memory.{Mem}
use projeto_sistemas_operati.Projeto2.Server.Threads.Runs.{Local}

module _ (i : ℕ) (w : Threads) {p : Phase} where
  pub allocate-Local :
      {b : Option Mem} (fresh m : Mem)
      → Local w i p b
      → Local (allocate i fresh m w) i p (some fresh)
        × ((allocate i fresh m w).main ≡ allocated i m)
  unfolding allocate
  allocate-Local fresh m (e, r) = ((e, ground arith), refl)

  pub fill_request-Local :
      {b : Mem} (m : Mem)
      → Local w i p (some b)
      → Local (fill_request i m w) i (woken p) (some m) × ((fill_request i m w).main ≡ listening)
  unfolding fill_request
  fill_request-Local m (e, r) =
      rw (r, fill_request)
        ((update_self w.phase i (woken (w.phase i)) ∙ ap woken e, ground arith), refl)

  pub test_buffer-Local :
      {b : Mem}
      → Local w i p (some b)
      → Local (test_buffer i w) i at_work (some b)
        × ((test_buffer i w).main ≡ w.main)
        × ((test_buffer i w).server ≡ w.server)
  unfolding test_buffer
  test_buffer-Local (e, r) = rw (r, test_buffer) ((update_self w.phase i at_work, r), refl, refl)

  pub fill_request-server :
      {b : Mem} (m : Mem)
      → Local w i p (some b)
      → (fill_request i m w).server ≡ with_buffer w.server i (some m)
  unfolding fill_request
  fill_request-server m (e, r) = rw (r, fill_request) refl

pub clear_request-Local :
    (i : ℕ) (w : Threads)
    → Local (clear_request i w) i at_test none × ((clear_request i w).main ≡ w.main)
unfolding clear_request
clear_request-Local i w = ((update_self w.phase i at_test, ground arith), refl)

pub fill_request-crash :
    (i : ℕ) (m : Mem) (w : Threads)
    → buffer_of w i ≡ none
    → (fill_request i m w).main ≡ main_crashed
unfolding fill_request
fill_request-crash i m w e = rw (e, fill_request) refl
