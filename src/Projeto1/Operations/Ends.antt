-- ===== src/Projeto1/Operations/Ends.antt =====
-- The loops of `tfs_write` and `tfs_read` end: each round takes a byte at least, so that a round for
-- each byte, and one for the last test, are enough.
use projeto_sistemas_operati.Projeto1.Operations.{at_block, no_fuel, Loop, write_loop}
use projeto_sistemas_operati.Projeto1.Types.{crashes, returns, Fs, Run}
use projeto_sistemas_operati.Base.{
  pos_of_test, zero, inr, inl, none, ◌==◌, Bool-cases, some, suc, arith, ◌≢◌, ◌<◌, Array, Option, ℕ,
}
use projeto_sistemas_operati.Projeto1.Position.{get_current_data_block}
use projeto_sistemas_operati.Projeto1.Reading.{read_loop}
use projeto_sistemas_operati.Projeto1.Handles.{offset_of}
use projeto_sistemas_operati.Projeto1.Position.Offset.{clip_block_pos}

at_block-ends {ℓ} :
    {A : Type ℓ} (r : Run (Option ℕ × Fs)) (missing : Fs → A) (go : ℕ → Fs → Loop A)
    → ((block : ℕ) (t : Fs) → go block t ≢ no_fuel)
    → at_block r missing go ≢ no_fuel
at_block-ends crashes missing go ends_after e = cc e
at_block-ends (returns (none, s)) missing go ends_after e = cc e
at_block-ends (returns (some block, s)) missing go ends_after e = ends_after block s e

-- Project 1: the loop of tfs_write comes to an end within one round more than it has bytes to
-- write, in every state.
pub write_loop-ends :
    (fuel h i : ℕ) (buffer : Array ℕ) (from to_write : ℕ) (s : Fs)
    → to_write < fuel
    → write_loop fuel h i buffer from to_write s ≢ no_fuel
unfolding write_loop
write_loop-ends zero h i buffer from to_write s lt = absurd (omega (arith, lt))
write_loop-ends (suc fuel) h i buffer from to_write s lt = elim (Bool-cases (to_write == 0)) [
  | inl done ↦ rw (done, write_loop) (λ e. cc e)
  | inr more ↦
      rw (more, write_loop)
        (at_block-ends (get_current_data_block i (offset_of s h) s) (λ t. t) _
          (λ block t. write_loop-ends fuel h i buffer _ _ _ (
            omega (
              arith,
              lt,
              pos_of_test to_write more,
              clip_block_pos (offset_of s h) to_write (pos_of_test to_write more),
            ))))
]

-- Project 1: the loop of tfs_read comes to an end within one round more than it has bytes to read,
-- in every state.
pub read_loop-ends :
    (fuel h i at to_read : ℕ) (b : Array ℕ × Fs)
    → to_read < fuel
    → read_loop fuel h i at to_read b ≢ no_fuel
unfolding read_loop
read_loop-ends zero h i at to_read b lt = absurd (omega (arith, lt))
read_loop-ends (suc fuel) h i at to_read (buffer, s) lt = elim (Bool-cases (to_read == 0)) [
  | inl done ↦ rw (done, read_loop) (λ e. cc e)
  | inr more ↦
      rw (more, read_loop)
        (at_block-ends (get_current_data_block i (offset_of s h) s) (λ t. (buffer, t)) _
          (λ block t. read_loop-ends fuel h i _ _ _ (
            omega (
              arith,
              lt,
              pos_of_test to_read more,
              clip_block_pos (offset_of s h) to_read (pos_of_test to_read more),
            ))))
]
