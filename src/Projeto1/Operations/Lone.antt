-- ===== src/Projeto1/Operations/Lone.antt =====
-- fs/operations.c, a thread that is alone in `tfs_open`: its steps against the call as a function.
use projeto_sistemas_operati.Memory.{CString}
use projeto_sistemas_operati.Projeto1.Operations.{
  open_existing, open_new, tfs_lookup, tfs_open, valid_pathname,
}
use projeto_sistemas_operati.Projeto1.Operations.Racing.{
  Openers, OpenSteps, after_lookup, at_entry, create_missing, creates, give_back, gives_back, locks,
  look_up, looks_up, not_begun, open_found, opens_found, refuse, refuses, returned, take_lock,
  then_step, to_create, to_open, with_lock,
}
use projeto_sistemas_operati.Projeto2.Types.{has_flag, tfs_o_creat}
use projeto_sistemas_operati.Base.{
  false, true, ◌≡◌, ◌∙◌, ap, refl, arith, ℤ, ℕ, none, update_self, minus_one, is_nonneg, inl, inr,
  Bool-cases, sym,
}

module _ (name : CString) (flags i : ℕ) (w : Openers) where
  -- The thread has returned with the result and the tables of `tfs_open`.
  abbrev AsCalled : Openers → Type 0
  AsCalled u =
      (u.phase i ≡ returned (tfs_open name flags w.fs).0) × (u.fs ≡ (tfs_open name flags w.fs).1)

  abbrev locked_lookup : Openers
  locked_lookup = look_up name i (take_lock i w)

  abbrev unlocked : Openers
  unlocked = give_back flags (tfs_lookup name w.fs) i locked_lookup

  come_to_unlocked :
      w.phase i ≡ at_entry
      → w.holder ≡ none
      → valid_pathname name ≡ true
      → OpenSteps name flags w unlocked
        × (unlocked.phase i ≡ after_lookup flags (tfs_lookup name w.fs))
        × (unlocked.fs ≡ w.fs)
        × (unlocked.holder ≡ none)
  unfolding take_lock look_up give_back
  come_to_unlocked entry lock_free valid = (
    then_step i
        (then_step i (then_step i not_begun (locks entry valid lock_free refl))
          (looks_up (update_self w.phase i with_lock) refl refl))
        (gives_back (tfs_lookup name w.fs) (update_self (take_lock i w).phase i _) refl refl),
    update_self locked_lookup.phase i _,
    refl,
    refl,
  )

  -- A lookup that has found the file, one that is to create it, and one that has returned.
  finds :
      valid_pathname name ≡ true
      → is_nonneg (tfs_lookup name w.fs) ≡ true
      → (tfs_open name flags w.fs ≡ open_existing (tfs_lookup name w.fs) flags w.fs)
        × (after_lookup flags (tfs_lookup name w.fs) ≡ to_open (tfs_lookup name w.fs))
  unfolding tfs_open after_lookup
  finds valid found = ground (arith, valid, found)

  makes :
      valid_pathname name ≡ true
      → is_nonneg (tfs_lookup name w.fs) ≡ false
      → has_flag flags tfs_o_creat ≡ true
      → (tfs_open name flags w.fs ≡ open_new name w.fs)
        × (after_lookup flags (tfs_lookup name w.fs) ≡ to_create)
  unfolding tfs_open after_lookup
  makes valid missing creat = ground (arith, valid, missing, creat)

  misses :
      valid_pathname name ≡ true
      → is_nonneg (tfs_lookup name w.fs) ≡ false
      → has_flag flags tfs_o_creat ≡ false
      → (tfs_open name flags w.fs ≡ (minus_one, w.fs))
        × (after_lookup flags (tfs_lookup name w.fs) ≡ returned minus_one)
  unfolding tfs_open after_lookup
  misses valid missing no_creat = ground (arith, valid, missing, no_creat)

  refused : valid_pathname name ≡ false → tfs_open name flags w.fs ≡ (minus_one, w.fs)
  unfolding tfs_open
  refused invalid = ground (arith, invalid)

  -- Project 1: where no thread has inode_table_lock, a thread that enters tfs_open comes, by its
  -- own steps with the taking and the giving back of the lock, to its return with the result and
  -- the tables of tfs_open as a function, whatever the path, the flags and the tables.
  OpenSteps-tfs_open :
      w.phase i ≡ at_entry → w.holder ≡ none → (u : Openers) × OpenSteps name flags w u × AsCalled u
  unfolding refuse open_found create_missing
  OpenSteps-tfs_open entry lock_free = elim (Bool-cases (valid_pathname name)) [
    | inr invalid ↦ (
      refuse i w,
      then_step i not_begun (refuses entry invalid refl),
      (
        update_self w.phase i _ ∙ ap (λ r. returned r.0) (sym (refused invalid)),
        ap (λ r. r.1) (sym (refused invalid)),
      ),
    )
    | inl valid ↦
        (let (steps, there, same, free) = come_to_unlocked entry lock_free valid in
          let lookup : ℤ = tfs_lookup name w.fs in
          elim (Bool-cases (is_nonneg lookup)) [
            | inl found ↦
                (let (e, goes) = finds valid found in
                  (
                    open_found flags lookup i unlocked,
                    then_step i steps (opens_found lookup (there ∙ goes) refl),
                    (
                      update_self unlocked.phase i _
                          ∙ ap (λ t. returned (open_existing lookup flags t).0) same
                          ∙ ap (λ r. returned r.0) (sym e),
                      ap (λ t. (open_existing lookup flags t).1) same ∙ ap (λ r. r.1) (sym e),
                    ),
                  ))
            | inr missing ↦ elim (Bool-cases (has_flag flags tfs_o_creat)) [
              | inl creat ↦
                  (let (e, goes) = makes valid missing creat in
                    (
                      create_missing name i unlocked,
                      then_step i steps (creates (there ∙ goes) free refl),
                      (
                        update_self unlocked.phase i _
                            ∙ ap (λ t. returned (open_new name t).0) same
                            ∙ ap (λ r. returned r.0) (sym e),
                        ap (λ t. (open_new name t).1) same ∙ ap (λ r. r.1) (sym e),
                      ),
                    ))
              | inr no_creat ↦
                  (let (e, goes) = misses valid missing no_creat in
                    (
                      unlocked,
                      steps,
                      (there ∙ goes ∙ ap (λ r. returned r.0) (sym e), same ∙ ap (λ r. r.1) (sym e)),
                    ))
            ]
          ])
  ]
