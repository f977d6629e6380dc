-- ===== src/Projeto1/Invariant/Interleaved.antt =====
-- Several threads in `tfs_open`: what `inode_table_lock` protects, in every interleaving.
use projeto_sistemas_operati.Memory.{CString}
use projeto_sistemas_operati.Projeto1.Types.{Fs}
use projeto_sistemas_operati.Projeto1.Invariant.{Inv}
use projeto_sistemas_operati.Projeto1.Invariant.Kept.{open_existing-Same, open_new-KeepsUsed}
use projeto_sistemas_operati.Projeto1.Invariant.Opening.{
  lookup-Names, open_existing-Inv, open_new-Inv, tfs_lookup_lem,
}
use projeto_sistemas_operati.Projeto1.Operations.{tfs_lookup, valid_pathname}
use projeto_sistemas_operati.Projeto1.Operations.Racing.{
  OpenPhase, Openers, OpenStep, OpenSteps, after_lookup, at_entry, create_missing, creates,
  give_back, gives_back, locks, look_up, looked_up, looks_up, not_begun, open_found, opens_found,
  refuse, refuses, returned, take_lock, then_step, to_create, to_open, with_lock,
}
use projeto_sistemas_operati.Projeto2.Invariant.{Names}
use projeto_sistemas_operati.Projeto2.Directory.{find_in_block}
use projeto_sistemas_operati.Projeto2.Types.{has_flag, taken, tfs_o_creat}
use projeto_sistemas_operati.Base.{
  ◌≡◌, ◌≢◌, ◌∙◌, sym, ap, refl, arith, subst, ℕ, ℤ, some, inl, inr, Bool-cases, drop, is_nonneg,
  update, update_ne, update_self, ℕ_discrete,
}

-- The tables of `u` have the i-nodes in use of those of `s`.
abbrev KeepsUsed : Fs → Fs → Type 0
KeepsUsed s t = (k : ℕ) → s.freeinode_ts k ≡ taken → t.freeinode_ts k ≡ taken

Names-kept : (s t : Fs) (z : ℤ) → KeepsUsed s t → Names s.freeinode_ts z → Names t.freeinode_ts z
Names-kept s t z kept n = record {
  is_pos = n.is_pos;
  not_root = n.not_root;
  below = n.below;
  in_use = kept _ n.in_use;
}

-- A lookup reads the directory alone.
lookup-same :
    (name : CString) (s t : Fs)
    → Inv s
    → Inv t
    → t.fs_data ≡ s.fs_data
    → tfs_lookup name t ≡ tfs_lookup name s
unfolding tfs_lookup
lookup-same name s t v w e = elim (Bool-cases (valid_pathname name)) [
  | inl valid ↦
      tfs_lookup_lem t w name valid
      ∙ ap (λ m. find_in_block m 0 (drop 1 name)) e
      ∙ sym (tfs_lookup_lem s v name valid)
  | inr bad ↦ ground (arith, bad)
]

module _ (name : CString) (flags : ℕ) where
  -- What holds of the thread `i` where it is at the phase.
  abbrev Own : OpenPhase → ℕ → Openers → Type 0
  Own at_entry i u = Unit
  Own with_lock i u = u.holder ≡ some i
  Own to_create i u = Unit
  Own (looked_up inum) i u = (u.holder ≡ some i) × (tfs_lookup name u.fs ≡ inum)
  Own (to_open inum) i u = Names u.fs.freeinode_ts inum
  Own (returned r) i u = Unit

  record Raced (u : Openers) : Type 0 where
    tables : Inv u.fs
    own : (i : ℕ) → Own (u.phase i) i u

  -- The thread `j` does not notice a step from `w` to `u`.
  abbrev Unnoticed : ℕ → Openers → Openers → Type 0
  Unnoticed j w u =
      w.holder ≡ some j → (u.holder ≡ some j) × (tfs_lookup name u.fs ≡ tfs_lookup name w.fs)

  Own-kept :
      (p : OpenPhase) (j : ℕ) (w u : Openers)
      → Unnoticed j w u
      → KeepsUsed w.fs u.fs
      → Own p j w
      → Own p j u
  Own-kept at_entry j w u un kept o = tt
  Own-kept with_lock j w u un kept o = (un o).0
  Own-kept to_create j w u un kept o = tt
  Own-kept (looked_up inum) j w u un kept (h, e) = ((un h).0, (un h).1 ∙ e)
  Own-kept (to_open inum) j w u un kept o = Names-kept w.fs u.fs inum kept o
  Own-kept (returned r) j w u un kept o = tt

  Raced-step :
      (i : ℕ) (p : OpenPhase) (w u : Openers)
      → Raced w
      → u.phase ≡ update w.phase i p
      → Inv u.fs
      → KeepsUsed w.fs u.fs
      → ((j : ℕ) → i ≢ j → Unnoticed j w u)
      → Own p i u
      → Raced u
  Raced-step i p w u r moved v kept un o = record {
    tables = v;
    own = λ j. elim (ℕ_discrete i j) [
      | yes e ↦
          subst (λ k. Own (u.phase k) k u) e
            (subst (λ q. Own q i u) (sym (ap (λ f. f i) moved ∙ update_self w.phase i p)) o)
      | no ne ↦
          subst (λ q. Own q j u) (sym (ap (λ f. f j) moved ∙ update_ne w.phase i j p ne))
            (Own-kept (w.phase j) j w u (un j ne) kept (r.own j))
    ];
  }

  -- Where a thread goes that has the lock: to the file that its lookup found.
  Own-after :
      (inum : ℤ) (i : ℕ) (w u : Openers)
      → Inv w.fs
      → tfs_lookup name w.fs ≡ inum
      → u.fs ≡ w.fs
      → Own (after_lookup flags inum) i u
  unfolding after_lookup
  Own-after inum i w u v e same = elim (Bool-cases (is_nonneg inum)) [
    | inl found ↦
        rw (found, after_lookup)
          (subst (λ (s : Fs). Names s.freeinode_ts inum) (sym same)
            (subst (Names w.fs.freeinode_ts) e (lookup-Names w.fs v name (ap is_nonneg e ∙ found))))
    | inr missing ↦ elim (Bool-cases (has_flag flags tfs_o_creat)) [
      | inl creat ↦ rw (missing, creat, after_lookup) tt
      | inr plain ↦ rw (missing, plain, after_lookup) tt
    ]
  ]

  OpenStep-Raced : (i : ℕ) (w u : Openers) → Raced w → OpenStep name flags i w u → Raced u
  unfolding refuse take_lock look_up give_back open_found create_missing
  OpenStep-Raced i w u r (refuses p bad e) =
      subst Raced (sym e)
        (Raced-step i _ w (refuse i w) r refl r.tables (λ k h. h) (λ j ne h. (h, refl)) tt)
  OpenStep-Raced i w u r (locks p valid lock_free e) = subst Raced (sym e) (
      Raced-step i _ w (take_lock i w) r refl r.tables (λ k h. h)
        (λ j ne h. absurd (cc (sym h ∙ lock_free))) refl)
  OpenStep-Raced i w u r (looks_up p mine e) = subst Raced (sym e) (
      Raced-step i _ w (look_up name i w) r refl r.tables (λ k h. h) (λ j ne h. (h, refl))
        (mine, refl))
  OpenStep-Raced i w u r (gives_back inum p mine e) = subst Raced (sym e) (
      Raced-step i _ w (give_back flags inum i w) r refl r.tables (λ k h. h)
        (λ j ne h. absurd (ne (cc (sym mine ∙ h))))
        (Own-after inum i w (give_back flags inum i w) r.tables
          (subst (λ q. Own q i w) p (r.own i)).1 refl))
  OpenStep-Raced i w u r (opens_found inum p e) =
      let n : Names w.fs.freeinode_ts inum = subst (λ q. Own q i w) p (r.own i) in
      let v : Inv (open_found flags inum i w).fs = open_existing-Inv w.fs inum flags r.tables n in
      let (bytes, map) = open_existing-Same w.fs inum flags r.tables n in
      subst Raced (sym e) (
        Raced-step i _ w (open_found flags inum i w) r refl v (λ k h. ap (λ f. f k) map ∙ h)
          (λ j ne h. (h, lookup-same name w.fs (open_found flags inum i w).fs r.tables v bytes)) tt)
  OpenStep-Raced i w u r (creates p lock_free e) = subst Raced (sym e) (
      Raced-step i _ w (create_missing name i w) r refl (open_new-Inv w.fs name r.tables)
        (λ k. open_new-KeepsUsed w.fs name k r.tables) (λ j ne h. absurd (cc (sym h ∙ lock_free)))
        tt)

  OpenSteps-Raced : {w u : Openers} → Raced w → OpenSteps name flags w u → Raced u
  OpenSteps-Raced r not_begun = r
  OpenSteps-Raced r (then_step {u} {x} i steps step) =
      OpenStep-Raced i u x (OpenSteps-Raced r steps) step

  -- Project 1: several threads enter tfs_open with the same path and flags, on well-formed tables.
  -- In every interleaving of their steps, of which the work on a file found and the creation are
  -- one each, the tables stay well formed; a thread between the taking and the giving back of
  -- inode_table_lock is the one that has it; what its lookup has found is what a lookup still
  -- finds there; and a thread that has given the lock back to open the file it found, has found a
  -- file in use, and it still is one.
  pub OpenSteps-keeps :
      (w u : Openers)
      → Inv w.fs
      → ((i : ℕ) → w.phase i ≡ at_entry)
      → OpenSteps name flags w u
      → Inv u.fs
        × ((i : ℕ) → u.phase i ≡ with_lock → u.holder ≡ some i)
        × ((i : ℕ) (inum : ℤ)
            → u.phase i ≡ looked_up inum
            → (u.holder ≡ some i) × (tfs_lookup name u.fs ≡ inum))
        × ((i : ℕ) (inum : ℤ) → u.phase i ≡ to_open inum → Names u.fs.freeinode_ts inum)
  OpenSteps-keeps w u v start steps =
      let first : Raced w = record {
        tables = v;
        own = λ i. subst (λ q. Own q i w) (sym (start i)) tt;
      } in
      let r : Raced u = OpenSteps-Raced first steps in
      (
        r.tables,
        λ i p. subst (λ q. Own q i u) p (r.own i),
        λ i inum p. subst (λ q. Own q i u) p (r.own i),
        λ i inum p. subst (λ q. Own q i u) p (r.own i),
      )
