-- ===== src/Projeto1/Invariant/Racing.antt =====
-- Two threads in `tfs_open` with one path: the race between the lookup and the creation.
use projeto_sistemas_operati.Memory.{CString, IsText}
use projeto_sistemas_operati.Projeto1.Types.{Fs}
use projeto_sistemas_operati.Projeto1.Inodes.{inode_create}
use projeto_sistemas_operati.Projeto1.Invariant.{Inv}
use projeto_sistemas_operati.Projeto1.Invariant.Created.{open_new-twice}
use projeto_sistemas_operati.Projeto1.Operations.{open_new, tfs_lookup, valid_pathname}
use projeto_sistemas_operati.Projeto1.Operations.Separate.{IsFile}
use projeto_sistemas_operati.Projeto1.Operations.Racing.{
  Openers, OpenStep, OpenSteps, after_lookup, at_entry, create_missing, creates, give_back,
  gives_back, locks, look_up, looked_up, looks_up, not_begun, returned, take_lock, then_step,
  to_create, with_lock,
}
use projeto_sistemas_operati.Projeto2.Types.{has_flag, t_file, tfs_o_creat, max_file_name}
use projeto_sistemas_operati.Base.{
  false, true, ◌≡◌, ◌≢◌, ◌<◌, ◌∙◌, sym, ap, refl, arith, ℕ, pos, none, update_self, update_ne,
  minus_one, is_minus_one, length, drop, subst,
}

-- The thread `i` has found nothing in `u`, has given the lock back and is to create the file; the
-- tables and the other threads are as in `w`.
record ToCreate (i : ℕ) (w u : Openers) : Type 0 where
  there : u.phase i ≡ to_create
  free_lock : u.holder ≡ none
  tables_same : u.fs ≡ w.fs
  others_same : (j : ℕ) → i ≢ j → u.phase j ≡ w.phase j

-- The thread `i` has created a file and has returned with what `open_new` gave.
record HasCreated (name : CString) (i : ℕ) (w u : Openers) : Type 0 where
  returned_it : u.phase i ≡ returned (open_new name w.fs).0
  free_lock : u.holder ≡ none
  tables : u.fs ≡ (open_new name w.fs).1
  others_same : (j : ℕ) → i ≢ j → u.phase j ≡ w.phase j

open_new-inode :
    (name : CString) (s : Fs)
    → is_minus_one (open_new name s).0 ≡ false
    → is_minus_one (inode_create t_file s).0 ≡ false
unfolding open_new
open_new-inode name s ok = ground (arith, ok)

module _ (name : CString) (flags : ℕ) where
  come-to-create :
      (s w : Openers) (i : ℕ)
      → OpenSteps name flags s w
      → valid_pathname name ≡ true
      → has_flag flags tfs_o_creat ≡ true
      → w.phase i ≡ at_entry
      → w.holder ≡ none
      → tfs_lookup name w.fs ≡ minus_one
      → (u : Openers) × OpenSteps name flags s u × ToCreate i w u
  unfolding take_lock look_up give_back after_lookup
  come-to-create s w i r valid creat entry lock_free missing =
      let a : Openers = take_lock i w in
      let b : Openers = look_up name i a in
      let u : Openers = give_back flags minus_one i b in
      let at_b : b.phase i ≡ looked_up minus_one = update_self a.phase i _ ∙ ap looked_up missing in
      (
        u,
        then_step i
            (then_step i (then_step i r (locks entry valid lock_free refl))
              (looks_up (update_self w.phase i with_lock) refl refl))
            (gives_back minus_one at_b refl refl),
        record {
          there = update_self b.phase i _ ∙ ground (arith, creat);
          free_lock = refl;
          tables_same = refl;
          others_same = λ j ne.
              update_ne b.phase i j _ ne
              ∙ update_ne a.phase i j _ ne
              ∙ update_ne w.phase i j with_lock ne;
        },
      )

  create :
      (w : Openers) (i : ℕ)
      → w.phase i ≡ to_create
      → w.holder ≡ none
      → is_minus_one (open_new name w.fs).0 ≡ false
      → OpenStep name flags i w (create_missing name i w)
        × HasCreated name i w (create_missing name i w)
  unfolding create_missing
  create w i there lock_free ok = (
    creates there lock_free refl,
    record {
      returned_it = update_self w.phase i _;
      free_lock = rw (open_new-inode name w.fs ok) refl;
      tables = refl;
      others_same = λ j ne. update_ne w.phase i j _ ne;
    },
  )

-- Project 1: where two threads enter tfs_open with the same missing path and O_CREAT, and no
-- thread has inode_table_lock, both can take the lock in turn, find nothing and give it back, with
-- the tables as before, before either creates the file; then one creates it, a lookup now finds
-- it, and the other creates a second file and returns too. The two handles are of different files
-- in use. The path is valid, its name has at most 39 bytes, none of them 0, the tables are well
-- formed, and the two creations, one after the other, succeed.
pub OpenStep-race :
    (name : CString) (flags i j : ℕ) (w : Openers)
    → i ≢ j
    → w.phase i ≡ at_entry
    → w.phase j ≡ at_entry
    → w.holder ≡ none
    → Inv w.fs
    → valid_pathname name ≡ true
    → IsText (drop 1 name)
    → length (drop 1 name) < max_file_name
    → has_flag flags tfs_o_creat ≡ true
    → tfs_lookup name w.fs ≡ minus_one
    → is_minus_one (open_new name w.fs).0 ≡ false
    → is_minus_one (open_new name (open_new name w.fs).1).0 ≡ false
    → (x y z : Openers) × (a b h g : ℕ) × OpenSteps name flags w x
      × (x.fs ≡ w.fs)
      × OpenStep name flags i x y
      × (y.phase i ≡ returned (pos h))
      × (y.phase j ≡ to_create)
      × (tfs_lookup name y.fs ≡ pos a)
      × OpenStep name flags j y z
      × (z.phase j ≡ returned (pos g))
      × (a ≢ b)
      × IsFile z.fs a
      × IsFile z.fs b
      × ((z.fs.open_file_table h).of_inumber ≡ pos a)
      × ((z.fs.open_file_table g).of_inumber ≡ pos b)
OpenStep-race name flags i j w ne at_i at_j lock_free v valid text fits creat missing ok ok' =
    let (u, to_u, c) =
      come-to-create name flags w w i not_begun valid creat at_i lock_free missing in
    let (x, to_x, d) =
      come-to-create name flags w u j to_u valid creat (c.others_same j ne ∙ at_j) c.free_lock
        (ap (tfs_lookup name) c.tables_same ∙ missing) in
    let same : x.fs ≡ w.fs = d.tables_same ∙ c.tables_same in
    let y : Openers = create_missing name i x in
    let (step, e) =
      create name flags x i (d.others_same i (λ q. ne (sym q)) ∙ c.there) d.free_lock
        (ap (λ t. is_minus_one (open_new name t).0) same ∙ ok) in
    let after : y.fs ≡ (open_new name w.fs).1 = e.tables ∙ ap (λ t. (open_new name t).1) same in
    let (step', f) =
      create name flags y j (e.others_same j ne ∙ d.there) e.free_lock
        (ap (λ t. is_minus_one (open_new name t).0) after ∙ ok') in
    let z : Openers = create_missing name j y in
    let last : z.fs ≡ (open_new name (open_new name w.fs).1).1 =
      f.tables ∙ ap (λ t. (open_new name t).1) after in
    let (a, b, h, g, found, other, file_a, file_b, ret_h, ret_g, of_h, of_g) =
      open_new-twice w.fs name v valid text fits missing ok ok' in
    (
      x,
      y,
      z,
      a,
      b,
      h,
      g,
      to_x,
      same,
      step,
      e.returned_it ∙ ap (λ t. returned (open_new name t).0) same ∙ ap returned ret_h,
      e.others_same j ne ∙ d.there,
      ap (tfs_lookup name) after ∙ found,
      step',
      f.returned_it ∙ ap (λ t. returned (open_new name t).0) after ∙ ap returned ret_g,
      other,
      subst (λ t. IsFile t a) (sym last) file_a,
      subst (λ t. IsFile t b) (sym last) file_b,
      ap (λ (t : Fs). (t.open_file_table h).of_inumber) last ∙ of_h,
      ap (λ (t : Fs). (t.open_file_table g).of_inumber) last ∙ of_g,
    )
