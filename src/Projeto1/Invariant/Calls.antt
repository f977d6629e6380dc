-- ===== src/Projeto1/Invariant/Calls.antt =====
-- The states that calls of fs/operations.c reach, one call at a time.
use projeto_sistemas_operati.Projeto1.Operations.{
  tfs_lookup, tfs_write, tfs_open, tfs_init, tfs_close,
}
use projeto_sistemas_operati.Projeto1.Types.{buffer_size, returns, Fs}
use projeto_sistemas_operati.Projeto2.Directory.{entry_is_empty}
use projeto_sistemas_operati.Base.{
  is_nonneg, true, ◌/◌, List, update_ne, ap, ℕ_discrete, ◌-◌, pos, min, ◌^◌, ◌∙◌, ◌+◌, ◌≤◌, refl,
  sym, ◌≡◌, subst, arith, ℤ, ◌<◌, Array, ℕ,
}
use projeto_sistemas_operati.Memory.{CString}
use projeto_sistemas_operati.Projeto1.Invariant.{file_of, Names-IsFile, Inv}
use projeto_sistemas_operati.Projeto1.Operations.Start.{tfs_init_lem, Separate-rooted, rooted}
use projeto_sistemas_operati.Projeto1.Invariant.Opening.{lookup-Names, tfs_open-Inv}
use projeto_sistemas_operati.Projeto1.Invariant.Creating.{
  Inv-handles, remove_from_open_file_table-Inv,
}
use projeto_sistemas_operati.Projeto2.Types.{OpenFileEntry, taken, max_dir_entries, max_open_files}
use projeto_sistemas_operati.Projeto1.Invariant.Writing.{tfs_write-Inv}
use projeto_sistemas_operati.Projeto2.Invariant.Start.{clear_entries-empty}
use projeto_sistemas_operati.Projeto1.Operations.Apart.{returns-same}
use projeto_sistemas_operati.Projeto1.Handles.{set_offset, offset_of}
use projeto_sistemas_operati.Projeto1.Operations.Contents.{HasByte, size_of, direct_size}
use projeto_sistemas_operati.Projeto1.Reading.{tfs_copy_to_external_fs, copied, Copy, tfs_read}
use projeto_sistemas_operati.Projeto2.Invariant.{Names}
use projeto_sistemas_operati.Projeto1.Operations.Writing.{Opened}
use projeto_sistemas_operati.Projeto1.Reading.RoundTrip.{tfs_read-ReadsFile, ReadsFile}
use projeto_sistemas_operati.Projeto1.Reading.External.{
  whole, no_handle, tfs_copy_to_external_fs-CopiesFile,
}

-- A read of `len` bytes through the handle `h` starts within its file and stays within the direct
-- blocks, and the blocks of its bytes are there.
pub record Readable (s : Fs) (h len : ℕ) : Type 0 where
  pub starts : offset_of s h ≤ size_of s (file_of s h)
  pub small : size_of s (file_of s h) < 2 ^ 64
  pub within : min (offset_of s h + len) (size_of s (file_of s h)) ≤ direct_size
  pub present :
      (k : ℕ)
      → offset_of s h ≤ k
      → k < min (offset_of s h + len) (size_of s (file_of s h))
      → HasByte s (file_of s h) k

-- A call. Writes and reads go through handles in use; a write ends within the direct blocks, as does a
-- file that is copied outside, whose blocks are all there.
pub data Call (s : Fs) : Fs → Type 0 where
  opens : (name : CString) (flags : ℕ) → Call s (tfs_open name flags s).1
  closes : (fhandle : ℤ) → Call s (tfs_close fhandle s).1
  writes :
      {t : Fs} (h : ℕ) (buffer : Array ℕ) (count : ℕ) (z : ℤ)
      → h < max_open_files
      → s.free_open_file_entries h ≡ taken
      → offset_of s h + count ≤ direct_size
      → size_of s (file_of s h) + direct_size < 2 ^ 64
      → tfs_write (pos h) buffer count s ≡ returns (z, t)
      → Call s t
  reads :
      {t : Fs} (h : ℕ) (buffer out : Array ℕ) (len : ℕ) (z : ℤ)
      → h < max_open_files
      → s.free_open_file_entries h ≡ taken
      → Readable s h len
      → tfs_read (pos h) buffer len s ≡ returns (z, out, t)
      → Call s t
  copies :
      {t : Fs} (path : CString) (i fuel : ℕ) (z : ℤ) (out : List ℕ)
      → tfs_lookup path s ≡ pos i
      → size_of s i ≤ direct_size
      → ((k : ℕ) → k < size_of s i → HasByte s i k)
      → size_of s i / buffer_size < fuel
      → tfs_copy_to_external_fs true path fuel s ≡ copied z t out
      → Call s t

pub data Calls (s : Fs) : Fs → Type 0 where
  none_yet : Calls s s
  then_call : {t u : Fs} → Calls s t → Call t u → Calls s u

file-moved :
    (s : Fs) (h o g : ℕ)
    → ((set_offset s h o).open_file_table g).of_inumber ≡ (s.open_file_table g).of_inumber
file-moved s h o g = elim (ℕ_discrete h g) [
  | yes e ↦ ground (arith, e)
  | no ne ↦ ap (λ (f : OpenFileEntry). f.of_inumber) (update_ne s.open_file_table h g _ ne)
]

tfs_read-Inv :
    {s : Fs} (h : ℕ) (buffer : Array ℕ) (len : ℕ)
    → Inv s
    → h < max_open_files
    → s.free_open_file_entries h ≡ taken
    → Readable s h len
    → (z : ℤ) × (out : Array ℕ) × (t : Fs) × (tfs_read (pos h) buffer len s ≡ returns (z, out, t))
      × Inv t
tfs_read-Inv {s} h buffer len v below used r =
    let i : ℕ = file_of s h in
    let named : Names s.freeinode_ts (s.open_file_table h).of_inumber = v.handles h below used in
    let o : Opened s (pos h) h i = record {
      is_handle = refl;
      below = below;
      file = named.is_pos;
      is_inode = named.below;
    } in
    let done : ReadsFile s h i (min len (size_of s i - offset_of s h)) buffer
        (tfs_read (pos h) buffer len s) =
      tfs_read-ReadsFile buffer len o (v.apart.owns i named.below (Names-IsFile v named)) r.starts
        r.within r.small r.present in
    (
      _,
      done.out,
      _,
      done.returned,
      Inv-handles _ s.free_open_file_entries s.inode_table_lock v (λ g lt taken_g.
          subst (Names s.freeinode_ts) (sym (file-moved s h _ g)) (v.handles g lt taken_g)),
    )

copied_state :
    {r : Copy} {y z : ℤ} {t u : Fs} {out out' : List ℕ}
    → r ≡ copied y t out
    → r ≡ copied z u out'
    → t ≡ u
copied_state e e' = cc (sym e ∙ e')

tfs_copy_to_external_fs-Inv :
    {s t : Fs} (path : CString) (i fuel : ℕ) (z : ℤ) (out : List ℕ)
    → Inv s
    → tfs_lookup path s ≡ pos i
    → size_of s i ≤ direct_size
    → ((k : ℕ) → k < size_of s i → HasByte s i k)
    → size_of s i / buffer_size < fuel
    → tfs_copy_to_external_fs true path fuel s ≡ copied z t out
    → Inv t
tfs_copy_to_external_fs-Inv {s} path i fuel z out v found within present enough e =
    let named : Names s.freeinode_ts (pos i) =
      subst (Names s.freeinode_ts) found (lookup-Names s v path (ap is_nonneg found)) in
    elim (tfs_copy_to_external_fs-CopiesFile s path i fuel found named.below
      (v.apart.owns i named.below (Names-IsFile v named)) within present enough) [
        | no_handle all e' ↦ subst Inv (copied_state e' e) v
        | whole files e' same ↦ subst Inv (copied_state e' e) (
            Inv-handles files s.free_open_file_entries s.inode_table_lock v (λ h lt used.
              subst (λ (f : OpenFileEntry). Names s.freeinode_ts f.of_inumber) (sym (same h used))
                (v.handles h lt used)))
      ]

Call-Inv : {s t : Fs} → Call s t → Inv s → Inv t
unfolding tfs_close
Call-Inv {s} (opens name flags) v = tfs_open-Inv s name flags v
Call-Inv {s} (closes fhandle) v = remove_from_open_file_table-Inv s fhandle v
Call-Inv {s} (writes h buffer count z below used within small e) v =
    let (y, u, e', w) = tfs_write-Inv h buffer count v below used within small in
    subst Inv (returns-same e e') w
Call-Inv {s} (reads h buffer out len z below used r e) v =
    let (y, out', u, e', w) = tfs_read-Inv h buffer len v below used r in
    subst Inv (cc (sym e' ∙ e)) w
Call-Inv (copies path i fuel z out found within present enough e) v =
    tfs_copy_to_external_fs-Inv path i fuel z out v found within present enough e

Calls-Inv : {s t : Fs} → Calls s t → Inv s → Inv t
Calls-Inv none_yet v = v
Calls-Inv (then_call r c) v = Call-Inv c (Calls-Inv r v)

rooted-Inv : (s : Fs) → Inv (rooted s)
unfolding entry_is_empty
rooted-Inv s = record {
  apart = Separate-rooted s;
  root_number = refl;
  files = λ i p lt used. absurd (ground (arith, p, lt, used));
  entries = λ k lt used.
      absurd (ground (arith, clear_entries-empty max_dir_entries s.fs_data 0 k lt, used));
  handles = λ h lt used. absurd (ground (arith, lt, used));
}

pub tfs_init-Calls :
    (s t : Fs)
    → Calls (tfs_init s).1 t
    → Inv t
      × ((h count : ℕ) (buffer : Array ℕ)
          → h < max_open_files
          → t.free_open_file_entries h ≡ taken
          → offset_of t h + count ≤ direct_size
          → size_of t (file_of t h) + direct_size < 2 ^ 64
          → (z : ℤ) × (u : Fs) × (tfs_write (pos h) buffer count t ≡ returns (z, u)))
tfs_init-Calls s t calls =
    let v : Inv t = Calls-Inv calls (subst (λ r. Inv r.1) (sym (tfs_init_lem s)) (rooted-Inv s)) in
    (
      v,
      λ h count buffer below used within small.
          let (z, u, e, w) = tfs_write-Inv h buffer count v below used within small in (z, u, e),
    )
