-- ===== src/Projeto1/Reading/Copying.antt =====
-- What `tfs_copy_to_external_fs` copies of a file within its direct blocks.
use mathlib.Core.List.{append_assoc}
use projeto_sistemas_operati.Projeto1.Types.{returns, buffer_size, Fs}
use projeto_sistemas_operati.Projeto1.Reading.{copied, tfs_read, copy_loop}
use projeto_sistemas_operati.Base.{
  sym, zero, false, ◌==◌, dec_lt, ◌<◌, ◌∙◌, suc, pos, ◌/◌, ap, arith, ◌-◌, ◌≡◌, min, ◌+◌, Array,
  ◌≤◌, ◌++◌, ℤ, List, ℕ,
}
use projeto_sistemas_operati.Projeto1.Operations.Writing.{Opened}
use projeto_sistemas_operati.Projeto1.Reading.RoundTrip.{tfs_read-ReadsFile, ReadsFile}
use projeto_sistemas_operati.Projeto1.Operations.Contents.{HasByte, direct_size, byte_at, size_of}
use projeto_sistemas_operati.Memory.{bytes_of-append, bytes_of-ext, bytes_of}
use projeto_sistemas_operati.Projeto1.Operations.{tfs_close}
use projeto_sistemas_operati.Projeto1.Handles.{offset_of, set_offset}
use projeto_sistemas_operati.Projeto1.Position.Direct.{Owns}
use projeto_sistemas_operati.Projeto1.Reading.Bytes.{set_offset-twice}

-- `count` bytes of the file `i`, from the byte `from` on.
abbrev pub content : Fs → ℕ → ℕ → ℕ → List ℕ
content s i from count = bytes_of count (λ k. byte_at s i (from + k))

content-append :
    (s : Fs) (i from n m : ℕ)
    → content s i from n ++ content s i (from + n) m ≡ content s i from (n + m)
content-append s i from n m =
    ap (λ xs. content s i from n ++ xs)
      (bytes_of-ext m _ _
        (λ k lt. ap (byte_at s i) {x = from + n + k} {y = from + (n + k)} (omega arith)))
    ∙ bytes_of-append n m (λ k. byte_at s i (from + k))

-- The state after the handle `g` has been moved to `o` and closed.
abbrev pub closed_at : Fs → ℤ → ℕ → ℕ → Fs
closed_at s fhandle g o = (tfs_close fhandle (set_offset s g o)).1

copy_loop-done :
    (fuel : ℕ) (fhandle : ℤ) (s t : Fs) (out : List ℕ) (n : ℕ) (b : Array ℕ)
    → tfs_read fhandle (λ k. 0) buffer_size s ≡ returns (pos n, b, t)
    → n < buffer_size
    → copy_loop (suc fuel) fhandle s out
      ≡ copied (pos 0) (tfs_close fhandle t).1 (out ++ bytes_of n b)
unfolding copy_loop
copy_loop-done fuel fhandle s t out n b e lt =
    let short : (n == buffer_size) ≡ false = ground (arith, lt) in rw (e, short, copy_loop)

copy_loop-more :
    (fuel : ℕ) (fhandle : ℤ) (s t : Fs) (out : List ℕ) (b : Array ℕ)
    → tfs_read fhandle (λ k. 0) buffer_size s ≡ returns (pos buffer_size, b, t)
    → copy_loop (suc fuel) fhandle s out ≡ copy_loop fuel fhandle t (out ++ bytes_of buffer_size b)
unfolding copy_loop
copy_loop-more fuel fhandle s t out b e = rw (e, copy_loop)

module _ (g i : ℕ) (fhandle : ℤ) where
  -- The handle `g` of the file `i`, all of whose bytes are in its direct blocks.
  pub record Whole (s : Fs) : Type 0 where
    pub opened : Opened s fhandle g i
    pub owns : Owns s i
    pub le : offset_of s g ≤ size_of s i
    pub within : size_of s i ≤ direct_size
    pub present : (k : ℕ) → k < size_of s i → HasByte s i k

  Whole-moved : (s : Fs) (o : ℕ) → Whole s → o ≤ size_of s i → Whole (set_offset s g o)
  Whole-moved s o w le = record {
    opened = record {
      is_handle = w.opened.is_handle;
      below = w.opened.below;
      file = ground (arith, w.opened.file);
      is_inode = w.opened.is_inode;
    };
    owns = record { is_block = w.owns.is_block; apart = w.owns.apart };
    le = ground (arith, le);
    within = w.within;
    present = w.present;
  }

  abbrev chunk : Fs → ℕ
  chunk s = min buffer_size (size_of s i - offset_of s g)

  reads :
      (s : Fs)
      → Whole s
      → ReadsFile s g i (chunk s) (λ k. 0) (tfs_read fhandle (λ k. 0) buffer_size s)
  reads s w =
      tfs_read-ReadsFile (λ k. 0) buffer_size w.opened w.owns w.le (omega (arith, w.within))
        (omega (arith, w.within)) (λ k lo hi. w.present k (omega (arith, hi)))

  abbrev pub left : Fs → ℕ
  left s = size_of s i - offset_of s g

  abbrev moved : Fs → Fs
  moved s = set_offset s g (offset_of s g + buffer_size)

  offset-moved : (s : Fs) → offset_of (moved s) g ≡ offset_of s g + buffer_size
  offset-moved s = ground arith

  -- What the rest of the loop gives after a round, put together with the round.
  rounds-content :
      (s : Fs) (out : List ℕ) (b : Array ℕ)
      → bytes_of buffer_size b ≡ content s i (offset_of s g) buffer_size
      → buffer_size ≤ left s
      → copied (pos 0) (closed_at (moved s) fhandle g (size_of s i)) (
          (out ++ bytes_of buffer_size b)
          ++ content s i (offset_of (moved s) g) (size_of s i - offset_of (moved s) g))
        ≡ copied
            (pos 0)
            (closed_at s fhandle g (size_of s i))
            (out ++ content s i (offset_of s g) (left s))
  rounds-content s out b e le =
      let o : ℕ = offset_of s g in
      let m : ℕ = size_of s i - (o + buffer_size) in
      let joined : (out ++ bytes_of buffer_size b) ++ content s i (o + buffer_size) m
          ≡ out ++ content s i o (left s) =
        append_assoc out (bytes_of buffer_size b) (content s i (o + buffer_size) m)
        ∙ ap (λ xs. out ++ (xs ++ content s i (o + buffer_size) m)) e
        ∙ ap (λ xs. out ++ xs) (content-append s i o buffer_size m)
        ∙ ap (λ n. out ++ content s i o n) (omega (arith, le)) in
      ap
        (λ p.
          copied (pos 0) (closed_at (moved s) fhandle g (size_of s i))
            ((out ++ bytes_of buffer_size b) ++ content s i p (size_of s i - p)))
        (offset-moved s)
      ∙ ap (λ xs. copied (pos 0) (closed_at (moved s) fhandle g (size_of s i)) xs) joined
      ∙ ap (λ t. copied (pos 0) (tfs_close fhandle t).1 (out ++ content s i o (left s)))
          (set_offset-twice s g (o + buffer_size) (size_of s i))

  pub copy_loop-content :
      (fuel : ℕ) (s : Fs) (out : List ℕ)
      → Whole s
      → left s / buffer_size < fuel
      → copy_loop fuel fhandle s out
        ≡ copied
            (pos 0)
            (closed_at s fhandle g (size_of s i))
            (out ++ content s i (offset_of s g) (left s))
  copy_loop-content zero s out w lt = absurd (omega (arith, lt))
  copy_loop-content (suc fuel) s out w lt =
      let o : ℕ = offset_of s g in
      let r : ReadsFile s g i (chunk s) (λ k. 0) (tfs_read fhandle (λ k. 0) buffer_size s) =
        reads s w in
      let bytes_read : bytes_of (chunk s) r.out ≡ content s i o (chunk s) =
        bytes_of-ext (chunk s) r.out _ r.new in
      elim (dec_lt (left s) buffer_size) [
        | yes short ↦
            copy_loop-done fuel fhandle s (set_offset s g (o + chunk s)) out (chunk s) r.out
              r.returned (omega (arith, short))
            ∙ ap (λ xs. copied (pos 0) (closed_at s fhandle g (o + chunk s)) (out ++ xs)) bytes_read
            ∙ ap (λ n. copied (pos 0) (closed_at s fhandle g (o + n)) (out ++ content s i o n))
                (omega (arith, short))
            ∙ ap (λ p. copied (pos 0) (closed_at s fhandle g p) (out ++ content s i o (left s)))
                {x = o + left s} (omega (arith, w.le))
        | no long ↦
            (let full : chunk s ≡ buffer_size = omega (arith, long) in
              copy_loop-more fuel fhandle s (moved s) out r.out
                (r.returned ∙ ap (λ n. returns (pos n, r.out, set_offset s g (o + n))) full)
              ∙ copy_loop-content fuel (moved s) (out ++ bytes_of buffer_size r.out)
                  (Whole-moved s (o + buffer_size) w (omega (arith, long)))
                  (omega (arith, lt, long, offset-moved s))
              ∙ rounds-content s out r.out
                  (ap (λ n. bytes_of n r.out) (sym full) ∙ bytes_read ∙ ap (content s i o) full)
                  (omega (arith, long)))
      ]
