-- ===== src/Projeto1/Reading/RoundTrip.antt =====
-- `tfs_read` within the direct blocks, and what it reads of what `tfs_write` wrote.
use projeto_sistemas_operati.Projeto1.Types.{block_number, returns, Run, Fs}
use projeto_sistemas_operati.Projeto1.Reading.{read_loop, read_result, tfs_read, clip_read}
use projeto_sistemas_operati.Base.{
  refl, ◌%◌, ◌/◌, ◌*◌, max, is_minus_one, subst, ap, ◌∙◌, sym, suc, arith, pos, ◌+◌, ◌-◌, min, ◌^◌,
  ◌≡◌, ◌≢◌, ◌<◌, Array, ◌≤◌, ℕ, ℤ,
}
use projeto_sistemas_operati.Projeto1.Operations.Writing.{
  set_size, succeeds, fails, tfs_write-WritesFile, Opened,
}
use projeto_sistemas_operati.Projeto1.Position.Direct.{Owns-same, Owns}
use projeto_sistemas_operati.Projeto1.Handles.{set_offset, offset_of}
use projeto_sistemas_operati.Projeto1.Operations.Contents.{
  Wrote, byte_at, HasByte, direct_size, size_of,
}
use projeto_sistemas_operati.Projeto1.Operations.{tfs_write}
use projeto_sistemas_operati.Projeto2.Handles.{get_open_file_entry}
use projeto_sistemas_operati.Projeto1.Reading.Bytes.{read_loop-ReadsBytes, ReadsBytes}
use projeto_sistemas_operati.Projeto2.Inodes.{inode_get}
use projeto_sistemas_operati.Projeto2.Types.{block_size, OpenFileEntry, index}

clip_read_lem :
    (size offset len : ℕ)
    → offset ≤ size
    → size < 2 ^ 64
    → clip_read size offset len ≡ min len (size - offset)
unfolding clip_read
clip_read_lem size offset len le small = ground arith

-- What a successful reading of `count` bytes gives.
pub record ReadsFile (s : Fs) (g i count : ℕ) (buffer : Array ℕ) (r : Run (ℤ × Array ℕ × Fs))
    : Type 0 where
  pub out : Array ℕ
  pub returned : r ≡ returns (pos count, out, set_offset s g (offset_of s g + count))
  pub new : (k : ℕ) → k < count → out k ≡ byte_at s i (offset_of s g + k)
  pub rest : (k : ℕ) → count ≤ k → out k ≡ buffer k

module _ {s : Fs} {fhandle : ℤ} {g i : ℕ} (buffer : Array ℕ) (len : ℕ) (o : Opened s fhandle g i)
    (own : Owns s i) (le : offset_of s g ≤ size_of s i)
    (within : min (offset_of s g + len) (size_of s i) ≤ direct_size) (small : size_of s i < 2 ^ 64)
    (all : (k : ℕ)
      → offset_of s g ≤ k
      → k < min (offset_of s g + len) (size_of s i)
      → HasByte s i k) where
  abbrev to_read : ℕ
  to_read = min len (size_of s i - offset_of s g)

  tfs_read_opened :
      tfs_read fhandle buffer len s
      ≡ read_result (clip_read (size_of s i) (offset_of s g) len) (
          read_loop
            (suc (clip_read (size_of s i) (offset_of s g) len))
            g
            i
            0
            (clip_read (size_of s i) (offset_of s g) len)
            (buffer, s))
  unfolding tfs_read get_open_file_entry inode_get
  tfs_read_opened = ground (arith, o)

  -- Project 1: a read of `len` bytes through a handle whose offset is not past the end of the file
  -- returns the smaller of `len` and what is left; it copies exactly these bytes of the file to
  -- the front of the buffer, leaves the rest of the buffer, and of the tables it changes the
  -- handle's offset alone, by that number. The direct blocks of the file are blocks in use and
  -- distinct, the bytes to read end within them and their blocks are there, and the size is below
  -- 2^64.
  pub tfs_read-ReadsFile : ReadsFile s g i to_read buffer (tfs_read fhandle buffer len s)
  unfolding read_result
  tfs_read-ReadsFile =
      let reads : ReadsBytes s g i 0 to_read buffer
          (read_loop (suc to_read) g i 0 to_read (buffer, s)) =
        read_loop-ReadsBytes (suc to_read) g i 0 to_read buffer s (omega arith) own
          (omega (arith, le, within))
          (λ k lt. all (offset_of s g + k) (omega arith) (omega (arith, lt))) in
      record {
        out = reads.out;
        returned =
            tfs_read_opened
            ∙ ap (λ n. read_result n (read_loop (suc n) g i 0 n (buffer, s)))
                (clip_read_lem (size_of s i) (offset_of s g) len le small)
            ∙ ap (read_result to_read) reads.ended
            ∙ ap (λ n. returns (n, reads.out, set_offset s g (offset_of s g + to_read)))
                (ground (arith, le, within));
        new = λ k lt. ap reads.out (omega arith) ∙ reads.new k lt;
        rest = λ k ge. reads.beyond k (omega (arith, ge));
      }

module _ {s : Fs} {writer reader : ℤ} {h g i : ℕ} (buffer : Array ℕ) (count : ℕ)
    (w : Opened s writer h i) (o : Opened s reader g i) (apart : h ≢ g) (own : Owns s i)
    (same : offset_of s g ≡ offset_of s h) (within : offset_of s h + count ≤ direct_size)
    (small : size_of s i + direct_size < 2 ^ 64) where
  module _ (t : Fs) (wrote : Wrote s h i buffer 0 count t) where
    abbrev resized : Fs
    resized = set_size t i (max (size_of s i) (offset_of s h + count))

    numbers-resized : (k : ℕ) → block_number resized i k ≡ block_number t i k
    numbers-resized k = ground arith

    Owns-resized : Owns resized i
    Owns-resized = Owns-same refl numbers-resized wrote.owns

    same_entry : t.open_file_table g ≡ s.open_file_table g
    same_entry = wrote.handles g apart

    reader-resized : Opened resized reader g i
    reader-resized = record {
      is_handle = o.is_handle;
      below = o.below;
      file = ap (λ (e : OpenFileEntry). e.of_inumber) same_entry ∙ o.file;
      is_inode = o.is_inode;
    }

    offset-resized : offset_of resized g ≡ offset_of s h
    offset-resized = ap (λ (e : OpenFileEntry). e.of_offset) same_entry ∙ same

    size-resized : size_of resized i ≡ max (size_of s i) (offset_of s h + count)
    size-resized = ground arith

    HasByte-resized : (k : ℕ) → offset_of s h ≤ k → k < offset_of s h + count → HasByte resized i k
    HasByte-resized k lo hi =
        ap is_minus_one (numbers-resized (k / block_size))
        ∙ subst (HasByte t i) (omega (arith, lo))
            (wrote.has_new (k - offset_of s h) (omega (arith, lo, hi)))

    byte_at-resized : (k : ℕ) → byte_at resized i k ≡ byte_at t i k
    byte_at-resized k =
        ap (λ z. t.fs_data (index z * block_size + k % block_size))
          (numbers-resized (k / block_size))

    reads-resized :
        (into : Array ℕ)
        → ReadsFile resized g i
            (min count (size_of resized i - offset_of resized g))
            into
            (tfs_read reader into count resized)
    reads-resized into =
        tfs_read-ReadsFile into count reader-resized Owns-resized
          (omega (arith, offset-resized, size-resized))
          (omega (arith, offset-resized, size-resized, within))
          (omega (arith, size-resized, within, small))
          (λ k lo hi.
            HasByte-resized k (omega (arith, lo, offset-resized))
              (omega (arith, hi, offset-resized, size-resized)))

    read_back :
        (into : Array ℕ)
        → (out : Array ℕ) × (tfs_read reader into count resized
            ≡ returns (pos count, out, set_offset resized g (offset_of s h + count)))
          × ((k : ℕ) → k < count → out k ≡ buffer k)
          × ((k : ℕ) → count ≤ k → out k ≡ into k)
    read_back into =
        let reads : ReadsFile resized g i (min count (size_of resized i - offset_of resized g)) into
            (tfs_read reader into count resized) =
          reads-resized into in
        let whole : min count (size_of resized i - offset_of resized g) ≡ count =
          omega (arith, offset-resized, size-resized) in
        (
          reads.out,
          reads.returned
              ∙ ap (λ n. returns (pos n, reads.out, set_offset resized g (offset_of resized g + n)))
                  whole
              ∙ ap (λ p. returns (pos count, reads.out, set_offset resized g (p + count)))
                  offset-resized,
          (λ k lt.
              reads.new k (omega (arith, lt, whole))
              ∙ byte_at-resized (offset_of resized g + k)
              ∙ ap (λ p. byte_at t i (p + k)) offset-resized
              ∙ wrote.new k lt
              ∙ ap buffer (omega arith)),
          λ k ge. reads.rest k (omega (arith, ge, whole)),
        )

  -- Project 1: after a successful write of `count` bytes, a read of as many through another handle
  -- of the same file, which stands where the writer stood, returns `count`, copies the bytes of
  -- the writer's buffer to the front of its own, leaves the rest of its own, and moves its offset
  -- by `count`. The direct blocks of the file are blocks in use and distinct; the bytes written
  -- end within them, and the size with 10240 more is below 2^64.
  pub tfs_read-tfs_write :
      (t : Fs) (into : Array ℕ)
      → tfs_write writer buffer count s ≡ returns (pos count, t)
      → (out : Array ℕ) × (tfs_read reader into count t
          ≡ returns (pos count, out, set_offset t g (offset_of s h + count)))
        × ((k : ℕ) → k < count → out k ≡ buffer k)
        × ((k : ℕ) → count ≤ k → out k ≡ into k)
  tfs_read-tfs_write t into e = elim (tfs_write-WritesFile buffer count w own within small) [
    | fails t' done lt w' all e' ↦ absurd (cc (sym e ∙ e'))
    | succeeds t' wrote e' ↦
        (let same_state : resized t' wrote ≡ t = cc (sym e' ∙ e) in
          subst
            (λ u.
              (out : Array ℕ) × (tfs_read reader into count u
                ≡ returns (pos count, out, set_offset u g (offset_of s h + count)))
              × ((k : ℕ) → k < count → out k ≡ buffer k)
              × ((k : ℕ) → count ≤ k → out k ≡ into k))
            same_state (read_back t' wrote into))
  ]
