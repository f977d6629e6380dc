-- ===== src/Projeto2/Operations/Read.antt =====
-- `read_unsynchronized` through a handle in use.
use native.Mathlib.Nat.{add-zero}
use projeto_sistemas_operati.Projeto2.Operations.{
  set_offset, clip_read, read_block, read_unsynchronized,
}
use projeto_sistemas_operati.Projeto2.Types.{
  valid_block_number, taken, inode_table_size, block_size, Fs,
}
use projeto_sistemas_operati.Base.{
  some, inr, ◌%◌, ap, true, ◌∙◌, zero, ltb, suc, refl, ◌*◌, sym, update_same, arith, ◌^◌, ◌-◌, pos,
  ℕ_discrete, ◌+◌, min, ◌≡◌, ◌≤◌, Array, ◌<◌, ℤ, ℕ,
}
use projeto_sistemas_operati.Projeto2.Handles.{get_open_file_entry}
use projeto_sistemas_operati.Projeto2.Invariant.{block_of, Live, Inv}
use projeto_sistemas_operati.Projeto2.Inodes.{inode_get}
use projeto_sistemas_operati.Projeto2.Operations.Writing.{Opened-Names, size_of, Opened, offset_of}
use projeto_sistemas_operati.Projeto2.Invariant.Write.{byte_of}
use projeto_sistemas_operati.Memory.{memcpy_outside, memcpy_inside, memcpy}
use projeto_sistemas_operati.Projeto2.Blocks.{data_block_get}

-- Up to the end of the file a read takes what is left of it.
clip_read_lem :
    (size offset len : ℕ)
    → offset ≤ size
    → size ≤ block_size
    → clip_read size offset len ≡ min len (size - offset)
unfolding clip_read
clip_read_lem size offset len le small = ground arith

pub read_unsynchronized_open :
    {s : Fs} {fhandle : ℤ} {h i : ℕ} (buffer : Array ℕ) (len : ℕ)
    → Inv s
    → Opened s fhandle h i
    → read_unsynchronized fhandle buffer len s
      ≡ read_block h i buffer (clip_read (size_of s i) (offset_of s h) len) s
unfolding read_unsynchronized get_open_file_entry inode_get
read_unsynchronized_open buffer len v o = ground (arith, o, Opened-Names v o)

-- `n` bytes of the file `i`, from the handle's offset on, stand at the front of the buffer; only
-- the offset has changed.
pub record Reads (s : Fs) (h i : ℕ) (buffer : Array ℕ) (n : ℕ) (r : ℤ × Array ℕ × Fs) : Type 0 where
  pub result : r.0 ≡ pos n
  pub new : (k : ℕ) → k < n → r.1 k ≡ byte_of s i (offset_of s h + k)
  pub rest : (k : ℕ) → n ≤ k → r.1 k ≡ buffer k
  pub state : r.2 ≡ set_offset s h (offset_of s h + n)

set_offset_self : (s : Fs) (h : ℕ) → set_offset s h (offset_of s h + 0) ≡ s
set_offset_self s h = simp (add-zero, update_same s.open_file_table h)

read_block_lem :
    (s : Fs) (h i : ℕ) (buffer : Array ℕ) (n : ℕ)
    → valid_block_number (s.inode_table i).i_data_block ≡ true
    → offset_of s h + n < 2 ^ 63
    → 0 < n
    → read_block h i buffer n s ≡ (
      pos n,
      memcpy buffer 0 s.fs_data (block_of s.inode_table i * block_size + offset_of s h) n,
      set_offset s h (offset_of s h + n),
    )
unfolding read_block data_block_get
read_block_lem s h i buffer n b small p =
    let test : ltb 0 n ≡ true = ground arith in
    let fits : ltb n (2 ^ 63) ≡ true = ground arith in
    let whole : (offset_of s h + n) % 2 ^ 64 ≡ offset_of s h + n = omega arith in
    let got : data_block_get (s.inode_table i).i_data_block
        ≡ some (block_of s.inode_table i * block_size) =
      ground (arith, b) in
    rw (test, got, fits, whole, read_block)

pub read_block-Reads :
    (s : Fs) (h i : ℕ) (buffer : Array ℕ) (n : ℕ)
    → valid_block_number (s.inode_table i).i_data_block ≡ true
    → offset_of s h + n < 2 ^ 63
    → 0 < n
    → Reads s h i buffer n (read_block h i buffer n s)
read_block-Reads s h i buffer n b small p =
    let base : ℕ = block_of s.inode_table i * block_size in
    rw (read_block_lem s h i buffer n b small p) (record {
      result = refl;
      new = λ k lt.
          memcpy_inside buffer 0 s.fs_data (base + offset_of s h) n k (omega arith) (omega arith)
          ∙ ap s.fs_data (omega arith);
      rest =
          λ k le. memcpy_outside buffer 0 s.fs_data (base + offset_of s h) n k (inr (omega arith));
      state = refl;
    })

read_block-zero :
    (s : Fs) (h i : ℕ) (buffer : Array ℕ) → Reads s h i buffer 0 (read_block h i buffer 0 s)
unfolding read_block
read_block-zero s h i buffer = record {
  result = refl;
  new = λ k lt. absurd (omega arith);
  rest = λ k le. refl;
  state = sym (set_offset_self s h);
}

read_block-within :
    (s : Fs) (h i : ℕ) (buffer : Array ℕ) (n : ℕ)
    → Inv s
    → 0 < i
    → i < inode_table_size
    → s.freeinode_ts i ≡ taken
    → offset_of s h + n ≤ size_of s i
    → Reads s h i buffer n (read_block h i buffer n s)
read_block-within s h i buffer zero v p lt u le = read_block-zero s h i buffer
read_block-within s h i buffer (suc n) v p lt u le =
    let live : Live s.inode_table s.freeinode_ts i = record {
      not_root = p;
      below = lt;
      in_use = u;
      nonempty = omega arith;
    } in
    read_block-Reads s h i buffer (suc n) (ground (arith, v.files.blocks i live))
      (omega (arith, v.files.small i p lt u)) (omega arith)

-- In well-formed tables, a read through a handle in use, whose offset is not past the end of the
-- file, returns how many bytes it takes: what is left after the offset, at most `len`. It copies
-- exactly these bytes to the front of the buffer, and of the tables it changes the handle's offset
-- alone, by that number.
pub read_unsynchronized-Reads :
    {s : Fs} {fhandle : ℤ} {h i : ℕ} (buffer : Array ℕ) (len : ℕ)
    → Inv s
    → Opened s fhandle h i
    → offset_of s h ≤ size_of s i
    → Reads s h i buffer
        (min len (size_of s i - offset_of s h))
        (read_unsynchronized fhandle buffer len s)
read_unsynchronized-Reads {s} {fhandle} {h} {i} buffer len v o le =
    let (p, lt, u, small) = Opened-Names v o in
    rw
      (
        read_unsynchronized_open buffer len v o,
        clip_read_lem (size_of s i) (offset_of s h) len le (v.files.small i p lt u),
      )
      (read_block-within s h i buffer _ v p lt u (omega arith))

set_offset-Inv : (s : Fs) (h offset : ℕ) → Inv s → offset ≤ block_size → Inv (set_offset s h offset)
set_offset-Inv s h offset v le = record {
  root = v.root;
  files = v.files;
  entries = v.entries;
  handles = λ j lt used. elim (ℕ_discrete h j) [
    | yes same ↦ ground (arith, v.handles j lt)
    | no other ↦ ground (arith, v.handles j lt)
  ];
}

-- A read through a handle in use, whose offset is not past the end of the file, keeps the tables
-- well formed.
pub read_unsynchronized-Inv :
    {s : Fs} {fhandle : ℤ} {h i : ℕ} (buffer : Array ℕ) (len : ℕ)
    → Inv s
    → Opened s fhandle h i
    → offset_of s h ≤ size_of s i
    → Inv (read_unsynchronized fhandle buffer len s).2
read_unsynchronized-Inv {s} {fhandle} {h} {i} buffer len v o le =
    let (p, lt, u, small) = Opened-Names v o in
    rw ((read_unsynchronized-Reads buffer len v o le).state)
      (set_offset-Inv s h _ v (omega (arith, v.files.small i p lt u)))
