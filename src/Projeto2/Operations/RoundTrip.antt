-- ===== src/Projeto2/Operations/RoundTrip.antt =====
-- What one handle writes, another handle of the file reads.
use projeto_sistemas_operati.Projeto2.Types.{OpenFileEntry, block_size, Fs}
use projeto_sistemas_operati.Base.{
  arith, max, pos, ◌-◌, ◌∙◌, min, ◌≤◌, ap, false, is_minus_one, ◌^◌, ◌<◌, ◌+◌, ◌≡◌, ◌≢◌, Array, ℕ,
  ℤ,
}
use projeto_sistemas_operati.Projeto2.Invariant.{Inv}
use projeto_sistemas_operati.Projeto2.Operations.Writing.{size_of, offset_of, Opened}
use projeto_sistemas_operati.Projeto2.Operations.{read_unsynchronized, write_unsynchronized}
use projeto_sistemas_operati.Projeto2.Operations.Contents.{Stores}
use projeto_sistemas_operati.Projeto2.Operations.Write.{
  write_unsynchronized-Inv, write_unsynchronized-Stores,
}
use projeto_sistemas_operati.Projeto2.Operations.Read.{read_unsynchronized-Reads, Reads}
use projeto_sistemas_operati.Projeto2.Invariant.Write.{byte_of}

module _ {s : Fs} {writer reader : ℤ} {h g i : ℕ} (buffer : Array ℕ) (to_write : ℕ) (v : Inv s)
    (w : Opened s writer h i) (o : Opened s reader g i) (apart : h ≢ g)
    (same : offset_of s g ≡ offset_of s h) (small : to_write + block_size < 2 ^ 64)
    (done : is_minus_one (write_unsynchronized writer buffer to_write s).0 ≡ false) where
  abbrev written_fs : Fs
  written_fs = (write_unsynchronized writer buffer to_write s).1

  abbrev count_written : ℕ
  count_written = min to_write (block_size - offset_of s h)

  stores : Stores s h i buffer count_written written_fs
  stores = (write_unsynchronized-Stores buffer to_write v w small done).1

  still_open : Opened written_fs reader g i
  still_open = record {
    is_handle = o.is_handle;
    below = o.below;
    in_use = ap (λ f. f g) stores.in_use ∙ o.in_use;
    file = ap (λ (e : OpenFileEntry). e.of_inumber) (stores.handles g apart) ∙ o.file;
  }

  still_at : offset_of written_fs g ≡ offset_of s h
  still_at = ap (λ (e : OpenFileEntry). e.of_offset) (stores.handles g apart) ∙ same

  -- In well-formed tables, after a successful write that stored at least one byte and was asked
  -- for fewer than 2^64 - 1024, a read of `len` bytes through another handle of the same file that
  -- stands where the writer stood returns at least as many as were written, if `len` allows it,
  -- and begins with the bytes of the writer's buffer.
  pub read-write :
      (into : Array ℕ) (len : ℕ)
      → 0 < count_written
      → count_written ≤ len
      → let (r, out, s') = read_unsynchronized reader into len written_fs in
        ((c : ℕ) × (r ≡ pos c) × (count_written ≤ c))
        × ((k : ℕ) → k < count_written → out k ≡ buffer k)
  read-write into len p le =
      let inv : Inv written_fs = write_unsynchronized-Inv buffer to_write v w small in
      let grown : size_of written_fs i ≡ max (size_of s i) (offset_of s h + count_written) =
        stores.size p in
      let reads : Reads written_fs g i into
          (min len (size_of written_fs i - offset_of written_fs g))
          (read_unsynchronized reader into len written_fs) =
        read_unsynchronized-Reads into len inv still_open (omega (arith, still_at, grown)) in
      (
        (_, reads.result, omega (arith, still_at, grown)),
        λ k lt.
            reads.new k (omega (arith, still_at, grown))
            ∙ ap (λ x. byte_of written_fs i (x + k)) still_at
            ∙ stores.new k lt,
      )
