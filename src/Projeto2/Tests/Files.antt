-- ===== src/Projeto2/Tests/Files.antt =====
-- The theorems on files at the small file systems of the tests.
use projeto_sistemas_operati.Projeto2.Operations.Contents.{Stores, KeepsFile}
use projeto_sistemas_operati.Projeto2.Invariant.{open_handles, Inv}
use projeto_sistemas_operati.Projeto2.Operations.Read.{read_unsynchronized-Reads, Reads}
use projeto_sistemas_operati.Projeto2.Operations.{
  valid_pathname, open_unsynchronized, truncate, write_unsynchronized, init_fs, read_unsynchronized,
}
use projeto_sistemas_operati.Projeto2.Operations.Writing.{offset_of, size_of}
use projeto_sistemas_operati.Base.{sym, ◌∙◌, refl, ◌≤◌, arith, ◌-◌, min, ◌<◌, ◌≡◌, pos, ℕ}
use projeto_sistemas_operati.Projeto2.Tests.{
  start_writer, start_reader, write_succeeds, open_succeeds, reader, missing_f, not_nul_f, writer3,
  fs0-Inv, writer, fs2, fs2-Inv, hello, blank, fs0, fs3, zeroed, path_f,
}
use projeto_sistemas_operati.Projeto2.Tests.Written.{
  full_fails, full_writer, end_writer3, full_fs-Inv, size3, file_1-Live, start_reader3,
  other_writer, reader3, fs4-Inv, fs3-Inv, fs4, full_fs,
}
use projeto_sistemas_operati.Projeto2.Operations.Created.{open_unsynchronized-IsNewFile, IsNewFile}
use projeto_sistemas_operati.Projeto2.Types.{taken, block_size, data_blocks, tfs_o_creat}
use projeto_sistemas_operati.Projeto2.Operations.Write.{
  write_unsynchronized-Stores, write_unsynchronized-fails, write_unsynchronized-KeepsFile,
}
use projeto_sistemas_operati.Projeto2.Invariant.Start.{init_fs-Inv}
use projeto_sistemas_operati.Projeto2.Operations.RoundTrip.{read-write}
use projeto_sistemas_operati.Projeto2.Operations.Stale.{read_after_truncate}

read-write_example :
    let (r, out, s') = read_unsynchronized (pos 1) blank 5 fs3 in
    ((c : ℕ) × (r ≡ pos c) × (min 5 (block_size - offset_of fs2 0) ≤ c))
    × ((k : ℕ) → k < min 5 (block_size - offset_of fs2 0) → out k ≡ hello k)
read-write_example =
    read-write hello 5 fs2-Inv writer reader (λ e. absurd (omega (arith, e)))
      (start_reader ∙ sym start_writer) (omega arith) write_succeeds blank 5
      (omega (arith, start_writer)) (omega arith)

write_unsynchronized-Stores_example :
    ((write_unsynchronized (pos 0) hello 5 fs2).0 ≡ pos (min 5 (block_size - offset_of fs2 0)))
    × Stores fs2 0 1 hello (min 5 (block_size - offset_of fs2 0)) fs3
write_unsynchronized-Stores_example =
    write_unsynchronized-Stores hello 5 fs2-Inv writer (omega arith) write_succeeds

write_unsynchronized-KeepsFile_example :
    KeepsFile fs4 1 (write_unsynchronized (pos 2) hello 5 fs4).1
write_unsynchronized-KeepsFile_example =
    write_unsynchronized-KeepsFile hello 5 fs4-Inv other_writer (omega arith) 1
      (λ e. absurd (omega (arith, e))) file_1-Live

write_unsynchronized-fails_example :
    (size_of full_fs 1 ≡ 0) × ((b : ℕ) → b < data_blocks → full_fs.free_blocks b ≡ taken)
write_unsynchronized-fails_example =
    write_unsynchronized-fails hello 5 full_fs-Inv full_writer (omega arith) full_fails

read_unsynchronized-Reads_example :
    Reads fs3 1 1 blank
      (min 3 (size_of fs3 1 - offset_of fs3 1))
      (read_unsynchronized (pos 1) blank 3 fs3)
read_unsynchronized-Reads_example =
    read_unsynchronized-Reads blank 3 fs3-Inv reader3 (omega (arith, start_reader3))

read_after_truncate_example :
    let s' = (truncate 1 fs3).1 in
    (size_of s' 1 ≡ 0) × Reads s' 0 1 blank 7 (read_unsynchronized (pos 0) blank 7 s')
read_after_truncate_example =
    read_after_truncate blank 7 fs3-Inv writer3 (omega (arith, size3)) (omega (arith, end_writer3))
      (omega arith) (omega (arith, end_writer3))

open_unsynchronized-IsNewFile_example :
    (i : ℕ) × IsNewFile fs0 path_f i (open_unsynchronized path_f tfs_o_creat fs0).1
unfolding valid_pathname
open_unsynchronized-IsNewFile_example =
    open_unsynchronized-IsNewFile fs0 path_f fs0-Inv refl not_nul_f missing_f (omega arith)
      tfs_o_creat refl open_succeeds

init_fs-Inv_example : ((init_fs zeroed.fs).0 ≡ pos 0) × Inv fs0 × (open_handles fs0 ≡ 0)
init_fs-Inv_example = init_fs-Inv zeroed.fs
