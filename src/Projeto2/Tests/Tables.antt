-- ===== src/Projeto2/Tests/Tables.antt =====
-- The theorems on blocks, i-nodes, directories and handles at the small file systems of the tests.
use projeto_sistemas_operati.Projeto2.Directory.{add_dir_entry, find_in_dir}
use projeto_sistemas_operati.Projeto2.Tests.{
  adding_succeeds, missing_g, length-repeat, IsText-repeat, not_nul_g, name_g, repeat, fs1,
}
use projeto_sistemas_operati.Base.{arith, ◌≡◌, pos}
use projeto_sistemas_operati.Projeto2.Directory.RoundTrip.{
  find_in_dir-add_dir_entry, find_in_dir-add_dir_entry_long,
}

find_in_dir-add_dir_entry_example :
    find_in_dir (pos 0) name_g (add_dir_entry (pos 0) (pos 2) name_g fs1).1 ≡ pos 2
find_in_dir-add_dir_entry_example =
    find_in_dir-add_dir_entry fs1 (pos 0) (pos 2) name_g not_nul_g (omega arith) missing_g
      adding_succeeds

find_in_dir-add_dir_entry_long_example :
    find_in_dir (pos 0) (repeat 40 b'a') (add_dir_entry (pos 0) (pos 2) (repeat 40 b'a') fs1).1
    ≡ find_in_dir (pos 0) (repeat 40 b'a') fs1
find_in_dir-add_dir_entry_long_example =
    find_in_dir-add_dir_entry_long fs1 (pos 0) (pos 2) (repeat 40 b'a') (repeat 40 b'a')
      (IsText-repeat 40 b'a' (λ e. absurd (omega (arith, e))))
      (omega (arith, length-repeat 40 b'a'))
