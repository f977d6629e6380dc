-- ===== src/Projeto1/Operations/Sparing.antt =====
-- The loop of `tfs_write` spares every block that is not the file's, and so does the call.
use projeto_sistemas_operati.Projeto1.Operations.{
  clip_block, tfs_write, ends, no_block, put_bytes, write_loop, Loop, write_result, finish_write,
}
use projeto_sistemas_operati.Base.{
  zero, ◌%◌, ◌-◌, min, pos_of_test, ◌==◌, inr, inl, Bool-cases, sym, minus_one, dec_lt, suc, ◌⊎◌,
  is_minus_one, ap, arith, ◌*◌, ◌≤◌, ◌∙◌, ◌+◌, ◌≡◌, update_ne, ◌≢◌, ◌<◌, ℤ, Array, ℕ,
}
use projeto_sistemas_operati.Projeto1.Types.{returns, block_number, Fs}
use projeto_sistemas_operati.Projeto1.Operations.Others.{
  reached, nowhere, get_current_data_block-Reaches, Spares-same, Spares-then, Spares, Foreign,
}
use projeto_sistemas_operati.Projeto1.Handles.{offset_of}
use projeto_sistemas_operati.Projeto1.Operations.Writing.{tfs_write_opened, Opened}
use projeto_sistemas_operati.Projeto1.Position.{get_current_offset}
use projeto_sistemas_operati.Projeto1.Operations.Contents.{direct_size}
use projeto_sistemas_operati.Projeto2.Types.{to_ssize, index, block_size}
use projeto_sistemas_operati.Memory.{memcpy_outside}
use projeto_sistemas_operati.Projeto1.Position.Offset.{get_current_offset-mod, clip_block_lem}

module _ (h i b : ℕ) (buffer : Array ℕ) where
  module _ (from n c : ℕ) (s : Fs) (f : Foreign s i b) (ne : c ≢ b)
      (fits : get_current_offset (offset_of s h) + n ≤ block_size) where
    abbrev copied : Fs
    copied = put_bytes h i buffer from n (c * block_size) s

    numbers-copied : (j : ℕ) → block_number copied i j ≡ block_number s i j
    unfolding put_bytes
    numbers-copied j = ground arith

    outside :
        (k : ℕ)
        → k < block_size
        → let start = c * block_size + get_current_offset (offset_of s h) in
          (b * block_size + k < start) ⊎ (start + n ≤ b * block_size + k)
    outside k lt = elim (dec_lt b c) [
      | yes below ↦ inl (omega (arith, below, lt))
      | no above ↦ inr (omega (arith, above, ne, fits))
    ]

    -- A round that writes within the block `c`.
    Spares-copied : Spares s i b copied
    unfolding put_bytes
    Spares-copied = record {
      foreign = record {
        in_use = f.in_use;
        not_mine = λ j lt k e.
            f.not_mine j lt (ap is_minus_one (sym (numbers-copied j)) ∙ k)
              (ap index (sym (numbers-copied j)) ∙ e);
      };
      bytes_same =
          λ k lt. memcpy_outside s.fs_data _ buffer from n (b * block_size + k) (outside k lt);
      inodes_same = λ k other. update_ne s.inode_table i k _ other;
      type_same = ground arith;
      map_same = ground arith;
    }

  -- The loop ends or stops in a state that spares the block.
  data SparesLoop (s : Fs) (r : Loop Fs) : Type 0 where
    stops : (t : Fs) → Spares s i b t → r ≡ no_block t → SparesLoop s r
    done : (t : Fs) → Spares s i b t → r ≡ ends t → SparesLoop s r

  SparesLoop-then : {s t : Fs} {r : Loop Fs} → Spares s i b t → SparesLoop t r → SparesLoop s r
  SparesLoop-then first (stops u rest e) = stops u (Spares-then first rest) e
  SparesLoop-then first (done u rest e) = done u (Spares-then first rest) e

  offset-copied :
      (from n c : ℕ) (s : Fs)
      → offset_of s h + n ≤ direct_size
      → offset_of (put_bytes h i buffer from n (c * block_size) s) h ≡ offset_of s h + n
  unfolding put_bytes
  offset-copied from n c s le = ground (arith, le)

  write_loop-SparesLoop :
      (fuel from to_write : ℕ) (s : Fs)
      → to_write < fuel
      → Foreign s i b
      → offset_of s h + to_write ≤ direct_size
      → SparesLoop s (write_loop fuel h i buffer from to_write s)
  unfolding write_loop
  write_loop-SparesLoop zero from to_write s lt f within = absurd (omega (arith, lt))
  write_loop-SparesLoop (suc fuel) from to_write s lt f within =
      let n : ℕ = clip_block (offset_of s h) to_write in
      elim (Bool-cases (to_write == 0)) [
        | inl none_left ↦ done s (Spares-same s i b f) (rw (none_left, write_loop))
        | inr more ↦
            (let p : 0 < to_write = pos_of_test to_write more in
              let clip : n ≡ min to_write (block_size - offset_of s h % block_size) =
                clip_block_lem (offset_of s h) to_write (omega (arith, within))
                  (omega (arith, within)) in
              elim (get_current_data_block-Reaches s i b f (offset_of s h)
                (omega (arith, within, p))) [
                  | nowhere t spared e ↦ stops t spared (rw (more, e, write_loop))
                  | reached c t spared ne files e ↦
                      (let same : offset_of t h ≡ offset_of s h = ap (λ g. (g h).of_offset) files in
                        let fits : get_current_offset (offset_of t h) + n ≤ block_size = omega (
                          arith,
                          get_current_offset-mod (offset_of t h) (omega (arith, same, within)),
                          same,
                          clip,
                        ) in
                        let round : Spares s i b (put_bytes h i buffer from n (c * block_size) t) =
                          Spares-then spared (Spares-copied from n c t spared.foreign ne fits) in
                        rw (more, e, write_loop)
                          (SparesLoop-then round (
                            write_loop-SparesLoop fuel (from + n) (to_write - n)
                              (put_bytes h i buffer from n (c * block_size) t)
                              (omega (arith, lt, clip, p)) round.foreign
                              (omega (
                                arith,
                                offset-copied from n c t (omega (arith, same, clip, within)),
                                same,
                                within,
                                clip,
                              )))))
                ])
      ]

numbers-finish_write :
    (h i count : ℕ) (s t : Fs) (j : ℕ)
    → block_number (finish_write h i count s t) i j ≡ block_number t i j
unfolding finish_write
numbers-finish_write h i count s t j = ground arith

finish_write-Spares :
    (h i b count : ℕ) (s t : Fs) → Spares s i b t → Spares s i b (finish_write h i count s t)
unfolding finish_write
finish_write-Spares h i b count s t spared = record {
  foreign = record {
    in_use = spared.foreign.in_use;
    not_mine = λ j lt k e.
        spared.foreign.not_mine j lt
          (ap is_minus_one (sym (numbers-finish_write h i count s t j)) ∙ k)
          (ap index (sym (numbers-finish_write h i count s t j)) ∙ e);
  };
  bytes_same = spared.bytes_same;
  inodes_same = λ k ne. update_ne t.inode_table i k _ ne ∙ spared.inodes_same k ne;
  type_same = ground (arith, spared.type_same);
  map_same = spared.map_same;
}

-- Project 1: a write of `count` bytes through a handle of a file, where the bytes would end within
-- the direct blocks, returns and does not crash. A block in use that is not a direct block of the
-- file is still in use and not a block of the file afterwards, none of its bytes has changed, and
-- neither has any other i-node.
pub tfs_write-Spares :
    {s : Fs} {fhandle : ℤ} {h i : ℕ} (b : ℕ) (buffer : Array ℕ) (count : ℕ)
    → Opened s fhandle h i
    → Foreign s i b
    → offset_of s h + count ≤ direct_size
    → (r : ℤ) × (t : Fs) × (tfs_write fhandle buffer count s ≡ returns (r, t)) × Spares s i b t
unfolding write_result
tfs_write-Spares {s} {fhandle} {h} {i} b buffer count o f within =
    elim (write_loop-SparesLoop h i b buffer (suc count) 0 count s (omega arith) f within) [
      | stops t spared e ↦
          (minus_one, t, tfs_write_opened buffer count o ∙ ap (write_result h i count s) e, spared)
      | done t spared e ↦ (
        to_ssize count,
        finish_write h i count s t,
        tfs_write_opened buffer count o ∙ ap (write_result h i count s) e,
        finish_write-Spares h i b count s t spared,
      )
    ]
