-- ===== src/Projeto1/Reading/Bytes.antt =====
-- The loop of `tfs_read` over bytes whose blocks the file has.
use projeto_sistemas_operati.Projeto1.Position.{direct_block, get_current_data_block}
use projeto_sistemas_operati.Projeto1.Types.{returns, Fs}
use projeto_sistemas_operati.Projeto1.Reading.{take_bytes, read_loop}
use projeto_sistemas_operati.Base.{
  refl, subst, ◌-◌, min, pos_of_test, dec_lt, sym, zero_of_test, ◌%◌, fun_ext, zero, inr, ◌*◌, inl,
  ◌==◌, ◌/◌, Bool-cases, some, update_same, ◌∙◌, suc, arith, ◌≤◌, ap, ◌+◌, ◌≡◌, ◌<◌, Array, ℕ,
}
use projeto_sistemas_operati.Projeto2.Blocks.{data_block_get}
use projeto_sistemas_operati.Projeto1.Handles.{offset_of, set_offset}
use projeto_sistemas_operati.Projeto1.Operations.{clip_block, ends, Loop}
use projeto_sistemas_operati.Projeto1.Position.Direct.{block_of, Owns}
use projeto_sistemas_operati.Projeto1.Operations.Contents.{byte_at, HasByte, direct_size}
use projeto_sistemas_operati.Projeto2.Types.{add_size, block_size, OpenFileEntry}
use projeto_sistemas_operati.Memory.{memcpy_outside, memcpy_inside, memcpy}
use projeto_sistemas_operati.Projeto1.Position.Offset.{clip_block_lem, get_current_offset-mod}

-- It ends; `count` bytes of the file, from the handle's offset on, stand in the buffer from `at` on;
-- the rest of the buffer is as before, and of the tables the offset alone has changed.
pub record ReadsBytes (s : Fs) (g i at count : ℕ) (buffer : Array ℕ) (r : Loop (Array ℕ × Fs))
    : Type 0 where
  pub out : Array ℕ
  pub ended : r ≡ ends (out, set_offset s g (offset_of s g + count))
  pub new : (k : ℕ) → k < count → out (at + k) ≡ byte_at s i (offset_of s g + k)
  pub before : (k : ℕ) → k < at → out k ≡ buffer k
  pub beyond : (k : ℕ) → at + count ≤ k → out k ≡ buffer k

get_current_data_block-present :
    (s : Fs) (i offset : ℕ)
    → Owns s i
    → offset < direct_size
    → HasByte s i offset
    → get_current_data_block i offset s
      ≡ returns (some (block_of s i (offset / block_size) * block_size), s)
unfolding get_current_data_block direct_block data_block_get
get_current_data_block-present s i offset o lt b =
    ground (arith, b, lt, o.is_block (offset / block_size) (omega (arith, lt)) b)

set_offset-same : (s : Fs) (g : ℕ) → set_offset s g (offset_of s g + 0) ≡ s
set_offset-same s g =
    ap (λ o. set_offset s g o) (omega arith)
    ∙ ap (λ t. record s { open_file_table = t }) (update_same s.open_file_table g)

pub set_offset-twice : (s : Fs) (g a b : ℕ) → set_offset (set_offset s g a) g b ≡ set_offset s g b
set_offset-twice s g a b =
    ap (λ (t : Array OpenFileEntry). record s { open_file_table = t }) (fun_ext λ j. ground arith)

-- What one round does, for `n` bytes of the block at the offset.
module _ (s : Fs) (g i at n : ℕ) (buffer : Array ℕ) (o : Owns s i)
    (begins : offset_of s g < direct_size)
    (inside : offset_of s g % block_size + n ≤ block_size) where
  abbrev block : ℕ
  block = block_of s i (offset_of s g / block_size) * block_size

  abbrev copied : Array ℕ
  copied = memcpy buffer at s.fs_data (block + offset_of s g % block_size) n

  abbrev moved : Fs
  moved = set_offset s g (offset_of s g + n)

  take_bytes_lem : take_bytes g at n block (buffer, s) ≡ (copied, moved)
  unfolding take_bytes
  take_bytes_lem =
      ap
        (λ p.
          (memcpy buffer at s.fs_data (block + p) n, set_offset s g (add_size (offset_of s g) n)))
        (get_current_offset-mod (offset_of s g) (omega (arith, begins)))
      ∙ ap (λ p. (copied, set_offset s g p)) (omega (arith, begins, inside))

  byte_in_block :
      (k : ℕ)
      → k < n
      → s.fs_data (block + offset_of s g % block_size + k) ≡ byte_at s i (offset_of s g + k)
  byte_in_block k lt =
      let same : (offset_of s g + k) / block_size ≡ offset_of s g / block_size =
        omega (arith, inside, lt) in
      ap s.fs_data (omega (arith, ap (λ q. block_of s i q * block_size) same, inside, lt))

  Owns-moved : Owns moved i
  Owns-moved = record { is_block = o.is_block; apart = o.apart }

  offset-moved : offset_of moved g ≡ offset_of s g + n
  offset-moved = ground arith

  ReadsBytes-then :
      (m count : ℕ) (r : Loop (Array ℕ × Fs))
      → n + m ≡ count
      → ReadsBytes moved g i (at + n) m copied r
      → ReadsBytes s g i at count buffer r
  ReadsBytes-then m count r e rest = record {
    out = rest.out;
    ended =
        rest.ended
        ∙ ap (λ t. ends (rest.out, t)) (set_offset-twice s g (offset_of s g + n) _)
        ∙ ap (λ p. ends (rest.out, set_offset s g p)) (omega (arith, offset-moved, e));
    new = λ k lt. elim (dec_lt k n) [
      | yes early ↦
          rest.before (at + k) (omega (arith, early))
          ∙ memcpy_inside buffer at s.fs_data (block + offset_of s g % block_size) n (at + k)
              (omega arith) (omega (arith, early))
          ∙ ap s.fs_data (omega arith)
          ∙ byte_in_block k early
      | no late ↦
          ap rest.out (omega (arith, late))
          ∙ rest.new (k - n) (omega (arith, late, lt, e))
          ∙ ap (byte_at s i) (omega (arith, offset-moved, late))
    ];
    before = λ k lt.
        rest.before k (omega (arith, lt))
        ∙ memcpy_outside buffer at s.fs_data (block + offset_of s g % block_size) n k
            (inl (omega (arith, lt)));
    beyond = λ k le.
        rest.beyond k (omega (arith, le, e))
        ∙ memcpy_outside buffer at s.fs_data (block + offset_of s g % block_size) n k
            (inr (omega (arith, le)));
  }

pub read_loop-ReadsBytes :
    (fuel g i at to_read : ℕ) (buffer : Array ℕ) (s : Fs)
    → to_read < fuel
    → Owns s i
    → offset_of s g + to_read ≤ direct_size
    → ((k : ℕ) → k < to_read → HasByte s i (offset_of s g + k))
    → ReadsBytes s g i at to_read buffer (read_loop fuel g i at to_read (buffer, s))
unfolding read_loop
read_loop-ReadsBytes zero g i at to_read buffer s lt o within all = absurd (omega (arith, lt))
read_loop-ReadsBytes (suc fuel) g i at to_read buffer s lt o within all =
    let n : ℕ = clip_block (offset_of s g) to_read in
    elim (Bool-cases (to_read == 0)) [
      | inl done ↦
          (let z : to_read ≡ 0 = zero_of_test to_read done in
            rw z (record {
              out = buffer;
              ended = ap (λ t. ends (buffer, t)) (sym (set_offset-same s g));
              new = λ k lt'. absurd (omega (arith, lt'));
              before = λ k lt'. refl;
              beyond = λ k le. refl;
            }))
      | inr more ↦
          (let p : 0 < to_read = pos_of_test to_read more in
            let clip : n ≡ min to_read (block_size - offset_of s g % block_size) =
              clip_block_lem (offset_of s g) to_read (omega (arith, within))
                (omega (arith, within)) in
            let begins : offset_of s g < direct_size = omega (arith, within, p) in
            let inside : offset_of s g % block_size + n ≤ block_size = omega (arith, clip) in
            let first : HasByte s i (offset_of s g) = subst (HasByte s i) (omega arith) (all 0 p) in
            let rest : ReadsBytes (moved s g i at n buffer o begins inside) g i (at + n)
                (to_read - n) (copied s g i at n buffer o begins inside)
                (read_loop fuel g i (at + n) (to_read - n) (
                  copied s g i at n buffer o begins inside,
                  moved s g i at n buffer o begins inside,
                )) =
              read_loop-ReadsBytes fuel g i (at + n) (to_read - n)
                (copied s g i at n buffer o begins inside) (moved s g i at n buffer o begins inside)
                (omega (arith, lt, clip, p)) (Owns-moved s g i at n buffer o begins inside)
                (omega (arith, within, clip, offset-moved s g i at n buffer o begins inside))
                (λ k lt'.
                  subst (HasByte s i)
                    (omega (arith, offset-moved s g i at n buffer o begins inside))
                    (all (n + k) (omega (arith, clip, lt')))) in
            rw
              (
                more,
                get_current_data_block-present s i (offset_of s g) o begins first,
                read_loop,
                take_bytes_lem s g i at n buffer o begins inside,
              )
              (ReadsBytes-then s g i at n buffer o begins inside (to_read - n) to_read _
                (omega (arith, clip)) rest))
    ]
