-- ===== src/Projeto1/Operations/Contents.antt =====
-- The bytes of a file within its direct blocks, and what a round of the loop of `tfs_write` does to
-- them.
use projeto_sistemas_operati.Base.{
  inr, ℕ_discrete, sym, update_ne, refl, ◌-◌, is_minus_one, subst, inl, ◌≢◌, ap, ◌⊎◌, ◌^◌, dec_lt,
  ◌∙◌, ◌<◌, ◌≡◌, ◌≤◌, ◌%◌, arith, ◌+◌, ◌*◌, ◌/◌, Array, ℕ,
}
use projeto_sistemas_operati.Projeto1.Types.{block_number, indirect_access_block, Fs}
use projeto_sistemas_operati.Projeto1.Position.Direct.{Owns-same, Owns, HasNumber, block_of}
use projeto_sistemas_operati.Projeto1.Position.Located.{Finds}
use projeto_sistemas_operati.Projeto1.Handles.{offset_of}
use projeto_sistemas_operati.Projeto2.Types.{index, block_size}
use projeto_sistemas_operati.Projeto1.Operations.{put_bytes}
use projeto_sistemas_operati.Memory.{memcpy_outside, memcpy_inside, memcpy}
use projeto_sistemas_operati.Projeto1.Position.Offset.{get_current_offset-mod}

abbrev pub direct_size : ℕ
direct_size = indirect_access_block * block_size

abbrev pub size_of : Fs → ℕ → ℕ
size_of s i = (s.inode_table i).i_size

-- The block that holds the byte `k` of the file `i`, and the byte.
abbrev pub HasByte : Fs → ℕ → ℕ → Type 0
HasByte s i k = HasNumber s i (k / block_size)

abbrev pub byte_at : Fs → ℕ → ℕ → ℕ
byte_at s i k = s.fs_data (block_of s i (k / block_size) * block_size + k % block_size)

-- `count` bytes of the buffer, from `from` on, stand in the file `i` from the old offset of the
-- handle `h` on; its other bytes are as before, and so are the other handles.
pub record Wrote (s : Fs) (h i : ℕ) (buffer : Array ℕ) (from count : ℕ) (t : Fs) : Type 0 where
  pub owns : Owns t i
  pub offset : offset_of t h ≡ offset_of s h + count
  pub size : size_of t i ≡ size_of s i + count
  pub has_new : (k : ℕ) → k < count → HasByte t i (offset_of s h + k)
  pub new : (k : ℕ) → k < count → byte_at t i (offset_of s h + k) ≡ buffer (from + k)
  pub keeps : (k : ℕ) → HasByte s i k → HasByte t i k
  pub old :
      (k : ℕ)
      → k < direct_size
      → HasByte s i k
      → (k < offset_of s h) ⊎ (offset_of s h + count ≤ k)
      → byte_at t i k ≡ byte_at s i k
  pub handles : (g : ℕ) → h ≢ g → t.open_file_table g ≡ s.open_file_table g
  pub same_file : (t.open_file_table h).of_inumber ≡ (s.open_file_table h).of_inumber
  pub in_use : t.free_open_file_entries ≡ s.free_open_file_entries
  pub indirect_same :
      block_number t i indirect_access_block ≡ block_number s i indirect_access_block

pub Wrote-none :
    (s : Fs) (h i : ℕ) (buffer : Array ℕ) (from : ℕ) → Owns s i → Wrote s h i buffer from 0 s
Wrote-none s h i buffer from o = record {
  owns = o;
  offset = omega arith;
  size = omega arith;
  has_new = λ k lt. absurd (omega (arith, lt));
  new = λ k lt. absurd (omega (arith, lt));
  keeps = λ k b. b;
  old = λ k lt b out. refl;
  handles = λ g ne. refl;
  same_file = refl;
  in_use = refl;
  indirect_same = refl;
}

module _ {s t u : Fs} {h i : ℕ} {buffer : Array ℕ} {from n m : ℕ}
    (first : Wrote s h i buffer from n t) (rest : Wrote t h i buffer (from + n) m u)
    (small : offset_of s h + (n + m) ≤ direct_size) where
  has_new-then : (k : ℕ) → k < n + m → HasByte u i (offset_of s h + k)
  has_new-then k lt = elim (dec_lt k n) [
    | yes early ↦ rest.keeps (offset_of s h + k) (first.has_new k early)
    | no late ↦
        subst (HasByte u i) (omega (arith, first.offset, late))
          (rest.has_new (k - n) (omega (arith, lt, late)))
  ]

  new-then : (k : ℕ) → k < n + m → byte_at u i (offset_of s h + k) ≡ buffer (from + k)
  new-then k lt = elim (dec_lt k n) [
    | yes early ↦
        rest.old (offset_of s h + k) (omega (arith, small, early)) (first.has_new k early)
          (inl (omega (arith, first.offset, early)))
        ∙ first.new k early
    | no late ↦
        ap (byte_at u i) (omega (arith, first.offset, late))
        ∙ rest.new (k - n) (omega (arith, lt, late))
        ∙ ap buffer (omega (arith, late))
  ]

  -- Two rounds of the loop are one longer writing.
  pub Wrote-then : Wrote s h i buffer from (n + m) u
  Wrote-then = record {
    owns = rest.owns;
    offset = omega (arith, first.offset, rest.offset);
    size = omega (arith, first.size, rest.size);
    has_new = has_new-then;
    new = new-then;
    keeps = λ k b. rest.keeps k (first.keeps k b);
    old = λ k lt b out.
        rest.old k lt (first.keeps k b) (omega (arith, first.offset, out))
        ∙ first.old k lt b (omega (arith, out));
    handles = λ g ne. rest.handles g ne ∙ first.handles g ne;
    same_file = rest.same_file ∙ first.same_file;
    in_use = rest.in_use ∙ first.in_use;
    indirect_same = rest.indirect_same ∙ first.indirect_same;
  }

module _ {s t : Fs} (h i : ℕ) {block : ℕ} (buffer : Array ℕ) (from n : ℕ)
    (f : Finds s i (offset_of s h / block_size) block t)
    (inside : offset_of s h % block_size + n ≤ block_size) (begins : offset_of s h < direct_size)
    (within : offset_of s h + n ≤ direct_size) (small : size_of s i + n < 2 ^ 64) where
  abbrev after : Fs
  after = put_bytes h i buffer from n block t

  same_offset : offset_of t h ≡ offset_of s h
  same_offset = ap (λ e. (e h).of_offset) f.files_same

  numbers-put : (k : ℕ) → block_number after i k ≡ block_number t i k
  unfolding put_bytes
  numbers-put k = ground arith

  data-put : after.fs_data ≡ memcpy t.fs_data (block + offset_of s h % block_size) buffer from n
  unfolding put_bytes
  data-put =
      ap (λ o. memcpy t.fs_data (block + o) buffer from n)
        (get_current_offset-mod (offset_of t h) (omega (arith, same_offset, within))
          ∙ ap (λ o. o % block_size) same_offset)

  Owns-put : Owns after i
  unfolding put_bytes
  Owns-put = Owns-same refl numbers-put f.owns

  same_block : (k : ℕ) → k < n → (offset_of s h + k) / block_size ≡ offset_of s h / block_size
  same_block k lt = omega (arith, inside, lt)

  base-put : (q : ℕ) → q ≡ offset_of s h / block_size → block_of after i q * block_size ≡ block
  base-put q e =
      ap (λ z. index z * block_size) (numbers-put q ∙ ap (block_number t i) e) ∙ sym f.address

  new-put : (k : ℕ) → k < n → byte_at after i (offset_of s h + k) ≡ buffer (from + k)
  new-put k lt =
      let start : ℕ = block + offset_of s h % block_size in
      ap after.fs_data
        (omega (arith, base-put ((offset_of s h + k) / block_size) (same_block k lt), inside, lt))
      ∙ ap (λ m. m (start + k)) data-put
      ∙ memcpy_inside t.fs_data start buffer from n (start + k) (omega arith) (omega (arith, lt))
      ∙ ap buffer (omega arith)

  outside-put :
      (k : ℕ)
      → k < direct_size
      → HasByte s i k
      → (k < offset_of s h) ⊎ (offset_of s h + n ≤ k)
      → let a = block_of t i (k / block_size) * block_size + k % block_size in
        let start = block + offset_of s h % block_size in (a < start) ⊎ (start + n ≤ a)
  outside-put k lt b out = elim (ℕ_discrete (k / block_size) (offset_of s h / block_size)) [
    | yes same ↦
        (let base : block_of t i (k / block_size) * block_size ≡ block =
            ap (λ q. block_of t i q * block_size) same ∙ sym f.address in
          omega (arith, base, same, out))
    | no other ↦
        (let ne : block_of t i (k / block_size) ≢ block_of t i (offset_of s h / block_size) = λ e.
            other (
              f.owns.apart _ _ (omega (arith, lt)) (omega (arith, begins))
                (f.keeps (k / block_size) b) f.found e) in
          elim (dec_lt (block_of t i (k / block_size))
            (block_of t i (offset_of s h / block_size))) [
              | yes below ↦ inl (omega (arith, f.address, below))
              | no above ↦ inr (omega (arith, f.address, above, ne, inside))
            ])
  ]

  old-put :
      (k : ℕ)
      → k < direct_size
      → HasByte s i k
      → (k < offset_of s h) ⊎ (offset_of s h + n ≤ k)
      → byte_at after i k ≡ byte_at s i k
  old-put k lt b out =
      let q : ℕ = k / block_size in
      let a : ℕ = block_of t i q * block_size + k % block_size in
      ap (λ z. after.fs_data (index z * block_size + k % block_size)) (numbers-put q)
      ∙ ap (λ m. m a) data-put
      ∙ memcpy_outside t.fs_data (block + offset_of s h % block_size) buffer from n a
          (outside-put k lt b out)
      ∙ ap (λ m. m a) f.data_same
      ∙ ap (λ z. s.fs_data (index z * block_size + k % block_size)) (f.same q b)

  has_new-put : (k : ℕ) → k < n → HasByte after i (offset_of s h + k)
  has_new-put k lt =
      ap is_minus_one
        (numbers-put ((offset_of s h + k) / block_size) ∙ ap (block_number t i) (same_block k lt))
      ∙ f.found

  pub put_bytes-Wrote : Wrote s h i buffer from n after
  unfolding put_bytes
  put_bytes-Wrote = record {
    owns = Owns-put;
    offset = ground (arith, same_offset);
    size = ground (arith, f.size_same);
    has_new = has_new-put;
    new = new-put;
    keeps = λ k b. ap is_minus_one (numbers-put (k / block_size)) ∙ f.keeps (k / block_size) b;
    old = old-put;
    handles = λ g ne. update_ne t.open_file_table h g _ ne ∙ ap (λ e. e g) f.files_same;
    same_file = ground (arith, f.files_same);
    in_use = f.entries_same;
    indirect_same = numbers-put indirect_access_block ∙ f.indirect_same;
  }
