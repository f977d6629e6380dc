-- ===== src/Projeto2/Operations/Contents.antt =====
-- What a write does to the file, to the other files and to the root directory.
use projeto_sistemas_operati.Projeto2.Types.{set_inode, index, Inode, block_size, Fs}
use projeto_sistemas_operati.Base.{
  refl, inr, inl, dec_lt, ◌∙◌, ◌*◌, update_ne, ap, arith, ℕ_discrete, ◌⊎◌, max, ◌≢◌, ◌≤◌, ◌+◌, ◌<◌,
  Array, ◌≡◌, ℕ,
}
use projeto_sistemas_operati.Projeto2.Invariant.Ready.{Ready}
use projeto_sistemas_operati.Projeto2.Operations.Writing.{size_of, offset_of}
use projeto_sistemas_operati.Projeto2.Invariant.Write.{data-written, written, byte_of}
use projeto_sistemas_operati.Projeto2.Invariant.{Live, block_of}
use projeto_sistemas_operati.Memory.{memcpy_outside, memcpy_inside}

-- `n` bytes of `buffer` stand in the file `i` from the handle's offset on; the rest of it stays,
-- and so do the other handles.
pub record Stores (s : Fs) (h i : ℕ) (buffer : Array ℕ) (n : ℕ) (t : Fs) : Type 0 where
  pub offset : offset_of t h ≡ offset_of s h + n
  pub size : 0 < n → size_of t i ≡ max (size_of s i) (offset_of s h + n)
  pub new : (k : ℕ) → k < n → byte_of t i (offset_of s h + k) ≡ buffer k
  pub old :
      (k : ℕ)
      → k < size_of s i
      → (k < offset_of s h) ⊎ (offset_of s h + n ≤ k)
      → byte_of t i k ≡ byte_of s i k
  pub handles : (g : ℕ) → h ≢ g → t.open_file_table g ≡ s.open_file_table g
  pub in_use : t.free_open_file_entries ≡ s.free_open_file_entries
  pub inodes : t.freeinode_ts ≡ s.freeinode_ts

-- A file with bytes is left as it is.
pub record KeepsFile (s : Fs) (j : ℕ) (t : Fs) : Type 0 where
  pub inode : t.inode_table j ≡ s.inode_table j
  pub bytes : (k : ℕ) → k < block_size → byte_of t j k ≡ byte_of s j k

pub KeepsFile-self : (s : Fs) (j : ℕ) → KeepsFile s j s
KeepsFile-self s j = record { inode = refl; bytes = λ k lt. refl }

pub KeepsFile-set_inode : (s : Fs) (i j : ℕ) (n : Inode) → i ≢ j → KeepsFile s j (set_inode s i n)
KeepsFile-set_inode s i j n ne = record {
  inode = update_ne s.inode_table i j n ne;
  bytes = λ k lt.
      ap (λ (e : Inode). s.fs_data (index e.i_data_block * block_size + k))
        (update_ne s.inode_table i j n ne);
}

pub Stores-zero : (s : Fs) (h i : ℕ) (buffer : Array ℕ) → Stores s h i buffer 0 s
Stores-zero s h i buffer = record {
  offset = omega arith;
  size = λ p. absurd (omega arith);
  new = λ k lt. absurd (omega arith);
  old = λ k lt out. refl;
  handles = λ g ne. refl;
  in_use = refl;
  inodes = refl;
}

module _ {s s' : Fs} {i : ℕ} (r : Ready s s' i) (h : ℕ) (buffer : Array ℕ) (n : ℕ)
    (fits : offset_of s' h + n ≤ block_size) where
  block-written :
      (j : ℕ) → block_of (written s' h i buffer n).inode_table j ≡ block_of s'.inode_table j
  block-written j = elim (ℕ_discrete i j) [
    | yes same ↦ ground (arith, ap s'.inode_table same)
    | no other ↦ ground arith
  ]

  same_offset : offset_of s' h ≡ offset_of s h
  same_offset = ap (λ t. (t h).of_offset) r.same_handles

  abbrev start : ℕ
  start = block_of s'.inode_table i * block_size

  new-written : (k : ℕ) → k < n → byte_of (written s' h i buffer n) i (offset_of s h + k) ≡ buffer k
  new-written k lt =
      ap (written s' h i buffer n).fs_data
        (ap (λ b. b * block_size + (offset_of s h + k)) (block-written i))
      ∙ memcpy_inside s'.fs_data (start + offset_of s' h) buffer 0 n (start + (offset_of s h + k))
          (omega (arith, same_offset)) (omega (arith, same_offset))
      ∙ ap buffer (omega (arith, same_offset))

  old-written :
      (k : ℕ)
      → k < size_of s i
      → (k < offset_of s h) ⊎ (offset_of s h + n ≤ k)
      → byte_of (written s' h i buffer n) i k ≡ byte_of s i k
  old-written k lt out =
      ap (written s' h i buffer n).fs_data (ap (λ b. b * block_size + k) (block-written i))
      ∙ memcpy_outside s'.fs_data (start + offset_of s' h) buffer 0 n (start + k)
          (omega (arith, same_offset))
      ∙ ap s'.fs_data
          (ap (λ (e : Inode). index e.i_data_block * block_size + k) (r.same_block (omega arith)))
      ∙ ap (λ f. f (block_of s.inode_table i * block_size + k)) r.same_data

  pub written-Stores : Stores s h i buffer n (written s' h i buffer n)
  written-Stores = record {
    offset = ground (arith, same_offset);
    size = λ p. ground (arith, same_offset, r.same_size);
    new = new-written;
    old = old-written;
    handles = λ g ne. update_ne s'.open_file_table h g _ ne ∙ ap (λ f. f g) r.same_handles;
    in_use = r.same_entries;
    inodes = r.same_inodes;
  }

  module _ (j : ℕ) (ne : i ≢ j) (live : Live s.inode_table s.freeinode_ts j) where
    same_block_of : block_of s'.inode_table j ≡ block_of s.inode_table j
    same_block_of = ap (λ (e : Inode). index e.i_data_block) (r.others j ne)

    apart : block_of s'.inode_table i ≢ block_of s'.inode_table j
    apart same = ne (
        r.writable.alone j
          (record {
            not_root = live.not_root;
            below = live.below;
            in_use = ap (λ f. f j) r.same_inodes ∙ live.in_use;
            nonempty = ground (arith, r.others j ne, live.nonempty);
          })
          same)

    bytes-written : (k : ℕ) → k < block_size → byte_of (written s' h i buffer n) j k ≡ byte_of s j k
    bytes-written k lt =
        ap (written s' h i buffer n).fs_data (ap (λ b. b * block_size + k) (block-written j))
        ∙ data-written r h buffer n fits (block_of s'.inode_table j * block_size + k)
            (elim (dec_lt (block_of s'.inode_table j) (block_of s'.inode_table i)) [
              | yes below ↦ inl (omega arith)
              | no above ↦ inr (omega (arith, apart))
            ])
        ∙ ap s'.fs_data (ap (λ b. b * block_size + k) same_block_of)
        ∙ ap (λ f. f (block_of s.inode_table j * block_size + k)) r.same_data

    pub written-KeepsFile : KeepsFile s j (written s' h i buffer n)
    written-KeepsFile = record {
      inode = update_ne s'.inode_table i j _ ne ∙ r.others j ne;
      bytes = bytes-written;
    }
