-- ===== src/Projeto1/Operations/Apart.antt =====
-- `tfs_write` keeps the files apart.
use projeto_sistemas_operati.Projeto1.Types.{returns, Run, Fs}
use projeto_sistemas_operati.Base.{
  refl, arith, pos, max, subst, minus_one, ◌^◌, ◌<◌, ◌≤◌, ◌+◌, ◌∙◌, sym, Array, ◌≡◌, ℕ, ℤ,
}
use projeto_sistemas_operati.Projeto1.Operations.Separate.{Separate-written, IsFile, Separate}
use projeto_sistemas_operati.Projeto1.Operations.Writing.{
  set_size, succeeds, fails, tfs_write-WritesFile, Opened,
}
use projeto_sistemas_operati.Projeto1.Handles.{offset_of}
use projeto_sistemas_operati.Projeto1.Operations.Contents.{size_of, direct_size}
use projeto_sistemas_operati.Projeto1.Operations.{tfs_write}
use projeto_sistemas_operati.Projeto1.Position.Direct.{Owns-same, Owns}
use projeto_sistemas_operati.Projeto1.Operations.Others.{Spares, Foreign}
use projeto_sistemas_operati.Projeto1.Operations.Sparing.{tfs_write-Spares}

pub returns-same :
    {r : Run (ℤ × Fs)} {y z : ℤ} {t u : Fs} → r ≡ returns (y, t) → r ≡ returns (z, u) → u ≡ t
returns-same {r} {y} {z} {t} {u} e e' = cc (sym e' ∙ e)

module _ {s : Fs} {fhandle : ℤ} {h i : ℕ} (buffer : Array ℕ) (count : ℕ) (sep : Separate s)
    (file : IsFile s i) (o : Opened s fhandle h i) (within : offset_of s h + count ≤ direct_size)
    (small : size_of s i + direct_size < 2 ^ 64) where
  own : Owns s i
  own = sep.owns i o.is_inode file

  -- Whatever the write returned, the block `b` is spared in the state after it.
  pub spared :
      (z : ℤ) (t : Fs)
      → tfs_write fhandle buffer count s ≡ returns (z, t)
      → (b : ℕ) → Foreign s i b
      → Spares s i b t
  spared z t e b f =
      let (y, u, e', spares) = tfs_write-Spares b buffer count o f within in
      subst (Spares s i b) (returns-same e e') spares

  -- Project 1: a write through a handle of a file in use, where the bytes would end within the
  -- direct blocks and the size with 10240 more is below 2^64, returns and keeps the files apart:
  -- the direct blocks of every file are blocks in use, no block stands twice in the files, none is
  -- the root directory's, and the root's i-node and block are in use.
  pub tfs_write-Separate :
      (z : ℤ) × (t : Fs) × (tfs_write fhandle buffer count s ≡ returns (z, t)) × Separate t
  tfs_write-Separate = elim (tfs_write-WritesFile buffer count o own within small) [
    | fails t done lt wrote all e ↦
        (minus_one, t, e, Separate-written sep o.is_inode file wrote.owns (spared minus_one t e))
    | succeeds t wrote e ↦
        (let u : Fs = set_size t i (max (size_of s i) (offset_of s h + count)) in
          (
            pos count,
            u,
            e,
            Separate-written sep o.is_inode file (Owns-same refl (λ k. ground arith) wrote.owns)
                (spared (pos count) u e),
          ))
  ]
