-- ===== src/Projeto2/Server/Reading.antt =====
-- What the loops of reads of fs/tfs_server.c make of the deliveries of the pipe.

use native.Mathlib.Nat.{add-zero}
use projeto_sistemas_operati.Base.{
  inr, zero, sym, refl, update_ne, inl, suc, ◌*◌, ap, ◌∙◌, update, arith, subst, ◌≡◌, ◌≤◌, ◌+◌, ◌⊎◌,
  length, ◌++◌, ◌<◌, List, ℕ, [], ◌∷◌,
}
use projeto_sistemas_operati.Projeto2.Server.{
  Delivery, read_loop, store_bytes, read_message, read_error, bytes, received,
}
use projeto_sistemas_operati.Memory.{Mem}

-- The bytes of several deliveries, one after the other.
abbrev pub concat : List (List ℕ) → List ℕ
concat [] = []
concat (c ∷ cs) = c ++ concat cs

abbrev pub deliveries : List (List ℕ) → List Delivery → List Delivery
deliveries [] rest = rest
deliveries (c ∷ cs) rest = bytes c ∷ deliveries cs rest

-- No delivery is empty.
abbrev pub NoneEmpty : List (List ℕ) → Type 0
NoneEmpty [] = Unit
NoneEmpty (c ∷ cs) = (0 < length c) × NoneEmpty cs

pub length-append : (xs ys : List ℕ) → length (xs ++ ys) ≡ length xs + length ys
length-append [] ys = omega arith
length-append (x ∷ xs) ys = ground (arith, length-append xs ys)

pub store_bytes-append :
    (m : Mem) (a : ℕ) (xs ys : List ℕ)
    → store_bytes m a (xs ++ ys) ≡ store_bytes (store_bytes m a xs) (a + length xs) ys
unfolding store_bytes
store_bytes-append m a [] ys = ap (λ b. store_bytes m b ys) (omega arith)
store_bytes-append m a (x ∷ xs) ys =
    store_bytes-append (update m a x) (a + 1) xs ys
    ∙ ap (λ b. store_bytes (store_bytes (update m a x) (a + 1) xs) b ys) (omega arith)

pub store_bytes-outside :
    (m : Mem) (a : ℕ) (xs : List ℕ) (k : ℕ)
    → (k < a) ⊎ (a + length xs ≤ k)
    → store_bytes m a xs k ≡ m k
unfolding store_bytes
store_bytes-outside m a [] k out = refl
store_bytes-outside m a (x ∷ xs) k out =
    store_bytes-outside (update m a x) (a + 1) xs k (ground (arith, out))
    ∙ update_ne m a k x (λ e. absurd (omega (arith, out, e)))

size_le_mul : (n size : ℕ) → 0 < n → size ≤ n * size
size_le_mul zero size p = absurd (omega (arith, p))
size_le_mul (suc n) size p = ground (arith)

read_loop_end :
    (stride size : ℕ) (m : Mem) (rest : List Delivery)
    → read_loop stride size size m rest ≡ received m rest
unfolding read_loop
read_loop_end stride size m [] = ground arith
read_loop_end stride size m (read_error ∷ rs) = ground arith
read_loop_end stride size m (bytes bs ∷ rs) = ground arith

read_loop_more :
    (stride size got : ℕ) (m : Mem) (bs : List ℕ) (rs : List Delivery)
    → got < size
    → read_loop stride size got m (bytes bs ∷ rs)
      ≡ read_loop stride size (got + length bs) (store_bytes m (got * stride) bs) rs
unfolding read_loop
read_loop_more stride size got m bs rs lt = ground arith

read_loop_from :
    (size got : ℕ) (m : Mem) (chunks : List (List ℕ)) (rest : List Delivery)
    → NoneEmpty chunks
    → got + length (concat chunks) ≡ size
    → read_loop 1 size got m (deliveries chunks rest)
      ≡ received (store_bytes m got (concat chunks)) rest
unfolding store_bytes
read_loop_from size got m [] rest ne e =
    subst (λ n. read_loop 1 n got m rest ≡ received m rest) (sym (add-zero got) ∙ e)
      (read_loop_end 1 got m rest)
read_loop_from size got m (c ∷ cs) rest (p, ne) e =
    read_loop_more 1 size got m c (deliveries cs rest)
      (omega (arith, e, p, length-append c (concat cs)))
    ∙ ap (λ a. read_loop 1 size (got + length c) (store_bytes m a c) (deliveries cs rest))
        (omega arith)
    ∙ read_loop_from size (got + length c) (store_bytes m got c) cs rest ne
        (omega (arith, e, length-append c (concat cs)))
    ∙ ap (λ n. received n rest) (sym (store_bytes-append m got c (concat cs)))

-- The content of a write arrives as it was sent, however the pipe splits it into deliveries that
-- are not empty; what the pipe delivers after it is left.
pub read_loop-content :
    (size : ℕ) (m : Mem) (chunks : List (List ℕ)) (rest : List Delivery)
    → NoneEmpty chunks
    → length (concat chunks) ≡ size
    → read_loop 1 size 0 m (deliveries chunks rest)
      ≡ received (store_bytes m 0 (concat chunks)) rest
read_loop-content size m chunks rest ne e =
    read_loop_from size 0 m chunks rest ne (omega (arith, e))

read_message_first :
    (size : ℕ) (m : Mem) (bs : List ℕ) (rs : List Delivery)
    → 0 < size
    → read_message size m (bytes bs ∷ rs) ≡ read_loop size size (length bs) (store_bytes m 0 bs) rs
unfolding read_message
read_message_first size m bs rs p =
    read_loop_more size size 0 m bs rs p
    ∙ ap (λ n. read_loop size size n (store_bytes m (0 * size) bs) rs) (omega arith)
    ∙ ap (λ a. read_loop size size (length bs) (store_bytes m a bs) rs) (omega arith)

-- A message that one delivery brings whole is received as it was sent.
pub read_message-whole :
    (size : ℕ) (m : Mem) (bs : List ℕ) (rest : List Delivery)
    → 0 < size
    → length bs ≡ size
    → read_message size m (bytes bs ∷ rest) ≡ received (store_bytes m 0 bs) rest
read_message-whole size m bs rest p e =
    read_message_first size m bs rest p
    ∙ ap (λ n. read_loop size size n (store_bytes m 0 bs) rest) e
    ∙ read_loop_end size size (store_bytes m 0 bs) rest

-- A message that two deliveries bring, neither of them empty, is taken as received although the
-- bytes of the second one are not in it: the rest of the message is what the memory held before.
pub read_message-split :
    (size : ℕ) (m : Mem) (xs ys : List ℕ) (rest : List Delivery)
    → 0 < length xs
    → 0 < length ys
    → length xs + length ys ≡ size
    → (m' : Mem) × (read_message size m (bytes xs ∷ bytes ys ∷ rest) ≡ received m' rest)
      × ((k : ℕ) → length xs ≤ k → k < size → m' k ≡ m k)
read_message-split size m xs ys rest p q e =
    let first : Mem = store_bytes m 0 xs in
    let start : ℕ = length xs * size in
    let far : size ≤ start = size_le_mul (length xs) size p in
    (
      store_bytes first start ys,
      (read_message_first size m xs (bytes ys ∷ rest) (omega (arith, e, p))
          ∙ read_loop_more size size (length xs) first ys rest (omega (arith, e, q))
          ∙ ap (λ n. read_loop size size n (store_bytes first start ys) rest) e
          ∙ read_loop_end size size (store_bytes first start ys) rest),
      λ k lo hi.
          store_bytes-outside first start ys k (inl (omega (arith, far, hi)))
          ∙ store_bytes-outside m 0 xs k (inr (omega (arith, lo))),
    )
