-- ===== src/Memory/Words.antt =====
-- An `int` in memory: four bytes in two's complement, the lowest first.
use projeto_sistemas_operati.Base.{
  ℕ, ◌+◌, ◌-◌, ◌*◌, ◌/◌, ◌%◌, ◌^◌, ◌≤◌, ◌<◌, ◌≡◌, ap, ◌∙◌, ◌⊎◌, arith, Array, update, ltb,
  if◌then◌else◌, ℤ, pos, negsuc, IsInt,
}

abbrev pub Mem : Type 0
Mem = Array ℕ

abbrev pub sizeof_int : ℕ
sizeof_int = 4

unfoldable pub to_word : ℤ → ℕ
to_word (pos n) = n % 2 ^ 32
to_word (negsuc n) = 2 ^ 32 - 1 - n % 2 ^ 32

unfoldable pub from_word : ℕ → ℤ
from_word w = if ltb w (2 ^ 31) then pos w else negsuc (2 ^ 32 - 1 - w)

from_word-to_word : (z : ℤ) → IsInt z → from_word (to_word z) ≡ z
unfolding from_word to_word
from_word-to_word (pos n) h = ground arith
from_word-to_word (negsuc n) h = ground arith

to_word-lt : (z : ℤ) → to_word z < 2 ^ 32
unfolding to_word
to_word-lt (pos n) = omega arith
to_word-lt (negsuc n) = omega arith

-- `p[i] = x` through an `int *`.
unfoldable pub store_int : Mem → ℕ → ℤ → Mem
store_int m a z =
    let w = to_word z in
    update
      (update (update (update m a (w % 256)) (a + 1) (w / 2 ^ 8 % 256)) (a + 2) (w / 2 ^ 16 % 256))
      (a + 3) (w / 2 ^ 24)

unfoldable pub word_at : Mem → ℕ → ℕ
word_at m a = m a + 2 ^ 8 * m (a + 1) + 2 ^ 16 * m (a + 2) + 2 ^ 24 * m (a + 3)

-- `p[i]` through an `int *`.
unfoldable pub load_int : Mem → ℕ → ℤ
load_int m a = from_word (word_at m a)

word_at-store_int : (m : Mem) (a : ℕ) (z : ℤ) → word_at (store_int m a z) a ≡ to_word z
unfolding word_at store_int
word_at-store_int m a z = ground (arith, to_word-lt z)

pub load_int-store_int : (m : Mem) (a : ℕ) (z : ℤ) → IsInt z → load_int (store_int m a z) a ≡ z
unfolding load_int
load_int-store_int m a z h = ap from_word (word_at-store_int m a z) ∙ from_word-to_word z h

-- Bytes outside the four are left alone.
pub store_int_outside :
    (m : Mem) (a : ℕ) (z : ℤ) (j : ℕ) → (j < a) ⊎ (a + 4 ≤ j) → store_int m a z j ≡ m j
unfolding store_int
store_int_outside m a z j h = ground arith

-- An `int` is determined by its four bytes.
pub load_int-ext :
    (m m' : Mem) (a : ℕ) → ((j : ℕ) → a ≤ j → j < a + 4 → m j ≡ m' j) → load_int m a ≡ load_int m' a
unfolding load_int word_at
load_int-ext m m' a h =
    let e0 : m a ≡ m' a = h a (omega arith) (omega arith) in
    let e1 : m (a + 1) ≡ m' (a + 1) = h (a + 1) (omega arith) (omega arith) in
    let e2 : m (a + 2) ≡ m' (a + 2) = h (a + 2) (omega arith) (omega arith) in
    let e3 : m (a + 3) ≡ m' (a + 3) = h (a + 3) (omega arith) (omega arith) in rw (e0, e1, e2, e3)
