-- ===== src/Memory/Bytes.antt =====
-- `memcpy`.
use projeto_sistemas_operati.Base.{
  ◌∙◌, ap, ◌++◌, refl, zero, ◌∷◌, suc, [], List, ℕ, ◌+◌, ◌-◌, ◌≤◌, ◌<◌, ◌≡◌, ◌⊎◌, arith, ltb,
  if◌then◌else◌, Array,
}

-- `memcpy(dst + d, src + s, n)` between memories that do not overlap.
unfoldable pub memcpy : Array ℕ → ℕ → Array ℕ → ℕ → ℕ → Array ℕ
memcpy dst d src s n j =
    if ltb j d then dst j else if ltb j (d + n) then src (s + (j - d)) else dst j

pub memcpy_inside :
    (dst : Array ℕ) (d : ℕ) (src : Array ℕ) (s n j : ℕ)
    → d ≤ j
    → j < d + n
    → memcpy dst d src s n j ≡ src (s + (j - d))
unfolding memcpy
memcpy_inside dst d src s n j lo hi = ground arith

pub memcpy_outside :
    (dst : Array ℕ) (d : ℕ) (src : Array ℕ) (s n j : ℕ)
    → (j < d) ⊎ (d + n ≤ j)
    → memcpy dst d src s n j ≡ dst j
unfolding memcpy
memcpy_outside dst d src s n j h = ground arith

-- The first `n` bytes of a memory.
abbrev pub bytes_of : ℕ → Array ℕ → List ℕ
bytes_of zero m = []
bytes_of (suc n) m = m 0 ∷ bytes_of n (λ k. m (k + 1))

pub bytes_of-ext :
    (n : ℕ) (a b : Array ℕ) → ((k : ℕ) → k < n → a k ≡ b k) → bytes_of n a ≡ bytes_of n b
bytes_of-ext zero a b same = refl
bytes_of-ext (suc n) a b same = cc (
  same 0 (omega arith),
  bytes_of-ext n (λ k. a (k + 1)) (λ k. b (k + 1)) (λ k lt. same (k + 1) (omega (arith, lt))),
)

pub bytes_of-append :
    (n m : ℕ) (a : Array ℕ) → bytes_of n a ++ bytes_of m (λ k. a (n + k)) ≡ bytes_of (n + m) a
bytes_of-append zero m a =
    bytes_of-ext m (λ k. a (0 + k)) a (λ k lt. ap a (omega arith))
    ∙ ap (λ j. bytes_of j a) (omega arith)
bytes_of-append (suc n) m a =
    ap (λ xs. a 0 ∷ (bytes_of n (λ k. a (k + 1)) ++ xs))
      (bytes_of-ext m _ _ (λ k lt. ap a (omega arith)))
    ∙ ap (λ xs. a 0 ∷ xs) (bytes_of-append n m (λ k. a (k + 1)))
    ∙ ap (λ j. bytes_of j a) {x = suc (n + m)} (omega arith)
