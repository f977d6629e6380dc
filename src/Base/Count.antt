-- ===== src/Base/Count.antt =====
-- How many indices below `n` pass a test.
use Prim.Native.Nat.{ℕ, zero, suc, ◌+◌, ◌<◌}
use mathlib.Core.Path.{◌≡◌, refl, ap}
use mathlib.Core.Bool.{Bool, true, false}
use mathlib.Core.Logic.{◌≢◌}
use native.Mathlib.Decide.{ℕ_discrete}
use native.Mathlib.Omega.{arith}
use projeto_sistemas_operati.Base.Bools.{if◌then◌else◌}

unfoldable pub count : (ℕ → Bool) → ℕ → ℕ
count test zero = 0
count test (suc n) = (if test n then 1 else 0) + count test n

module _ (p q : ℕ → Bool) where
  -- Tests that agree below `n` have one count.
  pub count-ext : (n : ℕ) → ((j : ℕ) → j < n → p j ≡ q j) → count p n ≡ count q n
  unfolding count
  count-ext zero h = refl
  count-ext (suc n) h = ground (arith, h n, count-ext n (λ j lt. h j (omega arith)))

  -- One more index passes.
  pub count-add_one :
      (n i : ℕ)
      → i < n
      → p i ≡ false
      → q i ≡ true
      → ((j : ℕ) → i ≢ j → p j ≡ q j)
      → count q n ≡ suc (count p n)
  unfolding count
  count-add_one zero i lt pi qi h = absurd (omega arith)
  count-add_one (suc n) i lt pi qi h = elim (ℕ_discrete i n) [
    | yes same ↦ ground (arith, count-ext n (λ j low. h j (omega arith)), ap p same, ap q same)
    | no other ↦ ground (arith, h n other, count-add_one n i (omega arith) pi qi h)
  ]

pub count-none : (p : ℕ → Bool) (n : ℕ) → ((j : ℕ) → j < n → p j ≡ false) → count p n ≡ 0
unfolding count
count-none p zero h = refl
count-none p (suc n) h = ground (arith, h n, count-none p n (λ j lt. h j (omega arith)))
