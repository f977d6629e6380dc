-- ===== src/Base/Scan.antt =====
-- `for (k = i; k < i + n; k++) if (test(k)) return k;` and what its result says.
use Prim.Native.Nat.{ℕ, zero, suc, ◌+◌, ◌≤◌, ◌<◌}
use mathlib.Core.Path.{◌≡◌, refl, ap}
use mathlib.Core.Bool.{Bool, true, false}
use mathlib.Core.Logic.{inl, inr}
use mathlib.Core.Option.{Option, none, some}
use projeto_sistemas_operati.Base.Bools.{Bool-cases}
use native.Mathlib.Decide.{ℕ_discrete}
use native.Mathlib.Omega.{arith}

unfoldable pub find_first : (ℕ → Bool) → ℕ → ℕ → Option ℕ
find_first test zero i = none
find_first test (suc n) i = elim (test i) [ true ↦ some i | false ↦ find_first test n (i + 1) ]

-- `k` is the least index from `i` on that passes the test.
pub record IsFirst (test : ℕ → Bool) (n i k : ℕ) : Type 0 where
  pub from : i ≤ k
  pub below : k < i + n
  pub passes : test k ≡ true
  pub least : (j : ℕ) → i ≤ j → j < k → test j ≡ false

module _ (test : ℕ → Bool) where
  IsFirst-later : (n i k : ℕ) → test i ≡ false → IsFirst test n (i + 1) k → IsFirst test (suc n) i k
  IsFirst-later n i k e f = record {
    from = omega arith;
    below = omega arith;
    passes = f.passes;
    least = λ j lo hi. elim (ℕ_discrete i j) [
      | yes same ↦ rw (← same) e
      | no other ↦ f.least j (omega arith) hi
    ];
  }

  IsFirst-here : (n i k : ℕ) → i ≡ k → test i ≡ true → IsFirst test (suc n) i k
  IsFirst-here n i k same e = record {
    from = omega arith;
    below = omega arith;
    passes = rw (← same) e;
    least = λ j lo hi. absurd (omega arith);
  }

  pub find_first-IsFirst : (n i k : ℕ) → find_first test n i ≡ some k → IsFirst test n i k
  unfolding find_first
  find_first-IsFirst zero i k e = cc
  find_first-IsFirst (suc n) i k e = elim (Bool-cases (test i)) [
    | inl hit ↦ IsFirst-here n i k (ground arith) hit
    | inr miss ↦
        IsFirst-later n i k miss (find_first-IsFirst n (i + 1) k (rw (miss, find_first) at e))
  ]

  pub find_first-none :
      (n i : ℕ) → find_first test n i ≡ none → (j : ℕ) → i ≤ j → j < i + n → test j ≡ false
  unfolding find_first
  find_first-none zero i e j lo hi = absurd (omega arith)
  find_first-none (suc n) i e j lo hi = elim (Bool-cases (test i)) [
    | inl hit ↦ cc (rw (hit, find_first) at e)
    | inr miss ↦ elim (ℕ_discrete i j) [
      | yes same ↦ rw (← same) miss
      | no other ↦
          find_first-none (n) (i + 1) (rw (miss, find_first) at e) j (omega arith) (omega arith)
    ]
  ]

-- Tests that agree on the range find the same index.
pub find_first-ext :
    (p q : ℕ → Bool) (n i : ℕ)
    → ((j : ℕ) → i ≤ j → j < i + n → p j ≡ q j)
    → find_first p n i ≡ find_first q n i
unfolding find_first
find_first-ext p q zero i h = refl
find_first-ext p q (suc n) i h =
    ground (arith, h i, find_first-ext p q n (i + 1) (λ j lo hi. h j (omega arith) (omega arith)))

-- The least index that passes is the one found.
pub find_first_of_least :
    (p : ℕ → Bool) (n i k : ℕ)
    → i ≤ k
    → k < i + n
    → p k ≡ true
    → ((j : ℕ) → i ≤ j → j < k → p j ≡ false)
    → find_first p n i ≡ some k
unfolding find_first
find_first_of_least p zero i k lo hi e h = absurd (omega arith)
find_first_of_least p (suc n) i k lo hi e h = elim (ℕ_discrete i k) [
  | yes same ↦ ground (arith, ap p same)
  | no other ↦ ground (
    arith,
    h i,
    find_first_of_least p n (i + 1) k (omega arith) (omega arith) e
        (λ j low high. h j (omega arith) high),
  )
]
