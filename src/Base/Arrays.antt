-- ===== src/Base/Arrays.antt =====
-- A static C array as the function from an index to what the cell holds. The code tests its
-- indices itself, so no length is kept here; `get_or` reads a string past its end as NUL.
use Prim.Native.Nat.{ℕ, zero, suc}
use mathlib.Core.Path.{◌≡◌, ap, fun_ext}
use native.Mathlib.Decide.{ℕ_discrete}
use mathlib.Core.Logic.{◌≢◌}
use mathlib.Core.List.{List, [], ◌∷◌}
use native.Mathlib.Omega.{arith}
use projeto_sistemas_operati.Base.Bools.{ltb, ◌==◌, if◌then◌else◌}

abbrev pub Array {ℓ} : Type ℓ → Type ℓ
Array A = ℕ → A

module _ {ℓ} {A : Type ℓ} where
  -- `f[i] = v`
  abbrev pub update : Array A → ℕ → A → Array A
  update f i v j = if i == j then v else f j

  -- `for (j = 0; j < n; j++) f[j] = v`
  abbrev pub fill : ℕ → A → Array A → Array A
  fill n v f j = if ltb j n then v else f j

  abbrev pub length : List A → ℕ
  length [] = 0
  length (x ∷ xs) = suc (length xs)

  abbrev pub get_or : List A → ℕ → A → A
  get_or [] i d = d
  get_or (x ∷ xs) zero d = x
  get_or (x ∷ xs) (suc i) d = get_or xs i d

  abbrev pub drop : ℕ → List A → List A
  drop zero xs = xs
  drop (suc n) [] = []
  drop (suc n) (x ∷ xs) = drop n xs

  abbrev pub take : ℕ → List A → List A
  take zero xs = []
  take (suc n) [] = []
  take (suc n) (x ∷ xs) = x ∷ take n xs

  pub update_self : (f : Array A) (i : ℕ) (v : A) → update f i v i ≡ v
  update_self f i v = ground arith

  pub update_ne : (f : Array A) (i j : ℕ) (v : A) → i ≢ j → update f i v j ≡ f j
  update_ne f i j v h = ground arith

  pub update-update : (f : Array A) (i : ℕ) (v w : A) → update (update f i v) i w ≡ update f i w
  update-update f i v w = fun_ext λ j. ground arith

  pub update_back : (f : Array A) (i : ℕ) (v w : A) → f i ≡ w → update (update f i v) i w ≡ f
  update_back f i v w e =
      fun_ext λ j. elim (ℕ_discrete i j) [
        | yes same ↦ ground (arith, ap f same)
        | no other ↦ ground arith
      ]

  pub update_same : (f : Array A) (i : ℕ) → update f i (f i) ≡ f
  update_same f i =
      fun_ext λ j. elim (ℕ_discrete i j) [
        | yes same ↦ ground (arith, ap f same)
        | no other ↦ ground arith
      ]
