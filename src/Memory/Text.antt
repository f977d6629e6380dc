-- ===== src/Memory/Text.antt =====
-- C strings: `strncpy` and `strncmp`. A string is the list of its bytes before the final NUL.
use projeto_sistemas_operati.Base.{
  ℕ, zero, suc, ◌+◌, ◌-◌, ◌≤◌, ◌<◌, ◌≡◌, ◌≢◌, refl, ap, ◌∙◌, ◌⊎◌, Bool, true, false, List, [], ◌∷◌,
  arith, ltb, ◌==◌, if◌then◌else◌, length, get_or,
}
use projeto_sistemas_operati.Memory.Words.{Mem}

abbrev pub CString : Type 0
CString = List ℕ

-- `s[k]`, NUL past the end.
abbrev pub char_at : CString → ℕ → ℕ
char_at s k = get_or s k 0

-- No byte before the end is NUL.
abbrev pub IsText : CString → Type 0
IsText [] = Unit
IsText (c ∷ s) = (c ≢ 0) × IsText s

-- `strncpy(p, s, n)` at address `a`: at most `n` bytes of `s`, the rest of the `n` filled with NUL.
unfoldable pub strncpy : Mem → ℕ → CString → ℕ → Mem
strncpy m a s n j = if ltb j a then m j else if ltb j (a + n) then char_at s (j - a) else m j

-- The string at address `a`, of at most `n` bytes.
unfoldable pub cstring_at : ℕ → Mem → ℕ → CString
cstring_at zero m a = []
cstring_at (suc n) m a = let rest = cstring_at n m (a + 1) in if m a == 0 then [] else m a ∷ rest

-- `strncmp(p, s, n) == 0` for the string at address `a`.
unfoldable pub strncmp_eq : ℕ → Mem → ℕ → CString → Bool
strncmp_eq zero m a s = true
strncmp_eq (suc n) m a [] = m a == 0
strncmp_eq (suc n) m a (c ∷ s) =
    let rest = strncmp_eq n m (a + 1) s in
    if m a == c then (if c == 0 then true else rest) else false

pub char_at_end : (s : CString) (k : ℕ) → length s ≤ k → char_at s k ≡ 0
char_at_end [] k h = refl
char_at_end (c ∷ s) zero h = absurd (omega arith)
char_at_end (c ∷ s) (suc k) h = char_at_end s k (omega arith)

-- The memory at `a` holds `s` and its NUL.
abbrev pub Holds : Mem → ℕ → CString → Type 0
Holds m a [] = m a ≡ 0
Holds m a (c ∷ s) = (m a ≡ c) × Holds m (a + 1) s

-- A held string compares equal to itself.
pub strncmp_eq-Holds :
    (n : ℕ) (m : Mem) (a : ℕ) (s : CString) → Holds m a s → strncmp_eq n m a s ≡ true
unfolding strncmp_eq
strncmp_eq-Holds zero m a s h = refl
strncmp_eq-Holds (suc n) m a [] h = ground arith
strncmp_eq-Holds (suc n) m a (c ∷ s) h = ground (arith, strncmp_eq-Holds n m (a + 1) s h.1)

-- A held string that fits in `n` bytes compares equal to no other.
pub eq_of_strncmp_eq :
    (n : ℕ) (m : Mem) (a : ℕ) (s t : CString)
    → IsText s
    → IsText t
    → length s < n
    → Holds m a s
    → strncmp_eq n m a t ≡ true
    → s ≡ t
unfolding strncmp_eq
eq_of_strncmp_eq zero m a s t hs ht lt h e = absurd (omega arith)
eq_of_strncmp_eq (suc n) m a [] [] hs ht lt h e = refl
eq_of_strncmp_eq (suc n) m a [] (d ∷ t) hs ht lt h e = ground arith
eq_of_strncmp_eq (suc n) m a (c ∷ s) [] hs ht lt h e = ground arith
eq_of_strncmp_eq (suc n) m a (c ∷ s) (d ∷ t) hs ht lt h e =
    ground (arith, eq_of_strncmp_eq n m (a + 1) s t hs.1 ht.1 (omega arith) h.1)

-- A NUL within the first `n` bytes, where `t` still goes on, makes the comparison fail.
pub strncmp_eq_cut :
    (k n : ℕ) (m : Mem) (a : ℕ) (t : CString)
    → IsText t
    → m (a + k) ≡ 0
    → k < n
    → k < length t
    → strncmp_eq n m a t ≡ false
unfolding strncmp_eq
strncmp_eq_cut k zero m a t ht z lt long = absurd (omega arith)
strncmp_eq_cut k (suc n) m a [] ht z lt long = absurd (omega arith)
strncmp_eq_cut zero (suc n) m a (c ∷ t) ht z lt long =
    let here : m a ≡ 0 = ap m (omega arith) ∙ z in ground arith
strncmp_eq_cut (suc k) (suc n) m a (c ∷ t) ht z lt long =
    let next : m (a + 1 + k) ≡ 0 = ap m (omega arith) ∙ z in
    ground (arith, strncmp_eq_cut k n m (a + 1) t ht.1 next)

pub strncpy_outside :
    (m : Mem) (a : ℕ) (s : CString) (n j : ℕ) → (j < a) ⊎ (a + n ≤ j) → strncpy m a s n j ≡ m j
unfolding strncpy
strncpy_outside m a s n j h = ground arith

pub strncpy_inside :
    (m : Mem) (a : ℕ) (s : CString) (n k : ℕ) → k < n → strncpy m a s n (a + k) ≡ char_at s k
unfolding strncpy
strncpy_inside m a s n k h = let e : a + k - a ≡ k = omega arith in ground (arith, ap (char_at s) e)

-- A memory that agrees with `s` up to and with its NUL holds it.
pub Holds-bytes :
    (m : Mem) (a : ℕ) (s : CString)
    → ((k : ℕ) → k ≤ length s → m (a + k) ≡ char_at s k)
    → Holds m a s
Holds-bytes m a [] h = ap m (omega arith) ∙ h 0 (omega arith)
Holds-bytes m a (c ∷ s) h = (
  ap m (omega arith) ∙ h 0 (omega arith),
  Holds-bytes m (a + 1) s (λ k le. ap m (omega arith) ∙ h (suc k) (omega arith)),
)

-- A comparison of `n` bytes looks at no other byte.
pub strncmp_eq-ext :
    (n : ℕ) (m m' : Mem) (a : ℕ) (s : CString)
    → ((j : ℕ) → a ≤ j → j < a + n → m j ≡ m' j)
    → strncmp_eq n m a s ≡ strncmp_eq n m' a s
unfolding strncmp_eq
strncmp_eq-ext zero m m' a s h = refl
strncmp_eq-ext (suc n) m m' a [] h = ground (arith, h a)
strncmp_eq-ext (suc n) m m' a (c ∷ s) h =
    ground
      (arith, h a, strncmp_eq-ext n m m' (a + 1) s (λ j lo hi. h j (omega arith) (omega arith)))
