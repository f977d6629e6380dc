-- ===== src/Projeto2/Client/Messages.antt =====
-- What stands in the messages of the client, and in the memory that they are read into.
use projeto_sistemas_operati.Memory.{
  char_at_end, load_int-ext, load_int-store_int, store_int_outside, load_int, char_at, bytes_of,
  IsText, Mem, cstring_at, CString,
}
use projeto_sistemas_operati.Projeto2.Server.{name_reach, max_pipename_size, store_bytes}
use projeto_sistemas_operati.Projeto2.Client.{session_message, open_message, Client, strcpy}
use projeto_sistemas_operati.Base.{
  update_self, inl, refl, zero, update, ◌∙◌, [], arith, ap, suc, IsInt, ◌≡◌, ◌∷◌, ℤ, ◌+◌, ◌++◌, ◌⊎◌,
  get_or, length, ◌<◌, List, ◌≤◌, ℕ,
}
use projeto_sistemas_operati.Projeto2.Server.Reading.{store_bytes-outside}

pub length-bytes_of : (n : ℕ) (m : Mem) → length (bytes_of n m) ≡ n
length-bytes_of zero m = refl
length-bytes_of (suc n) m = ap suc (length-bytes_of n (λ k. m (k + 1)))

get_or-bytes_of : (n : ℕ) (m : Mem) (k d : ℕ) → k < n → get_or (bytes_of n m) k d ≡ m k
get_or-bytes_of zero m k d lt = absurd (omega (arith, lt))
get_or-bytes_of (suc n) m zero d lt = refl
get_or-bytes_of (suc n) m (suc k) d lt =
    get_or-bytes_of n (λ j. m (j + 1)) k d (omega (arith, lt)) ∙ ap m (omega arith)

pub store_bytes-inside :
    (m : Mem) (a : ℕ) (xs : List ℕ) (k d : ℕ)
    → k < length xs
    → store_bytes m a xs (a + k) ≡ get_or xs k d
unfolding store_bytes
store_bytes-inside m a [] k d lt = absurd (omega (arith, lt))
store_bytes-inside m a (x ∷ xs) zero d lt =
    store_bytes-outside (update m a x) (a + 1) xs (a + 0) (inl (omega arith))
    ∙ ap (update m a x) (omega arith)
    ∙ update_self m a x
store_bytes-inside m a (x ∷ xs) (suc k) d lt =
    ap (store_bytes (update m a x) (a + 1) xs) (omega arith)
    ∙ store_bytes-inside (update m a x) (a + 1) xs k d (omega (arith, lt))

-- A memory's bytes, stored elsewhere.
pub store_bytes-bytes_of :
    (scratch m : Mem) (n k : ℕ) → k < n → store_bytes scratch 0 (bytes_of n m) k ≡ m k
store_bytes-bytes_of scratch m n k lt =
    ap (store_bytes scratch 0 (bytes_of n m)) (omega arith)
    ∙ store_bytes-inside scratch 0 (bytes_of n m) k 0 (omega (arith, lt, length-bytes_of n m))
    ∙ get_or-bytes_of n m k 0 lt

get_or-nul : (s : CString) (k : ℕ) → get_or (s ++ 0 ∷ []) k 0 ≡ char_at s k
get_or-nul [] zero = refl
get_or-nul [] (suc k) = refl
get_or-nul (c ∷ s) zero = refl
get_or-nul (c ∷ s) (suc k) = get_or-nul s k

length-nul : (s : CString) → length (s ++ 0 ∷ []) ≡ suc (length s)
length-nul [] = refl
length-nul (c ∷ s) = ap suc (length-nul s)

pub strcpy-inside :
    (m : Mem) (a : ℕ) (s : CString) (k : ℕ) → k ≤ length s → strcpy m a s (a + k) ≡ char_at s k
unfolding strcpy
strcpy-inside m a s k le =
    store_bytes-inside m a (s ++ 0 ∷ []) k 0 (omega (arith, le, length-nul s)) ∙ get_or-nul s k

pub strcpy-outside :
    (m : Mem) (a : ℕ) (s : CString) (k : ℕ) → (k < a) ⊎ (a + length s < k) → strcpy m a s k ≡ m k
unfolding strcpy
strcpy-outside m a s k out =
    store_bytes-outside m a (s ++ 0 ∷ []) k (omega (arith, out, length-nul s))

-- A text that stands in memory, with its NUL, is read back.
pub cstring_at-text :
    (n : ℕ) (m : Mem) (a : ℕ) (s : CString)
    → IsText s
    → length s < n
    → ((k : ℕ) → k ≤ length s → m (a + k) ≡ char_at s k)
    → cstring_at n m a ≡ s
unfolding cstring_at
cstring_at-text zero m a s text lt same = absurd (omega (arith, lt))
cstring_at-text (suc n) m a [] text lt same =
    let nul : m a ≡ 0 = ap m (omega arith) ∙ same 0 (omega arith) in ground (arith, nul)
cstring_at-text (suc n) m a (c ∷ s) (ne, text) lt same =
    let first : m a ≡ c = ap m (omega arith) ∙ same 0 (omega arith) in
    let rest : cstring_at n m (a + 1) ≡ s =
      cstring_at-text n m (a + 1) s text (omega (arith, lt))
        (λ k le. ap m (omega arith) ∙ same (suc k) (omega (arith, le))) in
    ground (arith, first, ne, rest)

module _ (fresh : Mem) (c : Client) (name : CString) (flags : ℤ) where
  abbrev message : Mem
  message = open_message fresh c name flags

  pub open_message-flags : IsInt flags → load_int message 44 ≡ flags
  unfolding open_message
  open_message-flags int = load_int-store_int (strcpy (session_message fresh c) 4 name) 44 flags int

  pub open_message-session :
      IsInt c.session_id → length name < 40 → load_int message 0 ≡ c.session_id
  unfolding open_message session_message
  open_message-session int fits =
      load_int-ext message (session_message fresh c) 0 (λ j lo hi.
        store_int_outside (strcpy (session_message fresh c) 4 name) 44 flags j
          (inl (omega (arith, hi)))
        ∙ strcpy-outside (session_message fresh c) 4 name j (inl (omega (arith, hi))))
      ∙ load_int-store_int fresh 0 c.session_id int

  -- The bytes of the name, with its NUL.
  name-inside :
      length name < max_pipename_size → (k : ℕ) → k ≤ length name → message (4 + k) ≡ char_at name k
  unfolding open_message
  name-inside fits k le =
      store_int_outside (strcpy (session_message fresh c) 4 name) 44 flags (4 + k)
        (inl (omega (arith, le, fits)))
      ∙ strcpy-inside (session_message fresh c) 4 name k le

  pub open_message-nul : length name < max_pipename_size → message (4 + length name) ≡ 0
  open_message-nul fits =
      name-inside fits (length name) (omega arith) ∙ char_at_end name (length name) (omega arith)

  pub open_message-name :
      IsText name → length name < max_pipename_size → cstring_at name_reach message 4 ≡ name
  open_message-name text fits =
      cstring_at-text name_reach message 4 name text (omega (arith, fits)) (name-inside fits)
