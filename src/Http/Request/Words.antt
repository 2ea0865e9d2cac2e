-- ===== src/Http/Request/Words.antt =====
-- Searching a request of http/request/request.c for the key of a pair, at the first `=` and behind it.
use bmb.Base.{
  ℕ, suc, ◌≤◌, ◌≡◌, refl, ap, Bool, true, false, ◌||◌, none, some, List, [], ◌∷◌, ◌++◌, arith, ◌==◌,
  if◌then◌else◌, inl, inr, Bool-cases, length, length-append, All,
}
use bmb.Base.Text.{CString, str_eq, eq_of_str_eq}
use bmb.Http.Request.{strip_prefix, after_first, value_at, is_space}

-- No byte of the text is `=`.
abbrev pub HasNoEquals : CString → Type 0
HasNoEquals = All (λ c. (c == b'=') ≡ false)

abbrev pub ends_with : CString → CString → Bool
ends_with key [] = str_eq [] key
ends_with key (c ∷ s) = str_eq (c ∷ s) key || ends_with key s

-- The key and `=` stand at the front only if the text in front of its first `=` is the key.
strip_prefix-word :
    (key word rest : CString)
    → HasNoEquals key
    → HasNoEquals word
    → strip_prefix (key ++ b'=' ∷ []) (word ++ b'=' ∷ rest)
      ≡ (if str_eq word key then some rest else none)
unfolding strip_prefix str_eq
strip_prefix-word [] [] rest hk hw = refl
strip_prefix-word [] (c ∷ word) rest hk hw = ground arith
strip_prefix-word (k ∷ key) [] rest hk hw = ground arith
strip_prefix-word (k ∷ key) (c ∷ word) rest hk hw =
    ground (arith, strip_prefix-word key word rest hk.1 hw.1)

-- The search for a key passes over a text without `=` unless the text ends in the key.
pub after_first-word :
    (key word rest : CString)
    → HasNoEquals key
    → HasNoEquals word
    → after_first (key ++ b'=' ∷ []) (word ++ b'=' ∷ rest)
      ≡ (if ends_with key word then some rest else after_first (key ++ b'=' ∷ []) rest)
unfolding after_first
after_first-word key [] rest hk hw = ground (arith, strip_prefix-word key [] rest hk tt)
after_first-word key (c ∷ word) rest hk hw =
    ground
      (arith, strip_prefix-word key (c ∷ word) rest hk hw, after_first-word key word rest hk hw.1)

str_eq-length : (s t : CString) → str_eq s t ≡ true → length s ≡ length t
str_eq-length s t h = ap length (eq_of_str_eq s t h)

pub ends_with_same :
    (key s end : CString) → ends_with key end ≡ true → ends_with key (s ++ end) ≡ true
ends_with_same key [] end h = h
ends_with_same key (c ∷ s) end h = ground (arith, ends_with_same key s end h)

pub All-append {ℓ κ} :
    {A : Type ℓ} (P : A → Type κ) (xs ys : List A) → All P xs → All P ys → All P (xs ++ ys)
All-append P [] ys hx hy = hy
All-append P (x ∷ xs) ys hx hy = (hx.0, All-append P xs ys hx.1 hy)

pub All-left {ℓ κ} : {A : Type ℓ} (P : A → Type κ) (xs ys : List A) → All P (xs ++ ys) → All P xs
All-left P [] ys h = tt
All-left P (x ∷ xs) ys h = (h.0, All-left P xs ys h.1)

-- What is in front of an end that is as long as the key does not matter.
pub ends_with-end :
    (key s end : CString)
    → length key ≤ length end
    → ends_with key end ≡ false
    → ends_with key (s ++ end) ≡ false
ends_with-end key [] end le h = h
ends_with-end key (c ∷ s) end le h =
    let longer : str_eq (c ∷ (s ++ end)) key ≡ false =
      longer_ne (c ∷ (s ++ end)) key (omega (arith, length-append s end)) in
    ground (arith, longer, ends_with-end key s end le h)
  where
    longer_ne : (l r : CString) → suc (length r) ≤ length l → str_eq l r ≡ false
    longer_ne l r lt = elim (Bool-cases (str_eq l r)) [
      | inl e ↦ absurd (omega (arith, str_eq-length l r e))
      | inr e ↦ e
    ]

-- A byte that ends a value.
abbrev pub ends_value : ℕ → Bool
ends_value c = c == b'&' || is_space c

abbrev pub IsValue : CString → Type 0
IsValue = All (λ c. ends_value c ≡ false)

-- A value is read up to the byte that ends it.
pub value_at-append :
    (v : CString) (c : ℕ) (rest : CString)
    → IsValue v
    → ends_value c ≡ true
    → value_at (v ++ c ∷ rest) ≡ v
unfolding value_at
value_at-append [] c rest h e = ground arith
value_at-append (d ∷ v) c rest h e = ground (arith, value_at-append v c rest h.1 e)

strip_prefix-none : (key s : CString) → HasNoEquals s → strip_prefix (key ++ b'=' ∷ []) s ≡ none
unfolding strip_prefix
strip_prefix-none [] [] h = refl
strip_prefix-none [] (c ∷ s) h = ground arith
strip_prefix-none (k ∷ key) [] h = refl
strip_prefix-none (k ∷ key) (c ∷ s) h = ground (arith, strip_prefix-none key s h.1)

-- A text without `=` has no key.
pub after_first-none : (key s : CString) → HasNoEquals s → after_first (key ++ b'=' ∷ []) s ≡ none
unfolding after_first
after_first-none key [] h = strip_prefix-none key [] tt
after_first-none key (c ∷ s) h =
    ground (arith, strip_prefix-none key (c ∷ s) h, after_first-none key s h.1)
