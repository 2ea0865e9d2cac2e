-- ===== src/Disk/Table.antt =====
-- Lists of names with values.
use mathlib.Core.List.{Permᴰ}
use bmb.Base.{
  ◌≡◌, refl, ◌∙◌, Bool, true, false, ◌||◌, Option, none, some, List, [], ◌∷◌, ◌++◌, arith,
  if◌then◌else◌, sym,
}
use bmb.Base.Text.{CString, str_eq, str_eq_refl, str_eq_comm, eq_of_str_eq}

abbrev pub Assoc {ℓ} : Type ℓ → Type ℓ
Assoc V = List (CString × V)

pub perm_refl {ℓ} : {A : Type ℓ} (l : List A) → Permᴰ l l
perm_refl [] = Permᴰ.nil
perm_refl (a ∷ l) = Permᴰ.cons refl (perm_refl l)

module _ {ℓ} {V : Type ℓ} where
  abbrev pub keys : Assoc V → List CString
  keys [] = []
  keys ((k, v) ∷ l) = k ∷ keys l

  unfoldable pub find : CString → Assoc V → Option V
  find k [] = none
  find k ((j, v) ∷ l) = if str_eq j k then some v else find k l

  unfoldable pub has : CString → Assoc V → Bool
  has k [] = false
  has k ((j, v) ∷ l) = str_eq j k || has k l

  -- Gives the name the value, in its place if it is there.
  unfoldable pub put : CString → V → Assoc V → Assoc V
  put k v [] = (k, v) ∷ []
  put k v ((j, w) ∷ l) = if str_eq j k then (k, v) ∷ l else (j, w) ∷ put k v l

  unfoldable pub drop : CString → Assoc V → Assoc V
  drop k [] = []
  drop k ((j, v) ∷ l) = let rest = drop k l in if str_eq j k then rest else (j, v) ∷ rest

  pub find-put_self : (k : CString) (v : V) (l : Assoc V) → find k (put k v l) ≡ some v
  unfolding find put
  find-put_self k v [] = ground (arith, str_eq_refl k)
  find-put_self k v ((j, w) ∷ l) = ground (arith, str_eq_refl k, find-put_self k v l)

  pub find-put_ne :
      (k j : CString) (v : V) (l : Assoc V) → str_eq k j ≡ false → find j (put k v l) ≡ find j l
  unfolding find put
  find-put_ne k j v [] h = ground arith
  find-put_ne k j v ((i, w) ∷ l) h = ground (arith, eq_of_str_eq i k, find-put_ne k j v l h)

  pub put-eq_of_not_has :
      (k : CString) (v : V) (l : Assoc V) → has k l ≡ false → Permᴰ (put k v l) ((k, v) ∷ l)
  unfolding has put
  put-eq_of_not_has k v [] h = Permᴰ.cons refl Permᴰ.nil
  put-eq_of_not_has k v ((j, w) ∷ l) h =
      let (a, b) : (str_eq j k ≡ false) × (has k l ≡ false) = ground arith in
      rw a (Permᴰ.trans (Permᴰ.cons refl (put-eq_of_not_has k v l b)) (Permᴰ.swap refl refl))

  pub has-perm : (k : CString) {l r : Assoc V} → Permᴰ l r → has k l ≡ has k r
  unfolding has
  has-perm k Permᴰ.nil = refl
  has-perm k (Permᴰ.cons e p) = cc (e, has-perm k p)
  has-perm k (Permᴰ.swap {a} {b} e f) = rw (← e, ← f) (ground arith)
  has-perm k (Permᴰ.trans p q) = has-perm k p ∙ has-perm k q

  keep : Bool → CString × V → Assoc V → Assoc V
  keep true x l = l
  keep false x l = x ∷ l

  drop-cons :
      (k : CString) (x : CString × V) (l : Assoc V)
      → drop k (x ∷ l) ≡ keep (str_eq x.0 k) x (drop k l)
  unfolding drop keep
  drop-cons k (j, v) l = ground arith

  keep-perm :
      (b : Bool) {x y : CString × V} {l r : Assoc V}
      → x ≡ y
      → Permᴰ l r
      → Permᴰ (keep b x l) (keep b y r)
  unfolding keep
  keep-perm true e p = p
  keep-perm false e p = Permᴰ.cons e p

  keep_swap :
      (b c : Bool) {x y x' y' : CString × V} (l : Assoc V)
      → x ≡ y'
      → y ≡ x'
      → Permᴰ (keep b x (keep c y l)) (keep c x' (keep b y' l))
  unfolding keep
  keep_swap true c l e f = keep-perm c f (perm_refl _)
  keep_swap false true l e f = Permᴰ.cons e (perm_refl _)
  keep_swap false false l e f = Permᴰ.swap e f

  pub drop-perm : (k : CString) {l r : Assoc V} → Permᴰ l r → Permᴰ (drop k l) (drop k r)
  drop-perm k Permᴰ.nil = perm_refl (drop k [])
  drop-perm k (Permᴰ.cons {a} {b} {l₁ = l} {l₂ = r} e p) =
      rw (drop-cons k a l, drop-cons k b r, e) (keep-perm (str_eq b.0 k) refl (drop-perm k p))
  drop-perm k (Permᴰ.swap {a} {b} {a'} {b'} {l} e f) =
      rw (drop-cons k a (b ∷ l), drop-cons k b l, drop-cons k a' (b' ∷ l), drop-cons k b' l, e, f)
        (keep_swap (str_eq b'.0 k) (str_eq a'.0 k) (drop k l) refl refl)
  drop-perm k (Permᴰ.trans p q) = Permᴰ.trans (drop-perm k p) (drop-perm k q)

  -- A name that is not there is dropped in vain.
  pub drop_of_not_has : (k : CString) (l : Assoc V) → has k l ≡ false → drop k l ≡ l
  unfolding has drop
  drop_of_not_has k [] h = refl
  drop_of_not_has k ((j, v) ∷ l) h = ground (arith, drop_of_not_has k l)

  pub find-drop_self : (k : CString) (l : Assoc V) → find k (drop k l) ≡ none
  unfolding find drop
  find-drop_self k [] = refl
  find-drop_self k ((j, w) ∷ l) = ground (arith, find-drop_self k l)

  pub find-drop_ne :
      (k j : CString) (l : Assoc V) → str_eq k j ≡ false → find j (drop k l) ≡ find j l
  unfolding find drop
  find-drop_ne k j [] h = refl
  find-drop_ne k j ((i, w) ∷ l) h = ground (arith, eq_of_str_eq i k, find-drop_ne k j l h)

  pub find-has : (k : CString) (l : Assoc V) (v : V) → find k l ≡ some v → has k l ≡ true
  unfolding find has
  find-has k [] v h = cc
  find-has k ((j, w) ∷ l) v h = ground (arith, find-has k l v)

  pub find_of_not_has : (k : CString) (l : Assoc V) → has k l ≡ false → find k l ≡ none
  unfolding find has
  find_of_not_has k [] h = refl
  find_of_not_has k ((j, w) ∷ l) h = ground (arith, find_of_not_has k l)

  -- No name stands twice.
  abbrev pub Distinct : Assoc V → Type 0
  Distinct [] = Unit
  Distinct ((j, v) ∷ l) = (has j l ≡ false) × Distinct l

  Distinct-swap : (a b : CString × V) (l : Assoc V) → Distinct (a ∷ b ∷ l) → Distinct (b ∷ a ∷ l)
  unfolding has
  Distinct-swap a b l h = ground (arith, str_eq_comm a.0 b.0)

  pub Distinct-perm : {l r : Assoc V} → Permᴰ l r → Distinct l → Distinct r
  Distinct-perm Permᴰ.nil h = h
  Distinct-perm (Permᴰ.cons {a} {b} e p) h = (rw (← e, ← has-perm a.0 p) h.0, Distinct-perm p h.1)
  Distinct-perm (Permᴰ.swap {a} {b} {l} e f) h = rw (← e, ← f) (Distinct-swap a b l h)
  Distinct-perm (Permᴰ.trans p q) h = Distinct-perm q (Distinct-perm p h)

  -- The value of a name does not depend on the order of the list.
  pub find-perm : (k : CString) {l r : Assoc V} → Permᴰ l r → Distinct l → find k l ≡ find k r
  unfolding find has
  find-perm k Permᴰ.nil h = refl
  find-perm k (Permᴰ.cons {a} {b} e p) h = rw (← e) (ground (arith, find-perm k p h.1))
  find-perm k (Permᴰ.swap {a} {b} {a'} {b'} e f) h =
      rw (← e, ← f) (ground (arith, eq_of_str_eq a.0 k, eq_of_str_eq b.0 k, str_eq_refl k, h.0))
  find-perm k (Permᴰ.trans p q) h = find-perm k p h ∙ find-perm k q (Distinct-perm p h)

pub perm_append_last {ℓ} : {A : Type ℓ} (a : A) (l : List A) → Permᴰ (a ∷ l) (l ++ a ∷ [])
perm_append_last a [] = perm_refl (a ∷ [])
perm_append_last a (b ∷ l) =
    Permᴰ.trans (Permᴰ.swap refl refl) (Permᴰ.cons refl (perm_append_last a l))

pub perm_symm {ℓ} : {A : Type ℓ} {l r : List A} → Permᴰ l r → Permᴰ r l
perm_symm Permᴰ.nil = Permᴰ.nil
perm_symm (Permᴰ.cons e p) = Permᴰ.cons (sym e) (perm_symm p)
perm_symm (Permᴰ.swap e f) = Permᴰ.swap (sym f) (sym e)
perm_symm (Permᴰ.trans p q) = Permᴰ.trans (perm_symm q) (perm_symm p)
