-- ===== src/Util/Sort/Order.antt =====
-- `sort_int_array_asc` of util/util.c and the order of the numbers.
use mathlib.Core.List.Permᴰ
use mathlib.Core.List.{Permᴰ}
use bmb.Base.{
  ℕ, suc, ◌<◌, ◌≤◌, ◌+◌, ◌^◌, ◌≡◌, refl, ◌∙◌, ap, length, ltb, true, false, inl, inr, Bool-cases,
  List, [], ◌∷◌, arith,
}
use bmb.Util.Decimal.{ℤ, pos, negsuc, to_unsigned, to_int}
use bmb.Util.Sort.{
  pos_part, neg_part, sort_cmp_func, is_positive, above, insert_sorted, sort_int_array_asc,
}

infix 50 ◌≤ℤ◌
abbrev pub ◌≤ℤ◌ : ℤ → ℤ → Type 0
a ≤ℤ b = pos_part a + neg_part b ≤ pos_part b + neg_part a

-- An `int` that is not negative, as ids are: two of them differ by an `int`.
abbrev pub IsId : ℤ → Type 0
IsId (pos n) = n < 2 ^ 31
IsId (negsuc n) = ⊥

abbrev pub AllIds : List ℤ → Type 0
AllIds [] = Unit
AllIds (a ∷ l) = IsId a × AllIds l

above-ltb : (m n : ℕ) → m < 2 ^ 31 → n < 2 ^ 31 → above (pos m) (pos n) ≡ ltb n m
unfolding above is_positive sort_cmp_func to_int to_unsigned
above-ltb m n h k = ground arith

le_of_above : (a b : ℤ) → IsId a → IsId b → above a b ≡ true → b ≤ℤ a
le_of_above (pos m) (pos n) h k e = ground (arith, above-ltb m n h k)
le_of_above (negsuc m) b h k e = absurd h
le_of_above (pos m) (negsuc n) h k e = absurd k

le_of_not_above : (a b : ℤ) → IsId a → IsId b → above a b ≡ false → a ≤ℤ b
le_of_not_above (pos m) (pos n) h k e = ground (arith, above-ltb m n h k)
le_of_not_above (negsuc m) b h k e = absurd h
le_of_not_above (pos m) (negsuc n) h k e = absurd k

not_above_of_le : (a b : ℤ) → IsId a → IsId b → a ≤ℤ b → above a b ≡ false
not_above_of_le (pos m) (pos n) h k e = ground (arith, above-ltb m n h k)
not_above_of_le (negsuc m) b h k e = absurd h
not_above_of_le (pos m) (negsuc n) h k e = absurd k

ℤ_antisymm : (a b : ℤ) → a ≤ℤ b → b ≤ℤ a → a ≡ b
ℤ_antisymm a b h k = ground arith

-- Every number is at least `a`, each at most the next.
abbrev pub Ascending : ℤ → List ℤ → Type 0
Ascending a [] = Unit
Ascending a (b ∷ l) = (a ≤ℤ b) × Ascending b l

abbrev pub IsAscending : List ℤ → Type 0
IsAscending [] = Unit
IsAscending (a ∷ l) = Ascending a l

pub insert_sorted-AllIds : (a : ℤ) (l : List ℤ) → IsId a → AllIds l → AllIds (insert_sorted a l)
unfolding insert_sorted
insert_sorted-AllIds a [] h k = (h, tt)
insert_sorted-AllIds a (b ∷ l) h k = elim (Bool-cases (above a b)) [
  | inl e ↦ rw e (k.0, insert_sorted-AllIds a l h k.1)
  | inr e ↦ rw e (h, k)
]

sort-AllIds : (l : List ℤ) → AllIds l → AllIds (sort_int_array_asc l)
unfolding sort_int_array_asc
sort-AllIds [] h = tt
sort-AllIds (a ∷ l) h = insert_sorted-AllIds a (sort_int_array_asc l) h.0 (sort-AllIds l h.1)

insert_sorted-perm : (a : ℤ) (l : List ℤ) → Permᴰ (insert_sorted a l) (a ∷ l)
unfolding insert_sorted
insert_sorted-perm a [] = Permᴰ.cons refl Permᴰ.nil
insert_sorted-perm a (b ∷ l) = elim (Bool-cases (above a b)) [
  | inl e ↦ rw e (Permᴰ.trans (Permᴰ.cons refl (insert_sorted-perm a l)) (Permᴰ.swap refl refl))
  | inr e ↦ rw e (Permᴰ.refl (a ∷ b ∷ l))
]

insert_sorted-Ascending :
    (m a : ℤ) (l : List ℤ)
    → IsId a
    → AllIds l
    → m ≤ℤ a
    → Ascending m l
    → Ascending m (insert_sorted a l)
unfolding insert_sorted
insert_sorted-Ascending m a [] h k le up = (le, tt)
insert_sorted-Ascending m a (b ∷ l) h k le up = elim (Bool-cases (above a b)) [
  | inl e ↦ rw e (up.0, insert_sorted-Ascending b a l h k.1 (le_of_above a b h k.0 e) up.1)
  | inr e ↦ rw e (le, (le_of_not_above a b h k.0 e, up.1))
]

insert_sorted-IsAscending :
    (a : ℤ) (l : List ℤ) → IsId a → AllIds l → IsAscending l → IsAscending (insert_sorted a l)
unfolding insert_sorted
insert_sorted-IsAscending a [] h k up = tt
insert_sorted-IsAscending a (b ∷ l) h k up = elim (Bool-cases (above a b)) [
  | inl e ↦ rw e (insert_sorted-Ascending b a l h k.1 (le_of_above a b h k.0 e) up)
  | inr e ↦ rw e (le_of_not_above a b h k.0 e, up)
]

-- An array of numbers that are not negative and fit an `int` is sorted: what is left are the same
-- numbers, each as often, and each is at most the next.
pub sort-IsAscending :
    (l : List ℤ) → AllIds l → Permᴰ (sort_int_array_asc l) l × IsAscending (sort_int_array_asc l)
unfolding sort_int_array_asc
sort-IsAscending [] h = (Permᴰ.nil, tt)
sort-IsAscending (a ∷ l) h =
    let (same, up) = sort-IsAscending l h.1 in
    (
      Permᴰ.trans (insert_sorted-perm a (sort_int_array_asc l)) (Permᴰ.cons refl same),
      insert_sorted-IsAscending a (sort_int_array_asc l) h.0 (sort-AllIds l h.1) up,
    )

pub insert_comm :
    (a b : ℤ) (l : List ℤ)
    → IsId a
    → IsId b
    → AllIds l
    → insert_sorted a (insert_sorted b l) ≡ insert_sorted b (insert_sorted a l)
unfolding insert_sorted
insert_comm a b [] h k all = ground (
  arith,
  le_of_above a b h k,
  le_of_above b a k h,
  le_of_not_above a b h k,
  le_of_not_above b a k h,
  not_above_of_le a b h k,
  not_above_of_le b a k h,
  ℤ_antisymm a b,
)
insert_comm a b (c ∷ l) h k all = ground (
  arith,
  le_of_above a b h k,
  le_of_above b a k h,
  le_of_not_above a b h k,
  le_of_not_above b a k h,
  le_of_above a c h all.0,
  le_of_above b c k all.0,
  le_of_not_above a c h all.0,
  le_of_not_above b c k all.0,
  not_above_of_le a b h k,
  not_above_of_le b a k h,
  not_above_of_le a c h all.0,
  not_above_of_le b c k all.0,
  ℤ_antisymm a b,
  insert_comm a b l h k all.1,
)

-- An ascending array is left as it is.
pub sort_of_Ascending : (a : ℤ) (l : List ℤ) → AllIds l → Ascending a l → sort_int_array_asc l ≡ l
unfolding sort_int_array_asc insert_sorted
sort_of_Ascending a [] ids h = refl
sort_of_Ascending a (b ∷ []) ids h = refl
sort_of_Ascending a (b ∷ c ∷ l) ids h =
    rw (sort_of_Ascending b (c ∷ l) ids.1 h.1)
      (ground (arith, not_above_of_le b c ids.0 ids.1.0 h.1.0))

length-insert_sorted : (a : ℤ) (l : List ℤ) → length (insert_sorted a l) ≡ suc (length l)
unfolding insert_sorted
length-insert_sorted a [] = refl
length-insert_sorted a (b ∷ l) = ground (arith, length-insert_sorted a l)

pub length-sort_int_array_asc : (l : List ℤ) → length (sort_int_array_asc l) ≡ length l
unfolding sort_int_array_asc
length-sort_int_array_asc [] = refl
length-sort_int_array_asc (a ∷ l) =
    length-insert_sorted a (sort_int_array_asc l) ∙ ap suc (length-sort_int_array_asc l)
