-- ===== src/Util/Sort.antt =====
-- `sort_cmp_func` and `sort_int_array_asc` of util/util.c.
pub mod Order
use bmb.Base.{ℕ, ◌+◌, ◌-◌, suc, Bool, true, false, List, [], ◌∷◌, leb, if◌then◌else◌}
use bmb.Util.Decimal.{ℤ, pos, negsuc, to_unsigned, to_int}

abbrev pub pos_part : ℤ → ℕ
pos_part (pos n) = n
pos_part (negsuc n) = 0

abbrev pub neg_part : ℤ → ℕ
neg_part (pos n) = 0
neg_part (negsuc n) = suc n

-- a - b of natural numbers
abbrev sub_ℕ : ℕ → ℕ → ℤ
sub_ℕ a b = if leb b a then pos (a - b) else negsuc (b - a - 1)

-- `*a - *b`, of which 32 bits are left
pub sort_cmp_func : ℤ → ℤ → ℤ
sort_cmp_func a b = to_int (to_unsigned (sub_ℕ (pos_part a + neg_part b) (pos_part b + neg_part a)))

is_positive : ℤ → Bool
is_positive (pos (suc n)) = true
is_positive _ = false

-- The comparison sorts `a` behind `b`.
pub above : ℤ → ℤ → Bool
above a b = is_positive (sort_cmp_func a b)

pub insert_sorted : ℤ → List ℤ → List ℤ
insert_sorted a [] = a ∷ []
insert_sorted a (b ∷ l) = if above a b then b ∷ insert_sorted a l else a ∷ b ∷ l

-- What `qsort` leaves in the array: the order of equal numbers cannot be seen.
unfoldable pub sort_int_array_asc : List ℤ → List ℤ
unfolding insert_sorted above is_positive sort_cmp_func
sort_int_array_asc [] = []
sort_int_array_asc (a ∷ l) = insert_sorted a (sort_int_array_asc l)
