-- ===== src/Util/Decimal.antt =====
-- `int_to_string` of util/util.c, and the libc conversions `sprintf("%d")` and `atoi` that it and
-- persist/persist.c rely on.
pub mod Print
use bmb.Base.{
  ℕ, zero, suc, ◌+◌, ◌-◌, ◌*◌, ◌/◌, ◌%◌, ◌≤◌, ◌<◌, ◌≡◌, refl, Bool, ◌&&◌, List, [], ◌∷◌, ◌++◌,
  arith, ltb, leb, ◌==◌, Option, none, some, ◌^◌, ◌||◌, if◌then◌else◌, length,
}
use bmb.Base.Text.{CString, codes}

-- An `int`: `negsuc n` is -(n + 1).
pub data ℤ : Type 0 where
  pos : ℕ → ℤ
  negsuc : ℕ → ℤ

-- The conversions between `int` and `unsigned int`
unfoldable pub to_unsigned : ℤ → ℕ
to_unsigned (pos n) = n % 2 ^ 32
to_unsigned (negsuc n) = (2 ^ 32 - suc n % 2 ^ 32) % 2 ^ 32

unfoldable pub to_int : ℕ → ℤ
to_int n = if ltb n (2 ^ 31) then pos n else negsuc (2 ^ 32 - 1 - n)

-- The decimal digits of `n` in front of `out`.
emit : ℕ → ℕ → CString → CString
emit zero n out = out
emit (suc fuel) n out =
    let rest = emit fuel (n / 10) ((b'0' + n % 10) ∷ out) in if n == 0 then out else rest

decimal : ℕ → CString
decimal n = if n == 0 then b'0' ∷ [] else emit (suc n) n []

-- `sprintf(buffer, "%d", i)`
pub sprintf_d : ℤ → CString
sprintf_d (pos n) = decimal n
sprintf_d (negsuc n) = b'-' ∷ decimal (n + 1)

is_digit : ℕ → Bool
is_digit c = leb b'0' c && leb c b'9'

-- The digits at the front of the text, read in base ten.
scan : CString → ℕ → ℕ
unfolding is_digit
scan [] acc = acc
scan (c ∷ s) acc = let rest = scan s (acc * 10 + (c - b'0')) in if is_digit c then rest else acc

-- isspace of the C locale
is_space : ℕ → Bool
is_space c = c == 32 || (leb 9 c && leb c 13)

neg : ℕ → ℤ
neg zero = pos 0
neg (suc n) = negsuc n

signed : CString → ℤ
unfolding scan neg
signed [] = pos 0
signed (c ∷ s) =
    if c == b'-' then neg (scan s 0) else if c == b'+' then pos (scan s 0) else pos (scan (c ∷ s) 0)

-- `atoi(s)`, where the number fits an `int`
unfoldable pub atoi : CString → ℤ
unfolding signed is_space
atoi [] = pos 0
atoi (c ∷ s) = let rest = atoi s in if is_space c then rest else signed (c ∷ s)

-- The least `k` from the given one on with `n ≤ 10 ^ k`.
least_power : ℕ → ℕ → ℕ → ℕ
least_power zero k n = k
least_power (suc fuel) k n =
    let rest = least_power fuel (k + 1) n in if leb n (10 ^ k) then k else rest

-- `ceil(log10(n))` of a positive `n`
ceil_log10 : ℕ → ℕ
ceil_log10 n = least_power n 0 n

-- `i > 0 ? (int)(ceil(log10(i)) + 1) : 2`
text_room : ℤ → ℕ
text_room (pos zero) = 2
text_room (pos (suc n)) = ceil_log10 (suc n) + 1
text_room (negsuc n) = 2

-- `none` is a write past the end of the allocated buffer.
pub int_to_string : ℤ → Option CString
int_to_string i =
    let text = sprintf_d i in if leb (length text + 1) (text_room i + 1) then some text else none
