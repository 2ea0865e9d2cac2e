-- ===== src/Util/Decimal/Print.antt =====
-- `int_to_string` of util/util.c: the length of the digits, and `atoi` on them.
use native.Mathlib.Nat.{pow-suc, add-zero, le_of_lt}
use mathlib.Core.Path.{subst}
use bmb.Base.{
  ℕ, zero, suc, ◌+◌, ◌/◌, ◌%◌, ◌^◌, ◌≤◌, ◌<◌, ◌≡◌, ◌≢◌, refl, true, false, [], ◌∷◌, arith, length,
  All, some, ◌∙◌, leb, inl, inr, Bool-cases, ◌==◌, ap,
}
use bmb.Base.Text.{CString, str_eq, eq_of_str_eq}
use bmb.Util.Decimal.{
  pos, emit, decimal, sprintf_d, is_digit, scan, atoi, least_power, ceil_log10, text_room,
  int_to_string,
}

abbrev AllDigits : CString → Type 0
AllDigits = All (λ c. is_digit c ≡ true)

emit-AllDigits : (fuel n : ℕ) (out : CString) → AllDigits out → AllDigits (emit fuel n out)
unfolding emit is_digit
emit-AllDigits zero n out h = h
emit-AllDigits (suc f) n out h = elim (Bool-cases (n == 0)) [
  | inl e ↦ rw e h
  | inr e ↦ rw e (emit-AllDigits f (n / 10) ((b'0' + n % 10) ∷ out) (ground arith, h))
]

scan-emit : (fuel n : ℕ) (out : CString) → n < fuel → scan (emit fuel n out) 0 ≡ scan out n
unfolding emit
scan-emit zero n out h = absurd (omega arith)
scan-emit (suc f) n out h = elim (Bool-cases (n == 0)) [
  | inl e ↦ rw e (ground arith)
  | inr e ↦ rw e (scan-emit f (n / 10) ((b'0' + n % 10) ∷ out) (ground arith) ∙ last)
]
  where
    last : scan ((b'0' + n % 10) ∷ out) (n / 10) ≡ scan out n
    last = unfold scan is_digit in ground arith

scan-decimal : (n : ℕ) → scan (decimal n) 0 ≡ n
unfolding decimal
scan-decimal n = elim (Bool-cases (n == 0)) [
  | inl e ↦ rw e (unfold scan is_digit in ground arith)
  | inr e ↦ rw e (scan-emit (suc n) n [] (omega arith) ∙ unfold scan in refl)
]

decimal-AllDigits : (n : ℕ) → AllDigits (decimal n)
unfolding decimal
decimal-AllDigits n = elim (Bool-cases (n == 0)) [
  | inl e ↦ rw e (unfold is_digit in refl, tt)
  | inr e ↦ rw e (emit-AllDigits (suc n) n [] tt)
]

atoi_digits : (s : CString) → AllDigits s → atoi s ≡ pos (scan s 0)
unfolding atoi
atoi_digits [] h = unfold scan in refl
atoi_digits (c ∷ s) h = unfold is_digit in ground arith

-- A printed number is read back.
pub atoi-sprintf_d : (n : ℕ) → atoi (sprintf_d (pos n)) ≡ pos n
unfolding sprintf_d
atoi-sprintf_d n = atoi_digits (decimal n) (decimal-AllDigits n) ∙ ap pos (scan-decimal n)

length-emit :
    (fuel n k : ℕ) (out : CString) → n < 10 ^ k → length (emit fuel n out) ≤ k + length out
unfolding emit
length-emit zero n k out h = omega arith
length-emit (suc f) n zero out h = ground (arith, pow-suc 10 0)
length-emit (suc f) n (suc k) out h = elim (Bool-cases (n == 0)) [
  | inl e ↦ rw e (omega arith)
  | inr e ↦ rw e (
      omega (arith, length-emit f (n / 10) k ((b'0' + n % 10) ∷ out) (omega (arith, pow-suc 10 k))))
]

lt-ten_pow : (n : ℕ) → n < 10 ^ n
lt-ten_pow zero = omega arith
lt-ten_pow (suc n) = omega (arith, pow-suc 10 n, lt-ten_pow n)

le-ten_pow-least_power : (fuel k n : ℕ) → n ≤ 10 ^ (k + fuel) → n ≤ 10 ^ least_power fuel k n
unfolding least_power
le-ten_pow-least_power zero k n h = rw add-zero at h
le-ten_pow-least_power (suc f) k n h = elim (Bool-cases (leb n (10 ^ k))) [
  | inl e ↦ rw e (ground arith)
  | inr e ↦ rw e (le-ten_pow-least_power f (k + 1) n (subst (λ t. n ≤ 10 ^ t) (omega arith) h))
]

le-ten_pow-ceil_log10 : (n : ℕ) → n ≤ 10 ^ ceil_log10 n
unfolding ceil_log10
le-ten_pow-ceil_log10 n =
    le-ten_pow-least_power n 0 n (subst (λ t. n ≤ 10 ^ t) (omega arith) (le_of_lt (lt-ten_pow n)))

decimal-suc : (n : ℕ) → decimal (suc n) ≡ emit (suc (suc n)) (suc n) []
unfolding decimal
decimal-suc n = ground arith

length-decimal-suc : (n : ℕ) → length (decimal (suc n)) ≤ ceil_log10 (suc n) + 1
length-decimal-suc n =
    let k = ceil_log10 (suc n) in
    rw decimal-suc (
      omega (
        arith,
        length-emit (suc (suc n)) (suc n) (k + 1) [] (
            subst (λ t. suc n < 10 ^ t) {x = suc k} (omega arith)
              (omega (arith, pow-suc 10 k, le-ten_pow-ceil_log10 (suc n)))),
      ))

-- The buffer that `int_to_string` allocates holds the digits of every `int` that is not negative.
pub int_to_string_pos : (n : ℕ) → int_to_string (pos n) ≡ some (sprintf_d (pos n))
unfolding int_to_string text_room sprintf_d
int_to_string_pos zero = unfold decimal in refl
int_to_string_pos (suc n) = ground (arith, length-decimal-suc n)

-- Ten digits are enough below 2^31.
pub length-sprintf_d : (n : ℕ) → n < 2 ^ 31 → length (sprintf_d (pos n)) ≤ 10
unfolding sprintf_d decimal
length-sprintf_d zero h = omega arith
length-sprintf_d (suc n) h = ground (arith, length-emit (suc (suc n)) (suc n) 10 [] (omega arith))

-- Different numbers have different prints.
pub sprintf_d_ne : (m n : ℕ) → m ≢ n → str_eq (sprintf_d (pos m)) (sprintf_d (pos n)) ≡ false
sprintf_d_ne m n ne = elim (Bool-cases (str_eq (sprintf_d (pos m)) (sprintf_d (pos n)))) [
  | inl e ↦
      absurd (ne (ground (arith, ap atoi (eq_of_str_eq _ _ e), atoi-sprintf_d m, atoi-sprintf_d n)))
  | inr e ↦ e
]
