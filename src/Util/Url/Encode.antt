-- ===== src/Util/Url/Encode.antt =====
-- `url_decode` of util/util.c on encoded and plain texts.
use mathlib.Core.Path.{subst}
use bmb.Base.{
  ℕ, suc, ◌+◌, ◌-◌, ◌*◌, ◌/◌, ◌%◌, ◌≤◌, ◌<◌, ◌≡◌, refl, Bool, true, false, ◌&&◌, [], ◌∷◌, ◌++◌,
  arith, ltb, ◌==◌, if◌then◌else◌, length, All,
}
use bmb.Base.Text.{CString}
use bmb.Util.Url.{is_hexadecimal, hex_value, Decoded, decoded, refused, written, put, url_decode}

hex_digit : ℕ → ℕ
hex_digit n = if ltb n 10 then b'0' + n else b'A' + (n - 10)

-- Every byte as an escape.
pub url_encode : CString → CString
url_encode [] = []
url_encode (c ∷ s) = b'%' ∷ hex_digit (c / 16) ∷ hex_digit (c % 16) ∷ url_encode s

abbrev pub IsBytes : CString → Type 0
IsBytes = All (λ c. c < 256)

hex_digit_lem :
    (n : ℕ) → n < 16 → (is_hexadecimal (hex_digit n) ≡ true) × (hex_value (hex_digit n) ≡ n)
unfolding hex_digit is_hexadecimal hex_value
hex_digit_lem n h = ground arith

-- A text of bytes, each of them written as an escape, is decoded to the text with its NUL.
pub url_decode-url_encode :
    (s : CString) → IsBytes s → url_decode (url_encode s) ≡ decoded (s ++ 0 ∷ [])
unfolding url_decode url_encode
url_decode-url_encode [] h = refl
url_decode-url_encode (c ∷ s) h = ground (
  arith,
  hex_digit_lem (c / 16) (omega arith),
  hex_digit_lem (c % 16) (omega arith),
  url_decode-url_encode s h.1,
)

-- A text without escapes and plus signs is copied.
abbrev IsPlain : CString → Type 0
IsPlain = All (λ c. ((c == b'+') ≡ false) × ((c == b'%') ≡ false))

pub url_decode_plain : (s : CString) → IsPlain s → url_decode s ≡ decoded (s ++ 0 ∷ [])
unfolding url_decode
url_decode_plain [] h = refl
url_decode_plain (c ∷ []) h = ground arith
url_decode_plain (c ∷ d ∷ []) h = ground (arith, url_decode_plain (d ∷ []) h.1)
url_decode_plain (c ∷ d ∷ e ∷ s) h = ground (arith, url_decode_plain (d ∷ e ∷ s) h.1)

length-written-put : (c : ℕ) (d : Decoded) → length (written (put c d)) ≡ suc (length (written d))
length-written-put c (decoded bytes) = refl
length-written-put c (refused bytes) = refl

length-written_round :
    (plus escape digits : Bool) (x y n : ℕ) (rest after : Decoded)
    → length (written rest) ≤ n
    → length (written after) ≤ n
    → length (
        written (
          if plus
          then put b' ' rest
          else if escape
          then (if digits then put y after else refused [])
          else put x rest))
      ≤ suc n
length-written_round true escape digits x y n rest after h k =
    omega (arith, length-written-put b' ' rest)
length-written_round false true true x y n rest after h k =
    omega (arith, length-written-put y after)
length-written_round false true false x y n rest after h k = omega arith
length-written_round false false digits x y n rest after h k =
    omega (arith, length-written-put x rest)

-- The loop never writes past a buffer of `strlen(str) + 1` bytes.
pub length-written : (s : CString) → length (written (url_decode s)) ≤ length s + 1
unfolding url_decode
length-written [] = omega arith
length-written (c ∷ []) = ground arith
length-written (c ∷ d ∷ []) = ground (arith, length-written (d ∷ []))
length-written (c ∷ d ∷ e ∷ s) =
    subst (λ (n : ℕ). length (written (url_decode (c ∷ d ∷ e ∷ s))) ≤ n)
      {x = suc (length (d ∷ e ∷ s) + 1)} (omega arith)
      (length-written_round (c == b'+') (c == b'%') (is_hexadecimal d && is_hexadecimal e) c
        (16 * hex_value d + hex_value e) (length (d ∷ e ∷ s) + 1) (url_decode (d ∷ e ∷ s))
        (url_decode s) (length-written (d ∷ e ∷ s)) (omega (arith, length-written s)))
