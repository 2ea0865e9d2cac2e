-- ===== src/Examples/Converted.antt =====
-- The theorems on texts and numbers at concrete values.
use mathlib.Core.List.{Permᴰ}
use bmb.Base.{◌≡◌, List, [], ◌∷◌, ◌++◌, arith}
use bmb.Base.Text.{codes}
use bmb.Util.Decimal.{ℤ, pos}
use bmb.Util.Sort.{sort_int_array_asc}
use bmb.Util.Sort.Order.{IsAscending, sort-IsAscending}
use bmb.Util.Url.{decoded, url_decode}
use bmb.Util.Url.Encode.{url_encode, url_decode-url_encode}

url_decode-url_encode_example :
    url_decode (url_encode (codes "a+b%")) ≡ decoded (codes "a+b%" ++ 0 ∷ [])
url_decode-url_encode_example =
    url_decode-url_encode (codes "a+b%")
      (omega arith, (omega arith, (omega arith, (omega arith, tt))))

abbrev three_ids : List ℤ
three_ids = pos 7 ∷ pos 3 ∷ pos 12 ∷ []

sort-IsAscending_example :
    Permᴰ (sort_int_array_asc three_ids) three_ids × IsAscending (sort_int_array_asc three_ids)
sort-IsAscending_example =
    sort-IsAscending three_ids (omega arith, (omega arith, (omega arith, tt)))
