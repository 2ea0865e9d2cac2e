-- ===== src/Util/Url.antt =====
-- `is_hexadecimal` and `url_decode` of util/util.c.
pub mod Encode
use bmb.Base.{ℕ, ◌+◌, ◌-◌, ◌*◌, Bool, ◌&&◌, ◌||◌, List, [], ◌∷◌, leb, ◌==◌, if◌then◌else◌}
use bmb.Base.Text.{CString}

pub is_hexadecimal : ℕ → Bool
is_hexadecimal c =
    (leb b'0' c && leb c b'9') || (leb b'a' c && leb c b'f') || (leb b'A' c && leb c b'F')

-- The value of a digit that `sscanf("%2x")` reads.
pub hex_value : ℕ → ℕ
hex_value c = if leb c b'9' then c - b'0' else if leb c b'F' then c - b'A' + 10 else c - b'a' + 10

-- What the loop writes to the buffer: to the end, or up to an escape that it refuses with -1.
pub data Decoded : Type 0 where
  decoded : List ℕ → Decoded
  refused : List ℕ → Decoded

abbrev pub written : Decoded → List ℕ
written (decoded bytes) = bytes
written (refused bytes) = bytes

abbrev pub put : ℕ → Decoded → Decoded
put c (decoded bytes) = decoded (c ∷ bytes)
put c (refused bytes) = refused (c ∷ bytes)

-- The loop passes over the terminating NUL too, and copies it. A `%` at the end of the text is
-- refused, since the NUL behind it is no digit.
unfoldable pub url_decode : CString → Decoded
url_decode [] = decoded (0 ∷ [])
url_decode (c ∷ []) =
    if c == b'+'
    then put b' ' (url_decode [])
    else if c == b'%'
    then refused []
    else put c (url_decode [])
url_decode (c ∷ d ∷ []) =
    let rest = url_decode (d ∷ []) in
    if c == b'+' then put b' ' rest else if c == b'%' then refused [] else put c rest
url_decode (c ∷ d ∷ e ∷ s) =
    let rest = url_decode (d ∷ e ∷ s) in
    let after = url_decode s in
    if c == b'+'
    then put b' ' rest
    else if c == b'%'
    then (if is_hexadecimal d && is_hexadecimal e
        then put (16 * hex_value d + hex_value e) after
        else refused [])
    else put c rest
