-- ===== src/Http/Request.antt =====
-- http/request/request.c, request_body.c and request_pair.c: parsing a request. The received message
-- stands in a buffer of bytes, and nothing behind its end can be read; the buffer of 2000 bytes is
-- far from the bounds of `unsigned short int`.
pub mod Words
pub mod Query
pub mod Parse
pub mod Indexed
use bmb.Base.{
  ℕ, ◌-◌, ◌%◌, ◌^◌, Bool, true, false, ◌&&◌, ◌||◌, Option, none, some, List, [], ◌∷◌, ◌++◌, leb,
  ◌==◌, if◌then◌else◌, length,
}
use bmb.Base.Text.{CString, codes, str_eq}
use bmb.Run.{Cmd, pure, crashes, required, ◌>>=◌, ◌>>◌}
use bmb.World.{World}

-- `struct request_pair`
pub record RequestPair : Type 0 where
  pub key : CString
  pub value : CString

-- `struct request_body`; `pairs_length` is the length of the list.
pub record RequestBody : Type 0 where
  pub pairs : List RequestPair

-- `struct request`
pub record Request : Type 0 where
  pub method : CString
  pub body : RequestBody

unfoldable pub request_body_new : RequestBody
request_body_new = record { pairs = [] }

unfoldable pub request_body_add : RequestBody → RequestPair → RequestBody
request_body_add b pair = record { pairs = b.pairs ++ pair ∷ [] }

first_value : CString → List RequestPair → Option CString
first_value key [] = none
first_value key (pair ∷ pairs) =
    if str_eq pair.key key then some pair.value else first_value key pairs

unfoldable pub request_body_get : RequestBody → CString → Option CString
unfolding first_value
request_body_get b key = first_value key b.pairs

-- The text in a buffer, up to its first NUL.
unfoldable pub text_in_buffer : List ℕ → Option CString
text_in_buffer [] = none
text_in_buffer (c ∷ s) = elim (text_in_buffer s) [
  | none ↦ if c == 0 then some [] else none
  | some t ↦ if c == 0 then some [] else some (c ∷ t)
]

-- The bytes of a buffer up to the first space.
pub up_to_space : List ℕ → Option (List ℕ)
up_to_space [] = none
up_to_space (c ∷ s) = elim (up_to_space s) [
  | none ↦ if c == b' ' then some [] else none
  | some t ↦ if c == b' ' then some [] else some (c ∷ t)
]

-- The text of bytes as `strcmp` sees it.
unfoldable pub until_nul : List ℕ → CString
until_nul [] = []
until_nul (c ∷ s) = if c == 0 then [] else c ∷ until_nul s

-- Without a byte in front of the space no memory was allocated for the NUL.
method_of : List ℕ → Cmd World (Option CString)
unfolding until_nul
method_of [] = crashes
method_of (c ∷ s) = pure (some (until_nul (c ∷ s)))

extract_nonempty : List ℕ → Bool → Cmd World (Option CString)
extract_nonempty buffer true = pure none
extract_nonempty buffer false = do bytes ← required (up_to_space buffer); method_of bytes

-- The loop looks for a space only, also behind the end of the text.
pub request_extract_method : List ℕ → Cmd World (Option CString)
unfolding extract_nonempty method_of up_to_space
request_extract_method buffer = do
  request ← required (text_in_buffer buffer)
  extract_nonempty buffer ((length request % 2 ^ 16) == 0)

-- `[:space:]` of the C locale
unfoldable pub is_space : ℕ → Bool
is_space c = c == 32 || (leb 9 c && leb c 13)

unfoldable pub strip_prefix : CString → CString → Option CString
strip_prefix [] s = some s
strip_prefix (k ∷ ks) [] = none
strip_prefix (k ∷ ks) (c ∷ s) = let rest = strip_prefix ks s in if k == c then rest else none

-- What follows the first place where the literal stands.
unfoldable pub after_first : CString → CString → Option CString
unfolding strip_prefix
after_first k [] = strip_prefix k []
after_first k (c ∷ s) = elim (strip_prefix k (c ∷ s)) [
  | none ↦ after_first k s
  | some rest ↦ some rest
]

-- The longest match of `[^&[:space:]]*` at the front.
unfoldable pub value_at : CString → CString
unfolding is_space
value_at [] = []
value_at (c ∷ s) = let rest = value_at s in if c == b'&' || is_space c then [] else c ∷ rest

pair_of : CString → Option CString → Option RequestPair
pair_of key none = none
pair_of key (some []) = none
pair_of key (some (c ∷ v)) = some (record { key = key; value = c ∷ v })

value_after : Option CString → Option CString
value_after none = none
value_after (some rest) = some (value_at rest)

-- The leftmost longest match of `(key=)([^&[:space:]]*)`; an empty value gives no pair.
unfoldable pub request_extract_data : CString → CString → Option RequestPair
unfolding pair_of value_after
request_extract_data request key =
    pair_of key (value_after (after_first (key ++ codes "=") request))

add_found : RequestBody → Option RequestPair → RequestBody
add_found b none = b
add_found b (some pair) = request_body_add b pair

-- The value that the method allows.
pub last_pair : CString → CString → Option RequestPair
last_pair method request =
    if str_eq method (codes "POST")
    then request_extract_data request (codes "data")
    else if str_eq method (codes "GET")
    then request_extract_data request (codes "index")
    else none

parsed_body : CString → CString → RequestBody
unfolding add_found last_pair
parsed_body method request =
    add_found
      (add_found (add_found request_body_new (request_extract_data request (codes "type")))
        (request_extract_data request (codes "queue")))
      (last_pair method request)

parsed_request : CString → Option CString → Option Request
unfolding parsed_body
parsed_request request none = none
parsed_request request (some method) =
    some (record { method = method; body = parsed_body method request })

-- `none` is NULL.
pub request_parse : List ℕ → Cmd World (Option Request)
unfolding parsed_request
request_parse buffer = do
  method ← request_extract_method buffer
  request ← required (text_in_buffer buffer)
  pure (parsed_request request method)
