-- ===== src/Http/Request/Parse.antt =====
-- `Request_parse` of http/request/request.c on requests that carry a type, a queue name and one more value.
use mathlib.Core.Path.{subst}
use bmb.Base.{
  ℕ, ◌%◌, ◌^◌, ◌<◌, ◌≡◌, refl, sym, ◌∙◌, false, none, some, List, [], ◌∷◌, ◌++◌, arith, ◌==◌,
  length, length-append, All, ◌⊎◌, inl, inr, Option-cases,
}
use bmb.Base.Text.{CString, codes, str_eq}
use bmb.Run.{ok, crash}
use bmb.World.{World}
use bmb.Http.Request.{
  Request, RequestPair, request_body_new, request_body_add, text_in_buffer, up_to_space, until_nul,
  method_of, extract_nonempty, request_extract_method, request_extract_data, add_found, last_pair,
  pair_of, value_after, parsed_body, parsed_request, request_parse,
}
use bmb.Http.Request.Words.{HasNoEquals, All-left, after_first-none}
use bmb.Http.Request.Query.{
  Query, query_text, type_word, queue_word, last_word, IsQuery, IsLastKey, extract_type,
  extract_queue, extract_last,
}

abbrev pub HasNoNul : CString → Type 0
HasNoNul = All (λ c. (c == 0) ≡ false)

abbrev pub HasNoSpace : CString → Type 0
HasNoSpace = All (λ c. (c == b' ') ≡ false)

text_in_buffer-text :
    (t : CString) (junk : List ℕ) → HasNoNul t → text_in_buffer (t ++ 0 ∷ junk) ≡ some t
unfolding text_in_buffer
text_in_buffer-text [] junk h = ground arith
text_in_buffer-text (c ∷ t) junk h = ground (arith, text_in_buffer-text t junk h.1)

pub up_to_space-word :
    (word : CString) (rest : List ℕ)
    → HasNoSpace word
    → up_to_space (word ++ b' ' ∷ rest) ≡ some word
unfolding up_to_space
up_to_space-word [] rest h = ground arith
up_to_space-word (c ∷ word) rest h = ground (arith, up_to_space-word word rest h.1)

up_to_space-cases :
    (s : List ℕ) → (up_to_space s ≡ none) ⊎ ((t : List ℕ) × (up_to_space s ≡ some t))
up_to_space-cases s = Option-cases (up_to_space s)

pub up_to_space-append :
    (s r : List ℕ) (word : List ℕ) → up_to_space s ≡ some word → up_to_space (s ++ r) ≡ some word
unfolding up_to_space
up_to_space-append [] r word h = absurd (cc)
up_to_space-append (c ∷ s) r word h = elim (up_to_space-cases s) [
  | inl e ↦ ground arith
  | inr (t, e) ↦ ground (arith, up_to_space-append s r t e)
]

up_to_space-none : (s : List ℕ) → HasNoSpace s → up_to_space s ≡ none
unfolding up_to_space
up_to_space-none [] h = refl
up_to_space-none (c ∷ s) h = ground (arith, up_to_space-none s h.1)

-- A received text that is not empty and a buffer without a space: the search for the end of the
-- method reads past the buffer.
pub request_parse_overread :
    (t : CString) (c : ℕ) (junk : List ℕ) (w : World)
    → HasNoNul (c ∷ t)
    → length (c ∷ t) < 2 ^ 16
    → HasNoSpace (c ∷ t ++ 0 ∷ junk)
    → request_parse (c ∷ t ++ 0 ∷ junk) w ≡ crash
unfolding request_parse request_extract_method extract_nonempty
request_parse_overread t c junk w text fits plain =
    let full : ((length (c ∷ t) % 2 ^ 16) == 0) ≡ false = ground arith in
    rw (text_in_buffer-text (c ∷ t) junk text, full, up_to_space-none (c ∷ t ++ 0 ∷ junk) plain)

abbrev pub pair : CString → CString → RequestPair
pair key value = record { key = key; value = value }

-- A text with a space behind its method, in which a type, a queue and a last value are found.
pub parse_found :
    (t : CString) (m : ℕ) (method : CString) (a b c : RequestPair) (junk : List ℕ) (w : World)
    → up_to_space t ≡ some (m ∷ method)
    → until_nul (m ∷ method) ≡ m ∷ method
    → request_extract_data t (codes "type") ≡ some a
    → request_extract_data t (codes "queue") ≡ some b
    → last_pair (m ∷ method) t ≡ some c
    → HasNoNul t
    → ((length t % 2 ^ 16) == 0) ≡ false
    → request_parse (t ++ 0 ∷ junk) w
      ≡ ok (some (record { method = m ∷ method; body = record { pairs = a ∷ b ∷ c ∷ [] } })) w
parse_found t m method a b c junk w word whole kind queue last text full =
    let found = up_to_space-append t (0 ∷ junk) (m ∷ method) word in
    let method_found : request_extract_method (t ++ 0 ∷ junk) w ≡ ok (some (m ∷ method)) w =
      unfold request_extract_method extract_nonempty method_of in
      rw (text_in_buffer-text t junk text, full, found, whole) in
    let body : parsed_body (m ∷ method) t ≡ record { pairs = a ∷ b ∷ c ∷ [] } =
      unfold parsed_body in
      rw (last, kind, queue) (unfold add_found request_body_new request_body_add in refl) in
    unfold request_parse parsed_request in rw (method_found, text_in_buffer-text t junk text, body)

parse_lem :
    (q : Query) (m : ℕ) (method after : CString) (junk : List ℕ) (w : World)
    → IsQuery q
    → IsLastKey q.sep q.key
    → q.start ≡ (m ∷ method) ++ b' ' ∷ after
    → HasNoSpace (m ∷ method)
    → until_nul (m ∷ method) ≡ m ∷ method
    → last_pair (m ∷ method) (query_text q) ≡ request_extract_data (query_text q) q.key
    → HasNoNul (query_text q)
    → length (query_text q) < 2 ^ 16
    → request_parse (query_text q ++ 0 ∷ junk) w
      ≡ ok
          (some (record {
            method = m ∷ method;
            body = record {
              pairs =
                  pair (codes "type") q.kind
                  ∷ pair (codes "queue") q.name
                  ∷ pair q.key q.value
                  ∷ [];
            };
          }))
          w
parse_lem q m method after junk w h k start word whole last text fits =
    let started : up_to_space q.start ≡ some (m ∷ method) =
      rw start (up_to_space-word (m ∷ method) after word) in
    parse_found (query_text q) m method _ _ _ junk w
      (up_to_space-append (type_word q) _ (m ∷ method)
        (up_to_space-append q.start (q.sep ∷ codes "type") (m ∷ method) started))
      whole (extract_type q h) (extract_queue q h) (last ∙ extract_last q h k) text
      (ground (
        arith,
        length-append (type_word q)
            (b'=' ∷ (queue_word q ++ b'=' ∷ (last_word q ++ b'=' ∷ (q.value ++ q.stop ∷ q.rest)))),
      ))

until_nul-text : (s : CString) → HasNoNul s → until_nul s ≡ s
unfolding until_nul
until_nul-text [] h = refl
until_nul-text (c ∷ s) h = ground (arith, until_nul-text s h.1)

extract_none : (key s : CString) → HasNoEquals s → request_extract_data s key ≡ none
unfolding request_extract_data value_after pair_of
extract_none key s h = rw (after_first-none key s h)

last_pair-none : (method s : CString) → HasNoEquals s → last_pair method s ≡ none
unfolding last_pair
last_pair-none method s h =
    ground (arith, extract_none (codes "data") s h, extract_none (codes "index") s h)

-- A connection that sends no text is no request.
pub request_parse_nothing : (junk : List ℕ) (w : World) → request_parse (0 ∷ junk) w ≡ ok none w
unfolding request_parse parsed_request request_extract_method extract_nonempty
request_parse_nothing junk w = rw (text_in_buffer-text [] junk tt)

-- A text with a space behind its method and without `=` is parsed to a request without values.
pub request_parse-empty :
    (m : ℕ) (method after : CString) (junk : List ℕ) (w : World)
    → HasNoSpace (m ∷ method)
    → HasNoEquals ((m ∷ method) ++ b' ' ∷ after)
    → HasNoNul ((m ∷ method) ++ b' ' ∷ after)
    → length ((m ∷ method) ++ b' ' ∷ after) < 2 ^ 16
    → request_parse (((m ∷ method) ++ b' ' ∷ after) ++ 0 ∷ junk) w
      ≡ ok (some (record { method = m ∷ method; body = record { pairs = [] } })) w
unfolding request_parse parsed_request parsed_body
request_parse-empty m method after junk w word plain text fits =
    let whole =
      until_nul-text (m ∷ method)
        (All-left (λ c. (c == 0) ≡ false) (m ∷ method) (b' ' ∷ after) text) in
    let request = (m ∷ method) ++ b' ' ∷ after in
    let found : up_to_space (request ++ 0 ∷ junk) ≡ some (m ∷ method) =
      up_to_space-append request (0 ∷ junk) (m ∷ method)
        (up_to_space-word (m ∷ method) after word) in
    let full : ((length request % 2 ^ 16) == 0) ≡ false = ground arith in
    let method_found : request_extract_method (request ++ 0 ∷ junk) w ≡ ok (some (m ∷ method)) w =
      unfold request_extract_method extract_nonempty method_of in
      rw (text_in_buffer-text request junk text, full, found, whole) in
    rw
      (
        method_found,
        text_in_buffer-text request junk text,
        extract_none (codes "type") request plain,
        extract_none (codes "queue") request plain,
        last_pair-none (m ∷ method) request plain,
      )
      (unfold add_found request_body_new in refl)

-- The key `index` of a GET request and the key `data` of a POST request.
index-IsLastKey : (sep : ℕ) → IsLastKey sep (codes "index")
index-IsLastKey sep = record {
  plain = (refl, (refl, (refl, (refl, (refl, tt)))));
  short = omega arith;
  itself = unfold str_eq in refl;
  other_type = unfold str_eq in ground arith;
  other_queue = unfold str_eq in refl;
}

data-IsLastKey : (sep : ℕ) → IsLastKey sep (codes "data")
data-IsLastKey sep = record {
  plain = (refl, (refl, (refl, (refl, tt))));
  short = omega arith;
  itself = unfold str_eq in refl;
  other_type = unfold str_eq in ground arith;
  other_queue = unfold str_eq in refl;
}

abbrev pub parsed : CString → Query → Request
parsed method q = record {
  method = method;
  body = record {
    pairs = pair (codes "type") q.kind ∷ pair (codes "queue") q.name ∷ pair q.key q.value ∷ [];
  };
}

-- A GET request whose text has no `=` before `type=`, which is followed by `<type>&queue=<name>` and
-- `&index=<index>` next to each other in this order, the three values not empty and free of `&`, `=`
-- and white space, with such a byte behind the index, is parsed to these three values, whatever
-- follows, and whatever stands behind the text in the buffer.
pub request_parse-get :
    (q : Query) (after : CString) (junk : List ℕ) (w : World)
    → IsQuery q
    → q.key ≡ codes "index"
    → q.start ≡ codes "GET " ++ after
    → HasNoNul (query_text q)
    → length (query_text q) < 2 ^ 16
    → request_parse (query_text q ++ 0 ∷ junk) w ≡ ok (some (parsed (codes "GET") q)) w
request_parse-get q after junk w h key start text fits =
    parse_lem q b'G' (codes "ET") after junk w h
      (subst (IsLastKey q.sep) (sym key) (index-IsLastKey q.sep)) start (refl, (refl, (refl, tt)))
      (unfold until_nul in refl) (unfold last_pair str_eq in rw key) text fits

pub request_parse-post :
    (q : Query) (after : CString) (junk : List ℕ) (w : World)
    → IsQuery q
    → q.key ≡ codes "data"
    → q.start ≡ codes "POST " ++ after
    → HasNoNul (query_text q)
    → length (query_text q) < 2 ^ 16
    → request_parse (query_text q ++ 0 ∷ junk) w ≡ ok (some (parsed (codes "POST") q)) w
request_parse-post q after junk w h key start text fits =
    parse_lem q b'P' (codes "OST") after junk w h
      (subst (IsLastKey q.sep) (sym key) (data-IsLastKey q.sep)) start
      (refl, (refl, (refl, (refl, tt)))) (unfold until_nul in refl)
      (unfold last_pair str_eq in rw key) text fits
