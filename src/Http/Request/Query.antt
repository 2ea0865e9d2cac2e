-- ===== src/Http/Request/Query.antt =====
-- Requests to http/request/request.c that carry a type, a queue name and one more value.
use mathlib.Core.List.{append_assoc}
use bmb.Base.{ℕ, ◌≤◌, ◌≡◌, refl, ◌∙◌, ap, true, false, some, [], ◌∷◌, ◌++◌, arith, ◌==◌, length}
use bmb.Base.Text.{CString, codes, str_eq}
use bmb.Http.Request.{after_first, pair_of, value_after, request_extract_data}
use bmb.Http.Request.Words.{
  HasNoEquals, ends_with, after_first-word, ends_with_same, ends_with-end, ends_value, IsValue,
  value_at-append, All-append,
}

-- `<start><sep>type=<kind>&queue=<name>&<key>=<value><stop><rest>`
pub record Query : Type 0 where
  pub start : CString
  pub sep : ℕ
  pub kind : CString
  pub name : CString
  pub key : CString
  pub value : CString
  pub stop : ℕ
  pub rest : CString

abbrev pub type_word : Query → CString
type_word q = q.start ++ q.sep ∷ codes "type"

abbrev pub queue_word : Query → CString
queue_word q = q.kind ++ codes "&queue"

abbrev pub last_word : Query → CString
last_word q = q.name ++ b'&' ∷ q.key

abbrev pub query_text : Query → CString
query_text q =
    type_word q
    ++ b'=' ∷ (queue_word q ++ b'=' ∷ (last_word q ++ b'=' ∷ (q.value ++ q.stop ∷ q.rest)))

-- Neither empty nor with a byte that ends a value, and without `=`.
abbrev pub IsField : CString → Type 0
IsField [] = ⊥
IsField (c ∷ v) = IsValue (c ∷ v) × HasNoEquals (c ∷ v)

-- The fields of the query, and a key that cannot be mistaken for another.
pub record IsQuery (q : Query) : Type 0 where
  pub start : HasNoEquals q.start
  pub sep : (q.sep == b'=') ≡ false
  pub kind : IsField q.kind
  pub name : IsField q.name
  pub value : IsField q.value
  pub stop : ends_value q.stop ≡ true

-- A key of four or five bytes that is neither `type` nor `queue`.
pub record IsLastKey (sep : ℕ) (key : CString) : Type 0 where
  pub plain : HasNoEquals key
  pub short : length key ≤ 5
  pub itself : ends_with key (b'&' ∷ key) ≡ true
  pub other_type : ends_with key (sep ∷ codes "type") ≡ false
  pub other_queue : ends_with key (codes "&queue") ≡ false

pub plain_field : (v : CString) → IsField v → HasNoEquals v
plain_field [] h = absurd h
plain_field (c ∷ v) h = h.1

pub IsValue-field : (v : CString) → IsField v → IsValue v
IsValue-field [] h = absurd h
IsValue-field (c ∷ v) h = h.0

pair_of_field :
    (key v : CString) → IsField v → pair_of key (some v) ≡ some (record { key = key; value = v })
unfolding pair_of
pair_of_field key [] h = absurd h
pair_of_field key (c ∷ v) h = refl

-- The search finds the value where the key stands.
pub found_field :
    (key text v : CString) (c : ℕ) (rest : CString)
    → IsField v
    → ends_value c ≡ true
    → after_first (key ++ codes "=") text ≡ some (v ++ c ∷ rest)
    → request_extract_data text key ≡ some (record { key = key; value = v })
unfolding request_extract_data value_after
found_field key text v c rest h e found =
    rw (found, value_at-append v c rest (IsValue-field v h) e, pair_of_field key v h)

pub found_here :
    (key word rest : CString)
    → HasNoEquals key
    → HasNoEquals word
    → ends_with key word ≡ true
    → after_first (key ++ codes "=") (word ++ b'=' ∷ rest) ≡ some rest
found_here key word rest hk hw e = after_first-word key word rest hk hw ∙ rw e

pub passed_by :
    (key word rest : CString)
    → HasNoEquals key
    → HasNoEquals word
    → ends_with key word ≡ false
    → after_first (key ++ codes "=") (word ++ b'=' ∷ rest) ≡ after_first (key ++ codes "=") rest
passed_by key word rest hk hw e = after_first-word key word rest hk hw ∙ rw e

module _ (q : Query) (h : IsQuery q) where
  pub plain_type : HasNoEquals (type_word q)
  plain_type =
      All-append (λ c. (c == b'=') ≡ false) q.start (q.sep ∷ codes "type") h.start
        (h.sep, (refl, (refl, (refl, (refl, tt)))))

  plain_queue : HasNoEquals (queue_word q)
  plain_queue =
      All-append (λ c. (c == b'=') ≡ false) q.kind (codes "&queue") (plain_field q.kind h.kind)
        (refl, (refl, (refl, (refl, (refl, (refl, tt))))))

  plain_last : HasNoEquals q.key → HasNoEquals (last_word q)
  plain_last k =
      All-append (λ c. (c == b'=') ≡ false) q.name (b'&' ∷ q.key) (plain_field q.name h.name)
        (refl, k)

  abbrev last_text : CString
  last_text = last_word q ++ b'=' ∷ (q.value ++ q.stop ∷ q.rest)

  pub extract_type :
      request_extract_data (query_text q) (codes "type")
      ≡ some (record { key = codes "type"; value = q.kind })
  unfolding str_eq
  extract_type =
      found_field (codes "type") (query_text q) q.kind b'&' (codes "queue" ++ b'=' ∷ last_text)
        h.kind refl
        (found_here (codes "type") (type_word q) _ (refl, (refl, (refl, (refl, tt)))) plain_type
            (ends_with_same (codes "type") q.start (q.sep ∷ codes "type") (ground arith))
          ∙ ap some (append_assoc q.kind (codes "&queue") (b'=' ∷ last_text)))

  pub extract_queue :
      request_extract_data (query_text q) (codes "queue")
      ≡ some (record { key = codes "queue"; value = q.name })
  unfolding str_eq
  extract_queue =
      found_field (codes "queue") (query_text q) q.name b'&'
        (q.key ++ b'=' ∷ (q.value ++ q.stop ∷ q.rest)) h.name refl
        (passed_by (codes "queue") (type_word q) _ (refl, (refl, (refl, (refl, (refl, tt)))))
            plain_type
            (ends_with-end (codes "queue") q.start (q.sep ∷ codes "type") (omega arith)
              (ground arith))
          ∙ (found_here (codes "queue") (queue_word q) _ (refl, (refl, (refl, (refl, (refl, tt)))))
                plain_queue (ends_with_same (codes "queue") q.kind (codes "&queue") refl)
              ∙ ap some (append_assoc q.name (b'&' ∷ q.key) (b'=' ∷ (q.value ++ q.stop ∷ q.rest)))))

  pub extract_last :
      IsLastKey q.sep q.key
      → request_extract_data (query_text q) q.key ≡ some (record { key = q.key; value = q.value })
  extract_last k = found_field q.key (query_text q) q.value q.stop q.rest h.value h.stop (
      passed_by q.key (type_word q) _ k.plain plain_type
        (ends_with-end q.key q.start (q.sep ∷ codes "type") k.short k.other_type)
      ∙ (passed_by q.key (queue_word q) _ k.plain plain_queue
            (ends_with-end q.key q.kind (codes "&queue") (omega (arith, k.short)) k.other_queue)
          ∙ found_here q.key (last_word q) _ k.plain (plain_last k.plain)
              (ends_with_same q.key q.name (b'&' ∷ q.key) k.itself)))
