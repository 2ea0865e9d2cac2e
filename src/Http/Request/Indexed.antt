-- ===== src/Http/Request/Indexed.antt =====
-- `Request_parse` of http/request/request.c on requests as README.md gives them for `get`: the index
-- stands in front of the queue name.
use mathlib.Core.List.{append_assoc}
use bmb.Base.{
  ℕ, ◌^◌, ◌<◌, ◌≡◌, refl, ◌∙◌, ap, false, some, List, ◌∷◌, ◌++◌, arith, ◌==◌, length, length-append,
}
use bmb.Base.Text.{CString, codes, str_eq}
use bmb.Run.{ok}
use bmb.World.{World}
use bmb.Http.Request.{request_extract_data, last_pair, until_nul, request_parse}
use bmb.Http.Request.Words.{HasNoEquals, ends_with_same, ends_with-end, All-append}
use bmb.Http.Request.Query.{
  Query, type_word, IsQuery, plain_field, found_field, found_here, passed_by, plain_type,
}
use bmb.Http.Request.Parse.{
  HasNoNul, parsed, pair, parse_found, up_to_space-word, up_to_space-append,
}

abbrev index_word : Query → CString
index_word q = q.kind ++ codes "&index"

abbrev name_word : Query → CString
name_word q = q.value ++ codes "&queue"

-- `<start><sep>type=<kind>&index=<value>&queue=<name><stop><rest>`
abbrev pub indexed_text : Query → CString
indexed_text q =
    type_word q
    ++ b'=' ∷ (index_word q ++ b'=' ∷ (name_word q ++ b'=' ∷ (q.name ++ q.stop ∷ q.rest)))

module _ (q : Query) (h : IsQuery q) where
  plain_index : HasNoEquals (index_word q)
  plain_index =
      All-append (λ c. (c == b'=') ≡ false) q.kind (codes "&index") (plain_field q.kind h.kind)
        (refl, (refl, (refl, (refl, (refl, (refl, tt))))))

  plain_name : HasNoEquals (name_word q)
  plain_name =
      All-append (λ c. (c == b'=') ≡ false) q.value (codes "&queue") (plain_field q.value h.value)
        (refl, (refl, (refl, (refl, (refl, (refl, tt))))))

  abbrev name_text : CString
  name_text = name_word q ++ b'=' ∷ (q.name ++ q.stop ∷ q.rest)

  extract_type :
      request_extract_data (indexed_text q) (codes "type") ≡ some (pair (codes "type") q.kind)
  unfolding str_eq
  extract_type =
      found_field (codes "type") (indexed_text q) q.kind b'&' (codes "index" ++ b'=' ∷ name_text)
        h.kind refl
        (found_here (codes "type") (type_word q) _ (refl, (refl, (refl, (refl, tt))))
            (plain_type q h)
            (ends_with_same (codes "type") q.start (q.sep ∷ codes "type") (ground arith))
          ∙ ap some (append_assoc q.kind (codes "&index") (b'=' ∷ name_text)))

  extract_index :
      request_extract_data (indexed_text q) (codes "index") ≡ some (pair (codes "index") q.value)
  unfolding str_eq
  extract_index =
      found_field (codes "index") (indexed_text q) q.value b'&'
        (codes "queue" ++ b'=' ∷ (q.name ++ q.stop ∷ q.rest)) h.value refl
        (passed_by (codes "index") (type_word q) _ (refl, (refl, (refl, (refl, (refl, tt)))))
            (plain_type q h)
            (ends_with-end (codes "index") q.start (q.sep ∷ codes "type") (omega arith)
              (ground arith))
          ∙ (found_here (codes "index") (index_word q) _ (refl, (refl, (refl, (refl, (refl, tt)))))
                plain_index (ends_with_same (codes "index") q.kind (codes "&index") refl)
              ∙ ap some
                  (append_assoc q.value (codes "&queue") (b'=' ∷ (q.name ++ q.stop ∷ q.rest)))))

  extract_queue :
      request_extract_data (indexed_text q) (codes "queue") ≡ some (pair (codes "queue") q.name)
  unfolding str_eq
  extract_queue = found_field (codes "queue") (indexed_text q) q.name q.stop q.rest h.name h.stop (
      passed_by (codes "queue") (type_word q) _ (refl, (refl, (refl, (refl, (refl, tt)))))
        (plain_type q h)
        (ends_with-end (codes "queue") q.start (q.sep ∷ codes "type") (omega arith) (ground arith))
      ∙ (passed_by (codes "queue") (index_word q) _ (refl, (refl, (refl, (refl, (refl, tt)))))
            plain_index (ends_with-end (codes "queue") q.kind (codes "&index") (omega arith) refl)
          ∙ found_here (codes "queue") (name_word q) _ (refl, (refl, (refl, (refl, (refl, tt)))))
              plain_name (ends_with_same (codes "queue") q.value (codes "&queue") refl)))

-- A GET request whose text has no `=` before `type=`, which is followed by `<type>&index=<index>` and
-- `&queue=<name>` next to each other in this order, as README.md has it for `get`, the three values
-- not empty and free of `&`, `=` and white space, with such a byte behind the name, is parsed to the
-- same three values as in the order of `request_parse-get`.
pub request_parse-indexed :
    (q : Query) (after : CString) (junk : List ℕ) (w : World)
    → IsQuery q
    → q.key ≡ codes "index"
    → q.start ≡ codes "GET " ++ after
    → HasNoNul (indexed_text q)
    → length (indexed_text q) < 2 ^ 16
    → request_parse (indexed_text q ++ 0 ∷ junk) w ≡ ok (some (parsed (codes "GET") q)) w
request_parse-indexed q after junk w h key start text fits = rw key (
    parse_found (indexed_text q) b'G' (codes "ET") _ _ _ junk w
      (up_to_space-append (type_word q) _ (codes "GET") (
        up_to_space-append q.start (q.sep ∷ codes "type") (codes "GET")
          (rw start (up_to_space-word (codes "GET") after (refl, (refl, (refl, tt)))))))
      (unfold until_nul in refl) (extract_type q h) (extract_queue q h)
      (unfold last_pair str_eq in extract_index q h) text
      (ground (
        arith,
        length-append (type_word q)
            (b'=' ∷ (index_word q ++ b'=' ∷ (name_word q ++ b'=' ∷ (q.name ++ q.stop ∷ q.rest)))),
      )))
