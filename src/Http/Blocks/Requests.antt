-- ===== src/Http/Blocks/Requests.antt =====
-- The blocks of a request of http/request/request.c: each is freed once.
use bmb.Base.{
  ℕ, ◌≡◌, ◌≢◌, refl, true, Bool-cases, inl, inr, Option, none, some, List, [], ◌∷◌, ◌++◌, ◌==◌,
  arith, if◌then◌else◌,
}
use bmb.Base.Text.{CString, codes, str_eq}
use bmb.Run.Returns
use bmb.Run.Returns.{Returns, returns}
use bmb.World.{Ptr, null}
use bmb.Util.Mem.{Memory, mem_alloc, realloc, IsMalloc, Owns, Owns-Same, alloc-Owns, realloc-Owns}
use bmb.Http.Request.{RequestPair, request_extract_data, until_nul}
use bmb.Http.Blocks.{
  PairBlocks, BodyBlocks, RequestBlocks, body_add, pair_new, extract_data_blocks, grow,
  extract_method_blocks, last_pair_blocks, add_pairs, is_there, request_new, parse_method,
  request_parse_blocks,
}
use bmb.Http.Blocks.Freed.{
  body_blocks, request_blocks, found_blocks, rest_blocks, parsed_blocks, is_method, has_method,
  pairs_blocks-append, free_next, request_destruct-Owns, pairs_blocks-move,
}

module _ (malloc : List Ptr → Ptr) (h : IsMalloc malloc) {m0 : Memory} where
  pair_new-Owns :
      {m : Memory} (pair : Option RequestPair) (bs : List Ptr)
      → Owns m0 bs m
      → Returns (λ found m'. Owns m0 (found_blocks found ++ bs) m') (pair_new malloc pair m)
  unfolding pair_new
  pair_new-Owns none bs o = returns {a = none} o
  pair_new-Owns (some pair) bs o = Returns.bind (alloc-Owns malloc h bs o) λ value m1 (ne, o1).
      Returns.bind (alloc-Owns malloc h (value ∷ bs) o1) λ at m2 (ne', o2).
        returns {a = some (record { at = at; value = value })}
          (Owns-Same (value ∷ at ∷ bs) (λ a. omega arith, omega arith) o2)

  extract_data-Owns :
      {m : Memory} (request key : CString) (bs : List Ptr)
      → Owns m0 bs m
      → Returns
          (λ found m'. Owns m0 (found_blocks found ++ bs) m')
          (extract_data_blocks malloc request key m)
  unfolding extract_data_blocks
  extract_data-Owns request key bs o = Returns.bind (alloc-Owns malloc h bs o) λ p m1 (ne, o1).
      Returns.bind (free_next p bs o1)
        λ _ m2 o2. pair_new-Owns (request_extract_data request key) bs o2

  array-Owns :
      {m : Memory} (b : BodyBlocks) (pair : PairBlocks) (bs : List Ptr)
      → Owns m0 (found_blocks (some pair) ++ (body_blocks b ++ bs)) m
      → Returns
          (λ array m'. Owns m0 (array ∷ rest_blocks b pair bs) m')
          ((if b.array == null then mem_alloc malloc else realloc malloc b.array) m)
  array-Owns b pair bs o = elim (Bool-cases (b.array == null)) [
    | inl e ↦ rw e (
        Returns.mono (alloc-Owns malloc h (found_blocks (some pair) ++ (body_blocks b ++ bs)) o)
          λ array m1 (ne, o1).
            Owns-Same (array ∷ rest_blocks b pair bs) (λ a. ground arith, ground arith) o1)
    | inr e ↦ rw e (
        Returns.mono
          (realloc-Owns malloc h b.array (found_blocks (some pair) ++ (body_blocks b ++ bs))
            (rest_blocks b pair bs) (ground arith) (λ a. omega arith, omega arith) o)
          λ array m1 (ne, o1). o1)
  ]

  body_add-Owns :
      {m : Memory} (b : BodyBlocks) (found : Option PairBlocks) (bs : List Ptr)
      → Owns m0 (found_blocks found ++ (body_blocks b ++ bs)) m
      → Returns
          (λ b' m'. (b'.at ≡ b.at) × Owns m0 (body_blocks b' ++ bs) m')
          (body_add malloc b found m)
  unfolding body_add
  body_add-Owns b none bs o = returns (refl, o)
  body_add-Owns b (some pair) bs o = Returns.bind (array-Owns b pair bs o) λ array m1 o1.
      let same = pairs_blocks-append b.pairs pair bs in
      let b' : BodyBlocks = record { at = b.at; array = array; pairs = b.pairs ++ pair ∷ [] } in
      returns {a = b'} (
        refl,
        Owns-Same (body_blocks b' ++ bs) (λ a. omega (arith, same.0 a), omega (arith, same.1)) o1,
      )

  last_pair-Owns :
      {m : Memory} (method request : CString) (bs : List Ptr)
      → Owns m0 bs m
      → Returns
          (λ found m'. Owns m0 (found_blocks found ++ bs) m')
          (last_pair_blocks malloc method request m)
  unfolding last_pair_blocks
  last_pair-Owns method request bs o = elim (Bool-cases (str_eq method (codes "POST"))) [
    | inl e ↦ rw e (extract_data-Owns request (codes "data") bs o)
    | inr e ↦ elim (Bool-cases (str_eq method (codes "GET"))) [
      | inl e' ↦ rw (e, e') (extract_data-Owns request (codes "index") bs o)
      | inr e' ↦ rw (e, e') (returns {a = none} o)
    ]
  ]

  add_pairs-Owns :
      {m : Memory} (method request : CString) (b : BodyBlocks) (bs : List Ptr)
      → Owns m0 (body_blocks b ++ bs) m
      → Returns (λ b' m'. Owns m0 (body_blocks b' ++ bs) m') (add_pairs malloc method request b m)
  unfolding add_pairs
  add_pairs-Owns method request b bs o =
      Returns.bind (extract_data-Owns request (codes "type") (body_blocks b ++ bs) o) λ kind m1 o1.
        Returns.bind (body_add-Owns b kind bs o1) λ b1 m2 (at1, o2).
          Returns.bind (extract_data-Owns request (codes "queue") (body_blocks b1 ++ bs) o2)
            λ queue m3 o3. Returns.bind (body_add-Owns b1 queue bs o3) λ b2 m4 (at2, o4).
              Returns.bind (last_pair-Owns method request (body_blocks b2 ++ bs) o4)
                λ last m5 o5. Returns.mono (body_add-Owns b2 last bs o5) λ b3 m6 (at3, o6). o6

  grow-Owns :
      {m : Memory} (s : List ℕ) (p : Ptr) (bs : List Ptr)
      → p ≢ null
      → Owns m0 (p ∷ bs) m
      → Returns (λ q m'. Owns m0 (q ∷ bs) m') (grow malloc s p m)
  unfolding grow
  grow-Owns [] p bs ne o = returns o
  grow-Owns (c ∷ s) p bs ne o =
      Returns.bind (realloc-Owns malloc h p (p ∷ bs) bs ne (λ a. refl, refl) o)
        λ q m1 (ne', o1). grow-Owns s q bs ne' o1

  parse_method-Owns :
      {m : Memory} (request : CString) (bytes : Option (List ℕ)) (r : RequestBlocks) (bs : List Ptr)
      → is_method bytes ≡ true
      → r.method ≡ null
      → Owns m0 (request_blocks r ++ bs) m
      → Returns
          (λ req m'. (is_there req ≡ has_method bytes) × Owns m0 (parsed_blocks req ++ bs) m')
          (parse_method malloc request bytes r m)
  unfolding parse_method extract_method_blocks
  parse_method-Owns request none r bs w e o =
      Returns.bind (request_destruct-Owns r bs o) λ _ m1 o1. returns {a = none} (refl, o1)
  parse_method-Owns request (some []) r bs w e o = absurd (cc)
  parse_method-Owns request (some (c ∷ s)) r bs w e o =
      Returns.bind
        (Returns.bind (alloc-Owns malloc h (request_blocks r ++ bs) o)
          λ p m1 (ne, o1). grow-Owns s p (request_blocks r ++ bs) ne o1)
        λ p m2 o2.
          let moved = pairs_blocks-move r.body.pairs p r.at bs in
          Returns.bind
            (add_pairs-Owns (until_nul (c ∷ s)) request r.body (p ∷ r.at ∷ bs) (
              Owns-Same (body_blocks r.body ++ p ∷ r.at ∷ bs)
                (λ a. ground (arith, e, moved.0 a), ground (arith, e, moved.1)) o2))
            λ body m3 o3.
              let r' : RequestBlocks = record { at = r.at; method = p; body = body } in
              let back = pairs_blocks-move body.pairs p r.at bs in
              returns {a = some r'} (
                refl,
                Owns-Same (request_blocks r' ++ bs)
                    (λ a. omega (arith, back.0 a), omega (arith, back.1)) o3,
              )

  request_new-Owns :
      {m : Memory} (bs : List Ptr)
      → Owns m0 bs m
      → Returns
          (λ r m'. (r.method ≡ null) × Owns m0 (request_blocks r ++ bs) m')
          (request_new malloc m)
  unfolding request_new
  request_new-Owns bs o = Returns.bind (alloc-Owns malloc h bs o) λ at m1 (ne, o1).
      Returns.bind (alloc-Owns malloc h (at ∷ bs) o1) λ body m2 (ne', o2).
        returns
          {a = record {
            at = at;
            method = null;
            body = record { at = body; array = null; pairs = [] };
          }}
          (refl, Owns-Same (null ∷ at ∷ null ∷ body ∷ bs) (λ a. omega arith, omega arith) o2)

  pub request_parse-Owns :
      {m : Memory} (request : CString) (bytes : Option (List ℕ)) (bs : List Ptr)
      → is_method bytes ≡ true
      → Owns m0 bs m
      → Returns
          (λ req m'. (is_there req ≡ has_method bytes) × Owns m0 (parsed_blocks req ++ bs) m')
          (request_parse_blocks malloc request bytes m)
  unfolding request_parse_blocks
  request_parse-Owns request bytes bs w o =
      Returns.bind (request_new-Owns bs o)
        λ r m3 (e, o3). parse_method-Owns request bytes r bs w e o3
