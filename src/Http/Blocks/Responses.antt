-- ===== src/Http/Blocks/Responses.antt =====
-- The blocks of a response of http/response/response.c.
use bmb.Base.{◌≡◌, ◌≢◌, refl, ap, List, [], ◌∷◌, ◌++◌, arith}
use bmb.Run.Returns
use bmb.Run.Returns.{Returns, returns}
use bmb.World.{Ptr, null}
use bmb.Util.Mem.{
  Memory, mem_alloc, IsMalloc, Owns, Same, Owns-Same, count, count-append, size, size-append,
  free-Owns, alloc-Owns,
}
use bmb.Http.Blocks.{
  ResponseBlocks, texts_destruct, response_destruct, response_new, set_headers_blocks,
  set_status_blocks,
}
use bmb.Http.Blocks.Freed.{free_next}

abbrev pub response_blocks : ResponseBlocks → List Ptr
response_blocks r = r.status ∷ r.headers ∷ r.body ∷ r.res_string ∷ r.at ∷ r.texts

texts_destruct-Owns :
    {m0 m : Memory} (texts : List Ptr) (bs : List Ptr)
    → Owns m0 (texts ++ bs) m
    → Returns (λ _ m'. Owns m0 bs m') (texts_destruct texts m)
unfolding texts_destruct
texts_destruct-Owns [] bs o = returns o
texts_destruct-Owns (t ∷ texts) bs o =
    Returns.bind (free_next t (texts ++ bs) o) λ _ m1 o1. texts_destruct-Owns texts bs o1

pub response_destruct-Owns :
    {m0 m : Memory} (r : ResponseBlocks) (bs : List Ptr)
    → Owns m0 (response_blocks r ++ bs) m
    → Returns (λ _ m'. Owns m0 bs m') (response_destruct r m)
unfolding response_destruct
response_destruct-Owns r bs o =
    let rest = r.headers ∷ r.body ∷ r.res_string ∷ r.at ∷ bs in
    let moved =
      Owns-Same (r.status ∷ r.texts ++ rest)
        (
          λ a. omega (arith, count-append a r.texts bs, count-append a r.texts rest),
          omega (arith, size-append r.texts bs, size-append r.texts rest),
        )
        o in
    Returns.bind (free_next r.status (r.texts ++ rest) moved) λ _ m1 o1.
      Returns.bind (texts_destruct-Owns r.texts rest o1) λ _ m2 o2.
        Returns.bind (free_next r.headers (r.body ∷ r.res_string ∷ r.at ∷ bs) o2) λ _ m3 o3.
          Returns.bind (free_next r.body (r.res_string ∷ r.at ∷ bs) o3) λ _ m4 o4.
            Returns.bind (free_next r.res_string (r.at ∷ bs) o4) λ _ m5 o5. free_next r.at bs o5

-- A block that a response has lost stands behind its own.
lost_behind :
    (r : ResponseBlocks) (p : Ptr) (bs : List Ptr)
    → Same (p ∷ response_blocks r ++ bs) (response_blocks r ++ p ∷ bs)
lost_behind r p bs = (
  λ a. omega (arith, count-append a r.texts bs, count-append a r.texts (p ∷ bs)),
  omega (arith, size-append r.texts bs, size-append r.texts (p ∷ bs)),
)

-- NULL is no block.
pub null_behind :
    (r : ResponseBlocks) (p q : Ptr) (bs : List Ptr)
    → q ≡ null
    → Same (response_blocks r ++ p ∷ q ∷ bs) (response_blocks r ++ p ∷ bs)
null_behind r p q bs e = (
  λ a. ground (arith, e, count-append a r.texts (p ∷ q ∷ bs), count-append a r.texts (p ∷ bs)),
  ground (arith, e, size-append r.texts (p ∷ q ∷ bs), size-append r.texts (p ∷ bs)),
)

-- A response with headers, without a body.
pub record HasHeaders (m0 : Memory) (bs : List Ptr) (r : ResponseBlocks) (m : Memory) : Type 0 where
  pub body : r.body ≡ null
  pub res_string : r.res_string ≡ null
  pub owns : Owns m0 (response_blocks r ++ bs) m

module _ (malloc : List Ptr → Ptr) (h : IsMalloc malloc) {m0 : Memory} where
  pub response_new-Owns :
      {m : Memory} (bs : List Ptr)
      → Owns m0 bs m
      → Returns
          (λ r m'. (r.status ≡ null) × (r.headers ≡ null) × (r.texts ≡ []) × HasHeaders m0 bs r m')
          (response_new malloc m)
  unfolding response_new
  response_new-Owns bs o = Returns.bind (alloc-Owns malloc h bs o) λ at m1 (ne, o1).
      returns
        {a = record {
          at = at;
          status = null;
          headers = null;
          texts = [];
          body = null;
          res_string = null;
        }}
        (
          refl,
          refl,
          refl,
          record {
            body = refl;
            res_string = refl;
            owns =
                Owns-Same (null ∷ null ∷ null ∷ null ∷ at ∷ bs) (λ a. omega arith, omega arith) o1;
          },
        )

  pub set_headers-Owns :
      {m : Memory} (r : ResponseBlocks) (bs : List Ptr)
      → r.headers ≡ null
      → r.texts ≡ []
      → HasHeaders m0 bs r m
      → Returns
          (λ r' m'. (r'.status ≡ r.status) × HasHeaders m0 bs r' m')
          (set_headers_blocks malloc r m)
  unfolding set_headers_blocks
  set_headers-Owns r bs none_yet no_texts b =
      let own = response_blocks r ++ bs in
      Returns.bind (alloc-Owns malloc h own b.owns) λ headers m1 (ne1, o1).
        Returns.bind (alloc-Owns malloc h (headers ∷ own) o1) λ allow m2 (ne2, o2).
          Returns.bind (alloc-Owns malloc h (allow ∷ headers ∷ own) o2) λ close m3 (ne3, o3).
            Returns.bind (alloc-Owns malloc h (close ∷ allow ∷ headers ∷ own) o3)
              λ content m4 (ne4, o4).
                Returns.bind (alloc-Owns malloc h (content ∷ close ∷ allow ∷ headers ∷ own) o4)
                  λ host m5 (ne5, o5).
                    Returns.bind
                      (alloc-Owns malloc h (host ∷ content ∷ close ∷ allow ∷ headers ∷ own) o5)
                      λ date m6 (ne6, o6).
                        Returns.bind
                          (alloc-Owns malloc h
                            (date ∷ host ∷ content ∷ close ∷ allow ∷ headers ∷ own) o6)
                          λ dated m7 (ne7, o7).
                            Returns.bind
                              (free-Owns date
                                (dated ∷ date ∷ host ∷ content ∷ close ∷ allow ∷ headers ∷ own)
                                (dated ∷ host ∷ content ∷ close ∷ allow ∷ headers ∷ own)
                                (λ a. omega arith, omega arith) o7)
                              λ _ m8 o8.
                                let r' : ResponseBlocks = record r {
                                  headers = headers;
                                  texts = allow ∷ close ∷ content ∷ host ∷ dated ∷ [];
                                } in
                                returns {a = r'} (
                                  refl,
                                  record {
                                    body = b.body;
                                    res_string = b.res_string;
                                    owns =
                                        Owns-Same (response_blocks r' ++ bs)
                                          (
                                            λ a. ground (
                                              arith,
                                              none_yet,
                                              ap (λ l. count a (l ++ bs)) no_texts,
                                            ),
                                            ground (
                                              arith,
                                              none_yet,
                                              ap (λ l. size (l ++ bs)) no_texts,
                                            ),
                                          )
                                          o8;
                                  },
                                )

  pub set_status-Owns :
      {m : Memory} (r : ResponseBlocks) (bs : List Ptr)
      → HasHeaders m0 bs r m
      → Returns
          (λ r' m'. (r'.status ≢ null) × HasHeaders m0 (r.status ∷ bs) r' m')
          (set_status_blocks malloc r m)
  unfolding set_status_blocks
  set_status-Owns r bs b =
      Returns.bind (alloc-Owns malloc h (response_blocks r ++ bs) b.owns) λ status m1 (ne, o1).
        let r' : ResponseBlocks = record r { status = status } in
        let behind = lost_behind r' r.status bs in
        returns {a = r'} (
          ne,
          record {
            body = b.body;
            res_string = b.res_string;
            owns =
                Owns-Same (response_blocks r' ++ r.status ∷ bs)
                  (λ a. omega (arith, behind.0 a), omega (arith, behind.1)) o1;
          },
        )

  -- A body is allocated where there is none.
  pub body-Owns :
      {m : Memory} (r : ResponseBlocks) (bs : List Ptr)
      → HasHeaders m0 bs r m
      → Returns
          (λ body m'. Owns m0 (response_blocks (record r { body = body }) ++ bs) m')
          (mem_alloc malloc m)
  body-Owns r bs b =
      Returns.mono (alloc-Owns malloc h (response_blocks r ++ bs) b.owns) λ body m1 (ne, o1).
        Owns-Same (response_blocks (record r { body = body }) ++ bs)
          (λ a. ground (arith, b.body), ground (arith, b.body)) o1
