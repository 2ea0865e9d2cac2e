-- ===== src/Http/Blocks.antt =====
-- The memory of a connection: http/request/request.c, request_body.c, request_pair.c and
-- http/response/response.c with the blocks that they allocate and free, and the end of
-- server/s_thread.c. What the texts say is in Http/Request and Http/Response.

pub mod Freed
pub mod Requests
pub mod Responses
pub mod Handled
pub mod Balance
use bmb.Base.{ℕ, Bool, true, false, Option, none, some, List, [], ◌∷◌, ◌++◌, ◌==◌, if◌then◌else◌}
use bmb.Base.Text.{CString, codes, str_eq}
use bmb.Run.{Cmd, pure, crashes, ◌>>=◌, ◌>>◌}
use bmb.World.{Ptr, null}
use bmb.Util.Mem.{Memory, mem_alloc, realloc, mem_free}
use bmb.Http.Request.{RequestPair, request_extract_data, until_nul}

-- `struct request_pair`; the key is a literal.
pub record PairBlocks : Type 0 where
  pub at : Ptr
  pub value : Ptr

-- `struct request_body`; `array` is `pairs`.
pub record BodyBlocks : Type 0 where
  pub at : Ptr
  pub array : Ptr
  pub pairs : List PairBlocks

-- `struct request`
pub record RequestBlocks : Type 0 where
  pub at : Ptr
  pub method : Ptr
  pub body : BodyBlocks

-- `struct response`, without what belongs to cJSON.
pub record ResponseBlocks : Type 0 where
  pub at : Ptr
  pub status : Ptr
  pub headers : Ptr
  pub texts : List Ptr
  pub body : Ptr
  pub res_string : Ptr

pub pair_destruct : PairBlocks → Cmd Memory (Unit {0})
pair_destruct p = do mem_free p.value; mem_free p.at

pub pairs_destruct : List PairBlocks → Cmd Memory (Unit {0})
unfolding pair_destruct
pairs_destruct [] = pure tt
pairs_destruct (p ∷ pairs) = do pair_destruct p; pairs_destruct pairs

pub request_body_destruct : BodyBlocks → Cmd Memory (Unit {0})
request_body_destruct b = do pairs_destruct b.pairs; mem_free b.array; mem_free b.at

pub request_destruct : RequestBlocks → Cmd Memory (Unit {0})
request_destruct r = do request_body_destruct r.body; mem_free r.method; mem_free r.at

-- The headers' texts.
pub texts_destruct : List Ptr → Cmd Memory (Unit {0})
texts_destruct [] = pure tt
texts_destruct (t ∷ texts) = do mem_free t; texts_destruct texts

pub response_destruct : ResponseBlocks → Cmd Memory (Unit {0})
response_destruct r = do
  mem_free r.status
  texts_destruct r.texts
  mem_free r.headers
  mem_free r.body
  mem_free r.res_string
  mem_free r.at

abbrev pub is_there : Option RequestBlocks → Bool
is_there none = false
is_there (some r) = true

destruct_there : Option RequestBlocks → Cmd Memory (Unit {0})
destruct_there none = pure tt
destruct_there (some r) = request_destruct r

module _ (malloc : List Ptr → Ptr) where
  -- The array grows by one for each pair.
  pub body_add : BodyBlocks → Option PairBlocks → Cmd Memory BodyBlocks
  body_add b none = pure b
  body_add b (some pair) = do
    array ← if b.array == null then mem_alloc malloc else realloc malloc b.array
    pure (record b { array = array; pairs = b.pairs ++ pair ∷ [] })

  pair_new : Option RequestPair → Cmd Memory (Option PairBlocks)
  pair_new none = pure none
  pair_new (some pair) = do
    value ← mem_alloc malloc
    at ← mem_alloc malloc
    pure (some (record { at = at; value = value }))

  -- The text of the regular expression is freed before it is used.
  pub extract_data_blocks : CString → CString → Cmd Memory (Option PairBlocks)
  unfolding pair_new
  extract_data_blocks request key = do
    pattern ← mem_alloc malloc
    mem_free pattern
    pair_new (request_extract_data request key)

  -- The block grows by one for each byte after the first one.
  pub grow : List ℕ → Ptr → Cmd Memory Ptr
  grow [] p = pure p
  grow (c ∷ s) p = do q ← realloc malloc p; grow s q

  pub extract_method_blocks : List ℕ → Cmd Memory Ptr
  unfolding grow
  extract_method_blocks [] = crashes
  extract_method_blocks (c ∷ s) = do p ← mem_alloc malloc; grow s p

  -- The data of the method, if it has one.
  last_pair_blocks : CString → CString → Cmd Memory (Option PairBlocks)
  last_pair_blocks method request =
      if str_eq method (codes "POST")
      then extract_data_blocks request (codes "data")
      else if str_eq method (codes "GET")
      then extract_data_blocks request (codes "index")
      else pure none

  pub add_pairs : CString → CString → BodyBlocks → Cmd Memory BodyBlocks
  unfolding last_pair_blocks
  add_pairs method request b = do
    kind ← extract_data_blocks request (codes "type")
    b1 ← body_add b kind
    queue ← extract_data_blocks request (codes "queue")
    b2 ← body_add b1 queue
    last ← last_pair_blocks method request
    body_add b2 last

  request_new : Cmd Memory RequestBlocks
  request_new = do
    at ← mem_alloc malloc
    body ← mem_alloc malloc
    pure (record { at = at; method = null; body = record { at = body; array = null; pairs = [] } })

  parse_method : CString → Option (List ℕ) → RequestBlocks → Cmd Memory (Option RequestBlocks)
  parse_method request none r = do request_destruct r; pure none
  parse_method request (some bytes) r = do
    p ← extract_method_blocks bytes
    body ← add_pairs (until_nul bytes) request r.body
    pure (some (record r { method = p; body = body }))

  -- For the text of a request, and its bytes in front of the first space.
  pub request_parse_blocks : CString → Option (List ℕ) → Cmd Memory (Option RequestBlocks)
  unfolding request_new parse_method
  request_parse_blocks request bytes = do r ← request_new; parse_method request bytes r

  -- `response_construct` sets every text to NULL.
  pub response_new : Cmd Memory ResponseBlocks
  response_new = do
    at ← mem_alloc malloc
    pure (record {
      at = at;
      status = null;
      headers = null;
      texts = [];
      body = null;
      res_string = null;
    })

  -- The text of the date is copied and freed.
  pub set_headers_blocks : ResponseBlocks → Cmd Memory ResponseBlocks
  set_headers_blocks r = do
    headers ← mem_alloc malloc
    allow ← mem_alloc malloc
    close ← mem_alloc malloc
    content ← mem_alloc malloc
    host ← mem_alloc malloc
    date ← mem_alloc malloc
    dated ← mem_alloc malloc
    mem_free date
    pure (record r { headers = headers; texts = allow ∷ close ∷ content ∷ host ∷ dated ∷ [] })

  -- What `status` pointed to before is forgotten.
  pub set_status_blocks : ResponseBlocks → Cmd Memory ResponseBlocks
  set_status_blocks r = do status ← mem_alloc malloc; pure (record r { status = status })

  pub set_error_blocks : ResponseBlocks → Cmd Memory ResponseBlocks
  set_error_blocks r = do mem_free r.body; body ← mem_alloc malloc; pure (record r { body = body })

  -- What the broker allocates and frees for the request, whether there is a request, and whether
  -- cJSON gives the text of the answer.
  pub handle_blocks :
      Cmd Memory (Unit {0}) → Bool → Bool → ResponseBlocks → Cmd Memory ResponseBlocks
  handle_blocks broker false printed r = do
    r1 ← set_headers_blocks r
    r2 ← set_status_blocks r1
    set_error_blocks r2
  handle_blocks broker true false r = do
    r1 ← set_headers_blocks r
    broker
    r2 ← set_status_blocks r1
    r3 ← set_status_blocks r2
    set_error_blocks r3
  handle_blocks broker true true r = do
    r1 ← set_headers_blocks r
    broker
    r2 ← set_status_blocks r1
    body ← mem_alloc malloc
    pure (record r2 { body = body })

  pub assemble_blocks : ResponseBlocks → Cmd Memory ResponseBlocks
  assemble_blocks r = do res_string ← mem_alloc malloc; pure (record r { res_string = res_string })

  -- A thread, with the blocks of its arguments and of its connection.
  pub broker_thread_blocks :
      CString → Option (List ℕ) → Cmd Memory (Unit {0}) → Bool → Ptr → Ptr → Cmd Memory (Unit {0})
  unfolding destruct_there
  broker_thread_blocks request bytes broker printed args conn = do
    req ← request_parse_blocks request bytes
    r ← response_new
    r1 ← handle_blocks broker (is_there req) printed r
    r2 ← assemble_blocks r1
    destruct_there req
    response_destruct r2
    mem_free conn
    mem_free args
