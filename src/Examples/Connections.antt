-- ===== src/Examples/Connections.antt =====
-- The theorems on requests and responses at concrete texts.
use bmb.Base.{ℕ, ◌+◌, ◌≡◌, refl, some, List, [], ◌∷◌, ◌++◌, arith}
use bmb.Base.Text.{CString, codes}
use bmb.Run.{ok, crash}
use bmb.Http.Request.{request_parse, is_space}
use bmb.Http.Request.Query.{Query, query_text, IsQuery}
use bmb.Http.Request.Indexed.{indexed_text, request_parse-indexed}
use bmb.Http.Request.Parse.{HasNoNul, parsed, request_parse-get, request_parse_overread}
use bmb.Http.Response.{Response, lines, response_assemble, response_set_headers}
use bmb.Http.Response.Bounds.{response_assemble-fits, response_set_headers_overrun}
use bmb.Http.Response.Answers.{IsMalloc, reply}
use bmb.Server.{broker_thread}
use bmb.Server.Thread.{http_text, broker_thread_untyped}
use bmb.Examples.{lib, name, world, pool}

-- `GET /?type=consume&queue=mail&index=7 HTTP/1.1`
abbrev pub consume_query : Query
consume_query = record {
  start = codes "GET /";
  sep = b'?';
  kind = codes "consume";
  name = name;
  key = codes "index";
  value = codes "7";
  stop = b' ';
  rest = codes "HTTP/1.1";
}

pub consume_query-IsQuery : IsQuery consume_query
consume_query-IsQuery = record {
  start = (refl, (refl, (refl, (refl, (refl, tt)))));
  sep = refl;
  kind = unfold is_space in ground arith;
  name = unfold is_space in ground arith;
  value = unfold is_space in ground arith;
  stop = unfold is_space in refl;
}

pub consume_query-HasNoNul : HasNoNul (query_text consume_query)
consume_query-HasNoNul = ground arith

-- `POST / HTTP/1.1` with `type=produce&queue=mail&data=new`
abbrev pub produce_query : Query
produce_query = record {
  start = codes "POST / HTTP/1.1";
  sep = 10;
  kind = codes "produce";
  name = name;
  key = codes "data";
  value = codes "new";
  stop = 10;
  rest = [];
}

pub produce_query-IsQuery : IsQuery produce_query
produce_query-IsQuery = record {
  start = ground arith;
  sep = refl;
  kind = unfold is_space in ground arith;
  name = unfold is_space in ground arith;
  value = unfold is_space in ground arith;
  stop = unfold is_space in refl;
}

pub produce_query-HasNoNul : HasNoNul (query_text produce_query)
produce_query-HasNoNul = ground arith

-- Bytes that were in the buffer before.
abbrev pub junk : List ℕ
junk = 7 ∷ 0 ∷ []

-- `GET /?type=consume&index=7&queue=mail HTTP/1.1`
request_parse-indexed_example :
    request_parse (indexed_text consume_query ++ 0 ∷ junk) world
    ≡ ok (some (parsed (codes "GET") consume_query)) world
request_parse-indexed_example =
    request_parse-indexed consume_query (codes "/") junk world consume_query-IsQuery refl refl
      (ground arith) (omega arith)

request_parse-get_example :
    request_parse (query_text consume_query ++ 0 ∷ junk) world
    ≡ ok (some (parsed (codes "GET") consume_query)) world
request_parse-get_example =
    request_parse-get consume_query (codes "/") junk world consume_query-IsQuery refl refl
      consume_query-HasNoNul (omega arith)

request_parse_overread_example : request_parse (codes "hello" ++ 0 ∷ junk) world ≡ crash
request_parse_overread_example =
    request_parse_overread (codes "ello") b'h' junk world (ground arith) (omega arith)
      (ground arith)

-- Memory has a few bytes more than was asked for.
abbrev pub room : ℕ → ℕ
room n = n + 8

pub room-IsMalloc : IsMalloc room
room-IsMalloc = (λ n. omega arith, omega arith)

abbrev pub now : CString
now = codes "Thu Nov 26 07:00:00 2026"

abbrev a_response : Response
a_response = reply now 200 (some (codes "{}"))

response_assemble-fits_example :
    response_assemble room a_response world ≡ ok (http_text a_response) world
response_assemble-fits_example =
    response_assemble-fits room a_response world (λ n. omega arith) (unfold lines in omega arith)

response_set_headers_overrun_example : response_set_headers (λ n. n) now world ≡ crash
response_set_headers_overrun_example =
    response_set_headers_overrun (λ n. n) now world (λ n. omega arith) (omega arith)

broker_thread_untyped_example :
    broker_thread room lib now 2 12 pool (codes "GET / HTTP/1.1" ++ 0 ∷ junk) world ≡ crash
broker_thread_untyped_example =
    broker_thread_untyped room lib now room-IsMalloc (omega arith) b'G' (codes "ET")
      (codes "/ HTTP/1.1") junk 2 12 pool world (ground arith) (ground arith) (ground arith)
      (omega arith)
