-- ===== src/Http/Response/Answers.antt =====
-- `Response_handle` of http/response/response.c.
use bmb.Base.{ℕ, ◌+◌, ◌≤◌, ◌≡◌, Option, none, some, List, arith, length}
use bmb.Base.Text.{CString, codes}
use bmb.Run.{ok, crash}
use bmb.World.{Ptr, World}
use bmb.Pool.{QueuePool}
use bmb.Reply.{Cjson, BrokerResponse}
use bmb.Broker.Dispatch.Checks.{untyped-crash}
use bmb.Http.Request.{Request, request_body_get}
use bmb.Http.Response.{
  Response, status_line, error_response, body_response, json_body, broker_request_of,
  response_get_response, handle_request, response_handle,
}
use bmb.Http.Response.Bounds.{
  IsRoom, copied-fits, response_set_status-line, response_set_error-text, five_headers,
  response_set_headers-five,
}

-- Memory of a size has room for so many bytes, and memory of 16 bytes for 18, as that of glibc has.
abbrev pub IsMalloc : (ℕ → ℕ) → Type 0
IsMalloc room = IsRoom room × (18 ≤ room 16)

-- The response with a code and the printed JSON, if it could be printed.
abbrev pub reply : CString → ℕ → Option CString → Response
reply now code none = record {
  status = status_line 500;
  headers = five_headers now;
  body = codes "Failed to create final JSON response.";
}
reply now code (some text) = record {
  status = status_line code;
  headers = five_headers now;
  body = text;
}

module _ (room : ℕ → ℕ) (lib : Cjson) (now : CString) (m : IsMalloc room) where
  error_response-ok :
      (headers : List CString) (p : QueuePool) (code : ℕ) (message : CString) (w : World)
      → error_response room headers p code message w
        ≡ ok (record { status = status_line code; headers = headers; body = message }, p) w
  unfolding error_response
  error_response-ok headers p code message w =
      rw (response_set_status-line room code w m.0, response_set_error-text room message w m.0)

  body_response-reply :
      (p' : QueuePool) (code : ℕ) (text : Option CString) (w : World)
      → body_response room (five_headers now) p' code text w ≡ ok (reply now code text, p') w
  unfolding body_response
  body_response-reply p' code none w = rw (response_set_status-line room code w m.0) (
      error_response-ok (five_headers now) p' 500 (codes "Failed to create final JSON response.") w)
  body_response-reply p' code (some text) w = rw (
    response_set_status-line room code w m.0,
    copied-fits room (length text + 1) text w m.0 (omega arith),
  )

  -- Where memory is allocated as by glibc, a connection without a request is answered with the code
  -- 400, and nothing changes.
  pub response_handle-empty :
      (rounds : ℕ) (fresh : Ptr) (p : QueuePool) (w : World)
      → response_handle room lib now rounds fresh p none w
        ≡ ok
            (
              record {
                status = status_line 400;
                headers = five_headers now;
                body = codes "Empty request received.";
              },
              p,
            )
            w
  unfolding response_handle handle_request
  response_handle-empty rounds fresh p w =
      rw (response_set_headers-five room now w m.0 m.1)
        (error_response-ok (five_headers now) p 400 (codes "Empty request received.") w)

  -- Where memory is allocated as by glibc, a request that the broker answers is answered with the
  -- broker's code and the printed JSON, or with 500 where it cannot be printed, and the broker's
  -- changes stay.
  pub response_handle-reply :
      (rounds : ℕ) (fresh : Ptr) (p : QueuePool) (req : Request) (res : BrokerResponse)
      (p' : QueuePool) (w w' : World)
      → response_get_response lib rounds fresh p req w ≡ ok (res, p') w'
      → response_handle room lib now rounds fresh p (some req) w
        ≡ ok (reply now res.code (json_body lib res), p') w'
  unfolding response_handle handle_request
  response_handle-reply rounds fresh p req res p' w w' answered =
      rw (response_set_headers-five room now w m.0 m.1, answered)
        (body_response-reply p' res.code (json_body lib res) w')

  -- Where memory is allocated as by glibc, a request that carries no type crashes the broker.
  pub response_handle_untyped :
      (rounds : ℕ) (fresh : Ptr) (p : QueuePool) (req : Request) (w : World)
      → request_body_get req.body (codes "type") ≡ none
      → response_handle room lib now rounds fresh p (some req) w ≡ crash
  unfolding response_handle handle_request response_get_response broker_request_of
  response_handle_untyped rounds fresh p req w untyped = rw (
    response_set_headers-five room now w m.0 m.1,
    untyped-crash lib rounds fresh p (broker_request_of req) w untyped,
  )
