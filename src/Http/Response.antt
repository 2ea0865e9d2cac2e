-- ===== src/Http/Response.antt =====
-- http/response/response.c: the request to the broker, and the text of the HTTP response. How many
-- bytes can be written to memory of a size (`room`) is a parameter, as is the text of `asctime`.
pub mod Bounds
pub mod Answers
use bmb.Base.{
  ℕ, ◌+◌, ◌%◌, ◌^◌, Option, none, some, List, [], ◌∷◌, ◌++◌, leb, ◌==◌, if◌then◌else◌, length,
}
use bmb.Base.Text.{CString, codes}
use bmb.Run.{Cmd, pure, crashes, required, ◌>>=◌, ◌>>◌}
use bmb.Util.Decimal.{atoi, to_unsigned}
use bmb.World.{Ptr, World}
use bmb.Pool.{QueuePool}
use bmb.Reply.{Json, no_fields, object, Cjson, BrokerResponse, create, add_item_to_object}
use bmb.Broker.{BrokerRequest}
use bmb.Broker.Dispatch.{broker_dispatch}
use bmb.Http.Request.{Request, request_body_get}

abbrev pub protocol : CString
protocol = codes "HTTP/1.1"

abbrev pub header_allow_origin : CString
header_allow_origin = codes "Access-Control-Allow-Origin: *"

abbrev pub header_connection_close : CString
header_connection_close = codes "Connection: close"

abbrev pub header_content_type : CString
header_content_type = codes "Content-type: text/plain; charset=UTF-8"

abbrev pub header_host : CString
header_host = codes "Host: localhost:8080"

-- `Response` after it was handled.
pub record Response : Type 0 where
  pub status : CString
  pub headers : List CString
  pub body : CString

unfoldable pub status_text : ℕ → CString
status_text code =
    if code == 200
    then codes "200 OK"
    else if code == 204
    then codes "204 No Content"
    else if code == 400
    then codes "400 Bad request"
    else if code == 500
    then codes "500 Internal Server Error"
    else codes "200 OK"

-- The index is an `unsigned short int`.
unfoldable pub request_index : Option CString → ℕ
request_index none = 0
request_index (some s) = to_unsigned (atoi s) % 2 ^ 16

unfoldable pub broker_request_of : Request → BrokerRequest
unfolding request_index
broker_request_of req = record {
  kind = request_body_get req.body (codes "type");
  queue_name = request_body_get req.body (codes "queue");
  index = request_index (request_body_get req.body (codes "index"));
  payload = request_body_get req.body (codes "data");
}

-- Nothing is added where the item is NULL.
add_item : Option Json → CString → Option Json → Option Json
add_item json key none = json
add_item json key (some j) = add_item_to_object json key j

unfoldable pub status_line : ℕ → CString
unfolding status_text
status_line code = protocol ++ codes " " ++ status_text code

-- The texts, each with a line end.
unfoldable pub lines : List CString → CString
lines [] = []
lines (h ∷ hs) = h ++ b'\n' ∷ lines hs

-- `headers_length` is an `unsigned short int`.
unfoldable pub headers_length : List CString → ℕ
headers_length [] = 0
headers_length (h ∷ hs) = (length h + 1 + headers_length hs) % 2 ^ 16

module _ (lib : Cjson) where
  print_json : Option Json → Option CString
  print_json none = none
  print_json (some j) = lib.print j

  unfoldable pub json_body : BrokerResponse → Option CString
  unfolding print_json add_item
  json_body res = print_json (
      add_item (add_item (create lib (object no_fields)) (codes "success") res.success)
        (codes "payload") res.payload)

  unfoldable pub response_get_response :
      ℕ → Ptr → QueuePool → Request → Cmd World (BrokerResponse × QueuePool)
  unfolding broker_request_of
  response_get_response rounds fresh p req =
      broker_dispatch lib rounds fresh p (broker_request_of req)

module _ (room : ℕ → ℕ) where
  -- A text is copied to newly allocated memory of a size.
  unfoldable pub copied : ℕ → CString → Cmd World CString
  copied size s = if leb (length s + 1) (room size) then pure s else crashes

  pub response_set_status : ℕ → Cmd World CString
  unfolding status_line
  response_set_status code =
      copied (length protocol + length (status_text code) + 2) (status_line code)

  -- The memory for the second header has the size `strlen(HEADER_CONNECTION_CLOSE + 1)`.
  pub response_set_headers : CString → Cmd World (List CString)
  response_set_headers now = do
    allow ← copied (length header_allow_origin + 1) header_allow_origin
    close ← copied (length (codes "onnection: close")) header_connection_close
    content ← copied (length header_content_type + 1) header_content_type
    host ← copied (length header_host + 1) header_host
    date ← copied (length (codes "Date: ") + length now + 1) (codes "Date: " ++ now)
    dated ← copied (length date + 1) date
    pure (allow ∷ close ∷ content ∷ host ∷ dated ∷ [])

  pub response_set_error : CString → Cmd World CString
  response_set_error message = copied (length message + 1) message

  pub response_assemble : Response → Cmd World CString
  unfolding lines headers_length
  response_assemble r =
      copied (length r.status + 1 + headers_length r.headers + length r.body + 1)
        (r.status ++ b'\n' ∷ (lines r.headers ++ r.body))

  -- An error response with its status and message.
  error_response : List CString → QueuePool → ℕ → CString → Cmd World (Response × QueuePool)
  error_response headers p code message = do
    status ← response_set_status code
    body ← response_set_error message
    pure (record { status = status; headers = headers; body = body }, p)

  -- With no text of the JSON the status is set a second time.
  body_response : List CString → QueuePool → ℕ → Option CString → Cmd World (Response × QueuePool)
  body_response headers p code none = do
    response_set_status code
    error_response headers p 500 (codes "Failed to create final JSON response.")
  body_response headers p code (some text) = do
    status ← response_set_status code
    body ← copied (length text + 1) text
    pure (record { status = status; headers = headers; body = body }, p)

  module _ (lib : Cjson) where
    handle_request :
        List CString → ℕ → Ptr → QueuePool → Option Request → Cmd World (Response × QueuePool)
    unfolding error_response body_response json_body
    handle_request headers rounds fresh p none =
        error_response headers p 400 (codes "Empty request received.")
    handle_request headers rounds fresh p (some req) = do
      (res, p') ← response_get_response lib rounds fresh p req
      body_response headers p' res.code (json_body lib res)

    pub response_handle :
        CString → ℕ → Ptr → QueuePool → Option Request → Cmd World (Response × QueuePool)
    unfolding handle_request
    response_handle now rounds fresh p req = do
      headers ← response_set_headers now
      handle_request headers rounds fresh p req
