-- ===== src/Server/Thread.antt =====
-- `broker_thread` of server/s_thread.c for one connection, from the received bytes to the sent text.
use mathlib.Core.Path.{subst}
use bmb.Base.{
  ℕ, ◌^◌, ◌<◌, ◌≡◌, ◌≢◌, refl, ◌∙◌, ap, true, false, Option, none, some, List, [], ◌∷◌, ◌++◌, arith,
  length, length-append, get_elem?,
}
use bmb.Base.Text.{CString, codes, str_eq}
use bmb.Run.{Run, ok, crash}
use bmb.Run.Returns
use bmb.Run.Returns.{Returns, returns}
use bmb.Disk.{Files}
use bmb.Disk.Table.{Assoc}
use bmb.Util.Url.{decoded, url_decode}
use bmb.World.{Ptr, null, World}
use bmb.World.Chain.{Cell, Cells, has}
use bmb.Queue.{Queue}
use bmb.Queue.Kept.{IsKept, new_id}
use bmb.Pool.{QueuePool, queue_pool_get_by_name}
use bmb.Reply.{Cjson, BrokerResponse, create_response}
use bmb.Broker.{BrokerRequest, c_string, consume, produce}
use bmb.Http.Request.Words.{HasNoEquals}
use bmb.Broker.Produce.{Acted, produce-IsKept}
use bmb.Broker.Consume.{consume-IsKept}
use bmb.Broker.Dispatch.Routes.{broker_dispatch-consume, broker_dispatch-produce}
use bmb.Http.Request.{Request, request_body_get, request_parse}
use bmb.Http.Request.Query.{Query, query_text, IsQuery, IsField}
use bmb.Http.Request.Parse.{
  HasNoNul, HasNoSpace, parsed, request_parse-get, request_parse-post, request_parse-empty,
}
use bmb.Http.Response.{
  Response, lines, json_body, broker_request_of, request_index, response_get_response,
}
use bmb.Http.Response.Bounds.{five_headers, response_assemble-fits}
use bmb.Http.Response.Answers.{IsMalloc, reply, response_handle-reply, response_handle_untyped}
use bmb.Server.{broker_thread}

-- The text of a response.
abbrev pub http_text : Response → CString
http_text r = r.status ++ b'\n' ∷ (lines r.headers ++ r.body)

-- The headers are shorter than 2^16 bytes when the date is short.
reply_headers :
    (now : CString) (code : ℕ) (text : Option CString)
    → (reply now code text).headers ≡ five_headers now
reply_headers now code none = refl
reply_headers now code (some text) = refl

short_headers : (now : CString) → length now < 2 ^ 15 → length (lines (five_headers now)) < 2 ^ 16
unfolding lines
short_headers now h = omega (arith, length-append now (b'\n' ∷ []))

module _ (room : ℕ → ℕ) (lib : Cjson) (now : CString) (m : IsMalloc room)
    (short : length now < 2 ^ 15) where
  -- A request that the broker answers is sent the response with the broker's code and JSON.
  pub broker_thread-reply :
      (rounds : ℕ) (fresh : Ptr) (p : QueuePool) (buffer : List ℕ) (req : Request) (w : World)
      {P : BrokerResponse × QueuePool → World → Type 0} {r : Run World (BrokerResponse × QueuePool)}
      → request_parse buffer w ≡ ok (some req) w
      → response_get_response lib rounds fresh p req w ≡ r
      → Returns P r
      → Returns
          (λ (text, p') w'.
            (res : BrokerResponse) × (text ≡ http_text (reply now res.code (json_body lib res)))
            × P (res, p') w')
          (broker_thread room lib now rounds fresh p buffer w)
  unfolding broker_thread
  broker_thread-reply rounds fresh p buffer req w got routed answered =
      let ((res, p'), w', e, post) = Returns.returned answered in
      let r = reply now res.code (json_body lib res) in
      let fits : length (lines r.headers) < 2 ^ 16 =
        rw (reply_headers now res.code (json_body lib res)) (short_headers now short) in
      rw
        (
          got,
          response_handle-reply room lib now m rounds fresh p req res p' w w' (routed ∙ e),
          response_assemble-fits room r w' m.0 fits,
        )
        (returns (res, refl, post))

field_head : (v : CString) → IsField v → (c : ℕ) × (s : CString) × (v ≡ c ∷ s)
field_head [] h = absurd h
field_head (c ∷ s) h = (c, s, refl)

-- What the request of the broker holds.
abbrev pub asked_get : Query → BrokerRequest
asked_get q = record {
  kind = some q.kind;
  queue_name = some q.name;
  index = request_index (some q.value);
  payload = none;
}

abbrev pub asked_post : Query → BrokerRequest
asked_post q = record {
  kind = some q.kind;
  queue_name = some q.name;
  index = 0;
  payload = some q.value;
}

pub broker_request_get :
    (q : Query) → q.key ≡ codes "index" → broker_request_of (parsed (codes "GET") q) ≡ asked_get q
unfolding broker_request_of request_body_get str_eq
broker_request_get q key = rw key

pub broker_request_post :
    (q : Query) → q.key ≡ codes "data" → broker_request_of (parsed (codes "POST") q) ≡ asked_post q
unfolding broker_request_of request_body_get str_eq request_index
broker_request_post q key = rw key

module _ (room : ℕ → ℕ) (lib : Cjson) (now : CString) (m : IsMalloc room)
    (short : length now < 2 ^ 15) where
  -- Where memory is allocated as by glibc: a connection that sends a GET request of type `consume`
  -- for a queue of the pool that agrees with its directory, and whose oldest message can be decoded,
  -- is sent the text of the response that carries the decoded message; the message is gone from
  -- memory and disk, and all else is as `consume` leaves it.
  pub broker_thread-consume :
      {dirs : Assoc Files} {w : World} {qu : Queue} (q : Query) (after : CString) (junk : List ℕ)
      (xs : Cells) (c : Cell) (rounds : ℕ) (fresh : Ptr) (p : QueuePool) (i : ℕ) (bytes : List ℕ)
      → IsQuery q
      → q.key ≡ codes "index"
      → q.kind ≡ codes "consume"
      → q.start ≡ codes "GET " ++ after
      → HasNoNul (query_text q)
      → length (query_text q) < 2 ^ 16
      → queue_pool_get_by_name p (some q.name) ≡ some i
      → IsKept dirs w qu (xs ++ c ∷ [])
      → get_elem? p.pool i ≡ some qu
      → length xs < rounds
      → url_decode c.message ≡ decoded bytes
      → (dirs' : Assoc Files) × Returns
          (λ (text, p') w'.
            (res : BrokerResponse) × (text ≡ http_text (reply now res.code (json_body lib res)))
            × (Acted lib
                  (create_response lib true 200 none (some (c_string bytes)) none)
                  xs
                  (xs ++ c ∷ [])
                  p
                  i
                  qu
                  dirs
                  w
                  dirs'
                  (res, p')
                  w'
                × (w'.heap c.at ≡ none)))
          (broker_thread room lib now rounds fresh p (query_text q ++ 0 ∷ junk) w)
  broker_thread-consume {dirs} {w} {qu} q after junk xs c rounds fresh p i bytes h key kind start
        text fits found k at enough plain =
      let (dirs', taken) = consume-IsKept lib xs c rounds p i bytes k at enough plain in
      let (b, s, named) = field_head q.name h.name in
      let routed : response_get_response lib rounds fresh p (parsed (codes "GET") q) w
          ≡ consume lib rounds p i w =
        unfold response_get_response in
        rw (broker_request_get q key) (
          broker_dispatch-consume lib rounds fresh p (asked_get q) w i b s (ap some named)
            (subst (λ n. queue_pool_get_by_name p (some n) ≡ some i) named found) (ap some kind)) in
      (
        dirs',
        broker_thread-reply room lib now m short rounds fresh p (query_text q ++ 0 ∷ junk)
            (parsed (codes "GET") q) w (request_parse-get q after junk w h key start text fits)
            routed taken,
      )

  -- Where memory is allocated as by glibc: a connection that sends a POST request of type `produce`
  -- for a queue of the pool that agrees with its directory, given memory for a node at an address
  -- that the queue does not use, and with a next id that fits an `int`, is sent the text of the
  -- response that the message was produced; the message is the newest of the queue in memory and on
  -- the disk, and all else is as `produce` leaves it.
  pub broker_thread-produce :
      {dirs : Assoc Files} {w : World} {qu : Queue} {xs : Cells} (q : Query) (after : CString)
      (junk : List ℕ) (rounds : ℕ) (fresh : Ptr) (p : QueuePool) (i : ℕ)
      → IsQuery q
      → q.key ≡ codes "data"
      → q.kind ≡ codes "produce"
      → q.start ≡ codes "POST " ++ after
      → HasNoNul (query_text q)
      → length (query_text q) < 2 ^ 16
      → queue_pool_get_by_name p (some q.name) ≡ some i
      → IsKept dirs w qu xs
      → get_elem? p.pool i ≡ some qu
      → fresh ≢ null
      → has fresh xs ≡ false
      → new_id xs < 2 ^ 31
      → let c : Cell = record { at = fresh; id = new_id xs; message = q.value } in
        (dirs' : Assoc Files) × Returns
          (λ (text, p') w'.
            (res : BrokerResponse) × (text ≡ http_text (reply now res.code (json_body lib res)))
            × Acted lib
                (create_response lib true 200 (some (codes "Message produced.")) none none)
                (c ∷ xs)
                (c ∷ [])
                p
                i
                qu
                dirs
                w
                dirs'
                (res, p')
                w')
          (broker_thread room lib now rounds fresh p (query_text q ++ 0 ∷ junk) w)
  broker_thread-produce {dirs} {w} {qu} {xs} q after junk rounds fresh p i h key kind start text
        fits found k at ne out room_left =
      let (dirs', made) =
        produce-IsKept lib fresh p i (asked_post q) q.value k at refl ne out room_left in
      let (b, s, named) = field_head q.name h.name in
      let (d, t, valued) = field_head q.value h.value in
      let routed : response_get_response lib rounds fresh p (parsed (codes "POST") q) w
          ≡ produce lib fresh p i (asked_post q) w =
        unfold response_get_response in
        rw (broker_request_post q key) (
          broker_dispatch-produce lib rounds fresh p (asked_post q) w i b s (ap some named)
            (subst (λ n. queue_pool_get_by_name p (some n) ≡ some i) named found) d t (ap some kind)
            (ap some valued)) in
      (
        dirs',
        broker_thread-reply room lib now m short rounds fresh p (query_text q ++ 0 ∷ junk)
            (parsed (codes "POST") q) w (request_parse-post q after junk w h key start text fits)
            routed made,
      )

  -- Where memory is allocated as by glibc, a connection that sends a text without `=`, such as a
  -- browser's request for a page, crashes the server.
  pub broker_thread_untyped :
      (c : ℕ) (method after : CString) (junk : List ℕ) (rounds : ℕ) (fresh : Ptr) (p : QueuePool)
      (w : World)
      → HasNoSpace (c ∷ method)
      → HasNoEquals ((c ∷ method) ++ b' ' ∷ after)
      → HasNoNul ((c ∷ method) ++ b' ' ∷ after)
      → length ((c ∷ method) ++ b' ' ∷ after) < 2 ^ 16
      → broker_thread room lib now rounds fresh p (((c ∷ method) ++ b' ' ∷ after) ++ 0 ∷ junk) w
        ≡ crash
  unfolding broker_thread
  broker_thread_untyped c method after junk rounds fresh p w word plain text fits = rw (
    request_parse-empty c method after junk w word plain text fits,
    response_handle_untyped room lib now m rounds fresh p
        (record { method = c ∷ method; body = record { pairs = [] } }) w
        (unfold request_body_get in refl),
  )
