-- ===== src/Broker/Dispatch.antt =====
-- `broker_dispatch` of broker/broker.c checks a request and calls the action of its type.
pub mod Checks
pub mod Routes
pub mod Contents
pub mod Holds
pub mod Serving
pub mod Managing
pub mod Reads
pub mod Refines
pub mod Durable
use bmb.Base.{
  ℕ, zero, suc, ◌+◌, ◌⊎◌, inl, inr, Bool, true, false, not, ◌&&◌, ◌||◌, Option, none, some, List,
  [], ◌∷◌, ◌++◌, ltb, leb, ◌==◌, if◌then◌else◌, length,
}
use bmb.Base.Text.{CString, codes, str_eq}
use bmb.Run.{Cmd, pure, crashes, required, ◌>>=◌, ◌>>◌}
use bmb.Util.{in_str_array}
use bmb.Util.Decimal.{ℤ, pos, int_to_string}
use bmb.Util.Url.{Decoded, decoded, refused, url_decode}
use bmb.World.{Ptr, null, World, on_disk}
use bmb.Queue.{
  Queue, node_new, node_get_message, node_set_message, node_destruct, next_id, queue_size,
  queue_get, queue_is_empty, queue_add, queue_poll,
}
use bmb.Reply.{Cjson, create_response}
use bmb.Broker.{
  BrokerRequest, Action, consume, produce, length_action, get, get_all, add_queue,
  get_all_queue_names, remove_queue,
}
use bmb.Pool.{
  QueuePool, queue_pool_add, queue_pool_get_all_names, queue_pool_get_by_name,
  queue_pool_remove_by_name, queue_at,
}

abbrev broker_consume : CString
broker_consume = codes "consume"

abbrev broker_produce : CString
broker_produce = codes "produce"

abbrev broker_length : CString
broker_length = codes "length"

abbrev broker_get : CString
broker_get = codes "get"

abbrev broker_get_all : CString
broker_get_all = codes "getAll"

abbrev broker_add_queue : CString
broker_add_queue = codes "addQueue"

abbrev broker_get_all_queue_names : CString
broker_get_all_queue_names = codes "getAllQueueNames"

abbrev broker_remove_queue : CString
broker_remove_queue = codes "removeQueue"

abbrev pub needs_queue : List CString
needs_queue =
    broker_consume ∷ broker_produce ∷ broker_length ∷ broker_get ∷ broker_get_all
    ∷ broker_remove_queue ∷ []

abbrev needs_index : List CString
needs_index = broker_get ∷ []

abbrev needs_data : List CString
needs_data = broker_produce ∷ broker_length ∷ broker_add_queue ∷ []

-- The later checks of `broker_dispatch` overwrite the message of the earlier ones.
queue_error : Bool → Option CString → Option ℕ → Option CString
queue_error false name found = none
queue_error true none found = some (codes "Request is missing the queue name.")
queue_error true (some []) found = some (codes "Empty queue name given.")
queue_error true (some (c ∷ s)) none = some (codes "Queue not found.")
queue_error true (some (c ∷ s)) (some i) = none

index_error : Bool → ℕ → Option CString → Option CString
index_error needed index error =
    if needed && index == 0 then some (codes "Request is missing an index.") else error

unfoldable pub is_blank : Option CString → Bool
is_blank none = true
is_blank (some []) = true
is_blank (some (c ∷ s)) = false

data_error : Bool → Option CString → Option CString → Option CString
data_error needed payload error =
    if needed && is_blank payload then some (codes "Request is missing the data.") else error

find_queue : QueuePool → CString → BrokerRequest → Option ℕ
find_queue p kind req =
    if in_str_array kind needs_queue 6 then queue_pool_get_by_name p req.queue_name else none

unfoldable pub request_error : QueuePool → CString → BrokerRequest → Option CString
unfolding queue_error index_error is_blank data_error find_queue
request_error p kind req = data_error (in_str_array kind needs_data 3) req.payload (
    index_error (in_str_array kind needs_index 1) req.index
      (queue_error (in_str_array kind needs_queue 6) req.queue_name (find_queue p kind req)))

-- The action uses `req.queue`, which must not be NULL.
on_queue : Option ℕ → (ℕ → Action) → Action
on_queue none action = crashes
on_queue (some i) action = action i

module _ (lib : Cjson) where
  -- A request of no known type leaves the response uninitialized, and its use is undefined.
  pub run_action : ℕ → Ptr → QueuePool → CString → BrokerRequest → Action
  unfolding on_queue find_queue
  run_action rounds fresh p kind req =
      let found = find_queue p kind req in
      if str_eq kind broker_consume
      then on_queue found (consume lib rounds p)
      else if str_eq kind broker_produce
      then on_queue found (λ i. produce lib fresh p i req)
      else if str_eq kind broker_length
      then on_queue found (length_action lib rounds p)
      else if str_eq kind broker_get
      then on_queue found (λ i. get lib rounds p i req)
      else if str_eq kind broker_get_all
      then on_queue found (get_all lib rounds p)
      else if str_eq kind broker_add_queue
      then add_queue lib p req
      else if str_eq kind broker_get_all_queue_names
      then get_all_queue_names lib p
      else if str_eq kind broker_remove_queue
      then on_queue found (remove_queue lib rounds p)
      else crashes

  answer_or_run : ℕ → Ptr → QueuePool → CString → BrokerRequest → Option CString → Action
  answer_or_run rounds fresh p kind req none = run_action rounds fresh p kind req
  answer_or_run rounds fresh p kind req (some error) =
      pure (create_response lib false 200 (some error) none none, p)

  pub broker_dispatch : ℕ → Ptr → QueuePool → BrokerRequest → Action
  unfolding answer_or_run
  broker_dispatch rounds fresh p req = do
    kind ← required req.kind
    answer_or_run rounds fresh p kind req (request_error p kind req)
