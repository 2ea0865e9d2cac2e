-- ===== src/Broker.antt =====
-- The actions of broker/broker.c on the queue pool, with what cJSON does as a parameter. An action
-- gets the index of `req.queue` in the pool, and returns the response and the pool.
pub mod Init
pub mod Dispatch
pub mod Produce
pub mod Unsaved
pub mod Consume
pub mod Create
pub mod Remove
pub mod Listing
pub mod Reading
pub mod Fits
pub mod History
use bmb.Base.{
  ℕ, zero, suc, ◌+◌, ◌⊎◌, inl, inr, Bool, true, false, not, ◌&&◌, ◌||◌, Option, none, some, List,
  [], ◌∷◌, ◌++◌, ltb, leb, ◌==◌, if◌then◌else◌, length,
}
use bmb.Base.Text.{CString, codes, str_eq}
use bmb.Run.{Cmd, pure, crashes, required, ◌>>=◌, ◌>>◌}
use bmb.Util.{in_str_array}
use bmb.Util.Decimal.{ℤ, pos, int_to_string}
use bmb.Util.Url.{Decoded, decoded, refused, url_decode}
use bmb.Reply.{Cjson, BrokerResponse, create_response, listed, listing, with_array}
use bmb.World.{Ptr, null, World, on_disk}
use bmb.Queue.{
  Queue, node_new, node_get_message, node_set_message, node_destruct, next_id, queue_size,
  queue_get, queue_is_empty, queue_add, queue_poll,
}
use bmb.Pool.{
  QueuePool, queue_pool_add, queue_pool_get_all_names, queue_pool_get_by_name,
  queue_pool_remove_by_name, queue_at, put_queue,
}

-- `struct broker_request`; the queue is found by `broker_dispatch`.
pub record BrokerRequest : Type 0 where
  pub kind : Option CString
  pub queue_name : Option CString
  pub index : ℕ
  pub payload : Option CString

abbrev pub Action : Type 0
Action = Cmd World (BrokerResponse × QueuePool)

-- The text up to its first NUL, as `strlen` and `strcpy` see it.
pub c_string : List ℕ → CString
c_string [] = []
c_string (c ∷ s) = if c == 0 then [] else c ∷ c_string s

unfoldable pub has_nul : List ℕ → Bool
has_nul [] = false
has_nul (c ∷ s) = c == 0 || has_nul s

-- What `url_decode` returns is not read: after a refusal, `strlen` stops at a NUL that an escape
-- has written, and without one it reads past the bytes that were written.
decoded_text : Decoded → Cmd World CString
unfolding c_string has_nul
decoded_text (decoded bytes) = pure (c_string bytes)
decoded_text (refused bytes) = if has_nul bytes then pure (c_string bytes) else crashes

decoded_message : Option CString → Cmd World CString
decoded_message message = do m ← required message; decoded_text (url_decode m)

consume_nonempty : ℕ → Queue → Cmd World (CString × Queue)
consume_nonempty rounds q = do
  (node, q') ← queue_poll rounds q
  message ← node_get_message node
  s ← decoded_message message
  node_destruct node
  pure (s, q')

message_at : Queue → ℕ → Cmd World CString
message_at q index = do node ← queue_get q index; message ← node_get_message node; required message

-- `fresh` is where `malloc` puts the new node. What `Queue_add` returns is not read.
produce_in : Ptr → Queue → CString → Cmd World Queue
produce_in fresh q message = do
  id ← next_id q
  node ← node_new fresh id
  node_set_message node message (length message)
  (added, q') ← queue_add q node
  pure q'

-- The messages at the indices from `i` on, each found from the root.
messages_from : Queue → ℕ → ℕ → Cmd World (List CString)
messages_from q i zero = pure []
messages_from q i (suc n) = do s ← message_at q i; rest ← messages_from q (i + 1) n; pure (s ∷ rest)

module _ (lib : Cjson) where
  add_queue_named : QueuePool → CString → Action
  add_queue_named p name = do
    (added, p') ← queue_pool_add p name false
    pure (
      create_response lib added 200
          (some (if added then codes "Queue created." else codes "Failed to create queue.")) none
          none,
      p',
    )

  refuse_duplicate : QueuePool → CString → Option ℕ → Action
  unfolding add_queue_named
  refuse_duplicate p name none = add_queue_named p name
  refuse_duplicate p name (some i) = pure (
    create_response lib false 200 (some (codes "Failed: Queue with given name already exists."))
        none none,
    p,
  )

  pub add_queue : QueuePool → BrokerRequest → Action
  unfolding refuse_duplicate
  add_queue p req = do
    name ← required req.payload
    refuse_duplicate p name (queue_pool_get_by_name p (some name))

  consume_message : ℕ → QueuePool → ℕ → Queue → Action
  consume_message rounds p i q = do
    (s, q') ← consume_nonempty rounds q
    pure (create_response lib true 200 none (some s) none, put_queue p i q')

  pub consume : ℕ → QueuePool → ℕ → Action
  consume rounds p i = do
    q ← queue_at p i
    empty ← queue_is_empty rounds q
    let nothing = create_response lib false 200 (some (codes "Queue is empty.")) none none
    if empty then pure (nothing, p) else consume_message rounds p i q

  get_message : QueuePool → Queue → ℕ → Action
  get_message p q index = do
    s ← message_at q index
    pure (create_response lib true 200 none (some s) none, p)

  pub get : ℕ → QueuePool → ℕ → BrokerRequest → Action
  get rounds p i req = do
    q ← queue_at p i
    size ← queue_size rounds q
    let outside = create_response lib false 200 (some (codes "Node index out of range.")) none none
    if ltb req.index size then get_message p q req.index else pure (outside, p)

  pub length_action : ℕ → QueuePool → ℕ → Action
  length_action rounds p i = do
    q ← queue_at p i
    size ← queue_size rounds q
    s ← required (int_to_string (pos size))
    pure (create_response lib true 200 none (some s) none, p)

  pub produce : Ptr → QueuePool → ℕ → BrokerRequest → Action
  produce fresh p i req = do
    q ← queue_at p i
    message ← required req.payload
    q' ← produce_in fresh q message
    pure (
      create_response lib true 200 (some (codes "Message produced.")) none none,
      put_queue p i q',
    )

  remove_found : ℕ → QueuePool → CString → Option ℕ → Action
  remove_found rounds p name none = pure (
    create_response lib false 200 (some (codes "Failed: Queue with the given name doesn't exist."))
        none none,
    p,
  )
  remove_found rounds p name (some i) = do
    (gone, p') ← queue_pool_remove_by_name rounds p name
    pure (
      create_response lib gone 200
          (some (if gone then codes "Queue removed." else codes "Failed to remove queue.")) none
          none,
      p',
    )

  pub remove_queue : ℕ → QueuePool → ℕ → Action
  unfolding remove_found
  remove_queue rounds p i = do
    q ← queue_at p i
    remove_found rounds p q.name (queue_pool_get_by_name p (some q.name))

  pub get_all : ℕ → QueuePool → ℕ → Action
  get_all rounds p i = do
    q ← queue_at p i
    size ← queue_size rounds q
    messages ← messages_from q 0 size
    pure (
      with_array lib (
          listing lib (codes "nodes") (codes "Failed to print nodes.") (
            listed lib (codes "message") (codes "Failed to add message to node JSON object.") 0
              messages)),
      p,
    )

  pub get_all_queue_names : QueuePool → Action
  get_all_queue_names p = pure (
    with_array lib (
        listing lib (codes "queueNames") (codes "Failed to print queue names.") (
          listed lib (codes "name") (codes "Failed to add queue name to node JSON object.") 0
            (queue_pool_get_all_names p))),
    p,
  )
