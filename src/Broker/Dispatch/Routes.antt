-- ===== src/Broker/Dispatch/Routes.antt =====
-- The choice of the action in `broker_dispatch` of broker/broker.c.
use bmb.Base.{ℕ, ◌≡◌, refl, true, false, ◌&&◌, ◌==◌, none, some, [], ◌∷◌}
use bmb.Base.Text.{CString, codes, str_eq}
use bmb.Util.{in_str_array}
use bmb.Run.{ok}
use bmb.World.{Ptr, World}
use bmb.Pool.{QueuePool, queue_pool_get_by_name}
use bmb.Reply.{Cjson, create_response}
use bmb.Broker.{
  BrokerRequest, consume, produce, length_action, get, get_all, add_queue, remove_queue,
}
use bmb.Broker.Dispatch.{
  needs_queue, is_blank, request_error, run_action, answer_or_run, broker_dispatch,
}

module _ (lib : Cjson) (rounds : ℕ) (fresh : Ptr) (p : QueuePool) (req : BrokerRequest) (w : World)
    (i c : ℕ) (s : CString) (named : req.queue_name ≡ some (c ∷ s))
    (found : queue_pool_get_by_name p (some (c ∷ s)) ≡ some i) where
  -- A `consume` request with a queue name that is not empty and that the pool has passes the checks
  -- and runs `consume` on the queue that the search gives.
  pub broker_dispatch-consume :
      req.kind ≡ some (codes "consume")
      → broker_dispatch lib rounds fresh p req w ≡ consume lib rounds p i w
  unfolding broker_dispatch answer_or_run request_error run_action in_str_array str_eq
  broker_dispatch-consume kind = rw (kind, named, found) (rw found)

  -- A `produce` request with data and a queue name that are not empty, and whose queue the pool has,
  -- passes the checks and runs `produce` on the queue that the search gives.
  pub broker_dispatch-produce :
      (b : ℕ) (t : CString)
      → req.kind ≡ some (codes "produce")
      → req.payload ≡ some (b ∷ t)
      → broker_dispatch lib rounds fresh p req w ≡ produce lib fresh p i req w
  unfolding broker_dispatch answer_or_run request_error run_action is_blank in_str_array str_eq
  broker_dispatch-produce b t kind payload = rw (kind, named, found, payload) (rw found)

  pub broker_dispatch-remove_queue :
      req.kind ≡ some (codes "removeQueue")
      → broker_dispatch lib rounds fresh p req w ≡ remove_queue lib rounds p i w
  unfolding broker_dispatch answer_or_run request_error run_action in_str_array str_eq
  broker_dispatch-remove_queue kind = rw (kind, named, found) (rw found)

  pub broker_dispatch-length :
      req.kind ≡ some (codes "length")
      → is_blank req.payload ≡ false
      → broker_dispatch lib rounds fresh p req w ≡ length_action lib rounds p i w
  unfolding broker_dispatch answer_or_run request_error run_action in_str_array str_eq
  broker_dispatch-length kind given = rw (kind, named, found, given) (rw found)

  pub broker_dispatch-get :
      req.kind ≡ some (codes "get")
      → (req.index == 0) ≡ false
      → broker_dispatch lib rounds fresh p req w ≡ get lib rounds p i req w
  unfolding broker_dispatch answer_or_run request_error run_action in_str_array str_eq
  broker_dispatch-get kind index = rw (kind, named, found, index) (rw found)

  pub broker_dispatch-get_all :
      req.kind ≡ some (codes "getAll")
      → broker_dispatch lib rounds fresh p req w ≡ get_all lib rounds p i w
  unfolding broker_dispatch answer_or_run request_error run_action in_str_array str_eq
  broker_dispatch-get_all kind = rw (kind, named, found) (rw found)

module _ (lib : Cjson) (rounds : ℕ) (fresh : Ptr) (p : QueuePool) (req : BrokerRequest) (w : World)
    (c : ℕ) (s : CString) where
  pub broker_dispatch-add_queue :
      req.kind ≡ some (codes "addQueue")
      → req.payload ≡ some (c ∷ s)
      → broker_dispatch lib rounds fresh p req w ≡ add_queue lib p req w
  unfolding broker_dispatch answer_or_run request_error run_action is_blank in_str_array str_eq
  broker_dispatch-add_queue kind payload = rw (kind, payload)

  -- A request for a queue that the pool does not have.
  broker_dispatch-missing :
      (kind : CString)
      → req.kind ≡ some kind
      → in_str_array kind needs_queue 6 ≡ true
      → (in_str_array kind (codes "get" ∷ []) 1 && req.index == 0) ≡ false
      → (in_str_array kind (codes "produce" ∷ codes "length" ∷ codes "addQueue" ∷ []) 3
          && is_blank req.payload)
        ≡ false
      → req.queue_name ≡ some (c ∷ s)
      → queue_pool_get_by_name p (some (c ∷ s)) ≡ none
      → broker_dispatch lib rounds fresh p req w
        ≡ ok (create_response lib false 200 (some (codes "Queue not found.")) none none, p) w
  unfolding broker_dispatch answer_or_run request_error
  broker_dispatch-missing kind typed needed unindexed given named absent =
      rw (typed, needed, named, absent, unindexed, given)

  -- The index 0 is taken for a missing one, whatever the queue.
  pub get_unindexed :
      req.kind ≡ some (codes "get")
      → (req.index == 0) ≡ true
      → broker_dispatch lib rounds fresh p req w
        ≡ ok
            (
              create_response lib false 200 (some (codes "Request is missing an index.")) none none,
              p,
            )
            w
  unfolding broker_dispatch answer_or_run request_error in_str_array str_eq
  get_unindexed kind index = rw (kind, index)

  module _ (named : req.queue_name ≡ some (c ∷ s))
      (absent : queue_pool_get_by_name p (some (c ∷ s)) ≡ none) where
    abbrev NotFound : Type 0
    NotFound =
        broker_dispatch lib rounds fresh p req w
        ≡ ok (create_response lib false 200 (some (codes "Queue not found.")) none none, p) w

    pub consume_missing : req.kind ≡ some (codes "consume") → NotFound
    unfolding in_str_array str_eq
    consume_missing kind =
        broker_dispatch-missing (codes "consume") kind refl refl refl named absent

    pub remove_missing : req.kind ≡ some (codes "removeQueue") → NotFound
    unfolding in_str_array str_eq
    remove_missing kind =
        broker_dispatch-missing (codes "removeQueue") kind refl refl refl named absent

    pub produce_missing :
        (b : ℕ) (t : CString)
        → req.kind ≡ some (codes "produce")
        → req.payload ≡ some (b ∷ t)
        → NotFound
    unfolding in_str_array str_eq is_blank
    produce_missing b t kind payload =
        broker_dispatch-missing (codes "produce") kind refl refl (rw payload) named absent

    pub length_missing : req.kind ≡ some (codes "length") → is_blank req.payload ≡ false → NotFound
    unfolding in_str_array str_eq
    length_missing kind given =
        broker_dispatch-missing (codes "length") kind refl refl given named absent

    pub get_missing : req.kind ≡ some (codes "get") → (req.index == 0) ≡ false → NotFound
    unfolding in_str_array str_eq
    get_missing kind index = broker_dispatch-missing (codes "get") kind refl index refl named absent

    pub get_all_missing : req.kind ≡ some (codes "getAll") → NotFound
    unfolding in_str_array str_eq
    get_all_missing kind = broker_dispatch-missing (codes "getAll") kind refl refl refl named absent
