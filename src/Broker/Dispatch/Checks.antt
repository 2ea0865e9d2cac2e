-- ===== src/Broker/Dispatch/Checks.antt =====
-- The checks of `broker_dispatch` in broker/broker.c.
use mathlib.Core.Path.{subst}
use bmb.Base.{
  ℕ, ◌≡◌, refl, ◌∙◌, ap, sym, Bool, true, false, ◌&&◌, Option, none, some, [], ◌∷◌, arith, ◌==◌,
  if◌then◌else◌, get_elem?, inl, inr, Bool-cases,
}
use bmb.Base.Text.{CString, codes, str_eq}
use bmb.Run.{ok, crash}
use bmb.Util.{in_str_array}
use bmb.World.{World}
use bmb.Queue.{Queue}
use bmb.Pool.{QueuePool, queue_pool_get_by_name}
use bmb.Pool.Names.{FoundBy, queue_pool_get_by_name-FoundBy}
use bmb.Reply.{Cjson, create_response}
use bmb.Broker.{BrokerRequest}
use bmb.Broker.Dispatch.{
  needs_queue, queue_error, index_error, is_blank, data_error, find_queue, request_error,
  answer_or_run, broker_dispatch,
}

-- The queue that the request names is in the pool, at the index that the search gives.
abbrev pub Names : QueuePool → BrokerRequest → Type 0
Names p req =
    (i : ℕ) × (q : Queue) × (queue_pool_get_by_name p req.queue_name ≡ some i)
    × (get_elem? p.pool i ≡ some q)
    × (req.queue_name ≡ some q.name)

queue_error-none :
    (name : Option CString) (found : Option ℕ)
    → queue_error true name found ≡ none
    → (i : ℕ) × (found ≡ some i) × (s : CString) × (name ≡ some s)
unfolding queue_error
queue_error-none none found h = absurd (cc)
queue_error-none (some []) found h = absurd (cc)
queue_error-none (some (c ∷ s)) none h = absurd (cc)
queue_error-none (some (c ∷ s)) (some i) h = (i, refl, c ∷ s, refl)

found-Names :
    (p : QueuePool) (req : BrokerRequest) (name : CString) (i : ℕ)
    → req.queue_name ≡ some name
    → queue_pool_get_by_name p req.queue_name ≡ some i
    → Names p req
found-Names p req name i e found =
    let by = queue_pool_get_by_name-FoundBy p name in
    let f = subst (FoundBy name p.pool) (ap (queue_pool_get_by_name p) (sym e) ∙ found) by in
    (i, f.0.0, found, f.0.1, e ∙ ap some (sym f.0.2))

data_error-none :
    (needed : Bool) (payload error : Option CString)
    → data_error needed payload error ≡ none
    → error ≡ none
unfolding data_error
data_error-none needed payload error h = elim (Bool-cases (needed && is_blank payload)) [
  | inl e ↦ absurd (ground arith)
  | inr e ↦ ground arith
]

index_error-none :
    (needed : Bool) (index : ℕ) (error : Option CString)
    → index_error needed index error ≡ none
    → error ≡ none
unfolding index_error
index_error-none needed index error h = elim (Bool-cases (needed && index == 0)) [
  | inl e ↦ absurd (ground arith)
  | inr e ↦ ground arith
]

-- A request of a type that needs a queue and that passes the checks names a queue of the pool, so
-- that no action is run on the NULL queue.
pub request_error-Names :
    (p : QueuePool) (kind : CString) (req : BrokerRequest)
    → in_str_array kind needs_queue 6 ≡ true
    → request_error p kind req ≡ none
    → Names p req
unfolding request_error find_queue
request_error-Names p kind req needed passed =
    let unindexed = data_error-none _ req.payload _ passed in
    let unqueued = index_error-none _ req.index _ unindexed in
    let (i, found, name, named) =
      queue_error-none req.queue_name (queue_pool_get_by_name p req.queue_name) (
        subst
          (λ (b : Bool).
            queue_error b req.queue_name
              (if b then queue_pool_get_by_name p req.queue_name else none)
            ≡ none)
          needed unqueued) in
    found-Names p req name i named found

module _ (lib : Cjson) where
  -- A `length` request without data is refused, whatever its queue holds.
  pub length-refused :
      (rounds fresh : ℕ) (p : QueuePool) (req : BrokerRequest) (w : World)
      → req.kind ≡ some (codes "length")
      → is_blank req.payload ≡ true
      → broker_dispatch lib rounds fresh p req w
        ≡ ok
            (
              create_response lib false 200 (some (codes "Request is missing the data.")) none none,
              p,
            )
            w
  unfolding broker_dispatch answer_or_run request_error data_error in_str_array str_eq
  length-refused rounds fresh p req w kind blank = rw (kind, blank)

  -- A `get` request for the index 0 is refused, whatever its queue holds.
  pub get-refused :
      (rounds fresh : ℕ) (p : QueuePool) (req : BrokerRequest) (w : World)
      → req.kind ≡ some (codes "get")
      → req.index ≡ 0
      → broker_dispatch lib rounds fresh p req w
        ≡ ok
            (
              create_response lib false 200 (some (codes "Request is missing an index.")) none none,
              p,
            )
            w
  unfolding broker_dispatch answer_or_run request_error data_error index_error in_str_array str_eq
  get-refused rounds fresh p req w kind index = rw (kind, index)

  -- A request without a type crashes the broker: the type is compared with each known one.
  pub untyped-crash :
      (rounds fresh : ℕ) (p : QueuePool) (req : BrokerRequest) (w : World)
      → req.kind ≡ none
      → broker_dispatch lib rounds fresh p req w ≡ crash
  unfolding broker_dispatch
  untyped-crash rounds fresh p req w kind = rw kind
