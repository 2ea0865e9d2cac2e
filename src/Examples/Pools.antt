-- ===== src/Examples/Pools.antt =====
-- The theorems on the whole pool at concrete requests.
use bmb.Base.{Option, ℕ, ◌≡◌, refl, true, none, some, List, [], ◌∷◌, arith}
use bmb.Base.Text.{CString, codes, str_eq}
use bmb.Run.{ok}
use bmb.Run.Returns.{Returns}
use bmb.Util.Url.{url_decode}
use bmb.Disk.{Files}
use bmb.Disk.Table.{Assoc, find}
use bmb.Persist.{persist_dispatch, remove_queue, no_data, succeeded}
use bmb.Persist.Requests.{request, calm, SameOthers}
use bmb.Persist.Requests.Removal.{remove_queue-gone}
use bmb.World.{Ptr, World}
use bmb.World.Chain.{has}
use bmb.Queue.Fresh.{KeepsOthers}
use bmb.Pool.{queue_pool_init, queue_pool_get_by_name}
use bmb.Pool.Kept.{nothing}
use bmb.Reply.{create_response}
use bmb.Broker.{BrokerRequest, remove_queue as remove_action}
use bmb.Broker.Dispatch.{is_blank}
use bmb.Broker.Remove.{remove_queue-erase_idx}
use bmb.Broker.Dispatch.Contents.{
  Command, produce_to, consume_from, create, destroy, length_of, bare_length_of, get_at, get_all_of,
}
use bmb.Broker.Dispatch.Refines.{
  dispatch_all, Refined, Holds-init, dispatch_all-Refined, IsPlan, AllAsk,
}
use bmb.Examples.{lib, two_cells, name, dirs, world, pool, dirs-HasQueue, mail-IsKept}

remove_queue-gone_example :
    (dirs' : Assoc Files) × (persist_dispatch (request remove_queue name 0 none) (calm dirs)
      ≡ ok (succeeded no_data) (calm dirs'))
    × (find name dirs' ≡ none)
    × SameOthers name dirs dirs'
remove_queue-gone_example = remove_queue-gone (omega arith) dirs-HasQueue

mail_found : queue_pool_get_by_name pool (some name) ≡ some 0
unfolding queue_pool_get_by_name str_eq
mail_found = refl

remove_queue-erase_idx_example :
    (dirs' : Assoc Files) × Returns
      (λ (res, p') w'.
        (res ≡ create_response lib true 200 (some (codes "Queue removed.")) none none)
        × (p'.pool ≡ [])
        × ((a : Ptr) → has a two_cells ≡ true → w'.heap a ≡ none)
        × (w'.disk ≡ calm dirs')
        × KeepsOthers two_cells name dirs world dirs' w')
      (remove_action lib 2 pool 0 world)
    × (find name dirs' ≡ none)
remove_queue-erase_idx_example =
    remove_queue-erase_idx lib 2 0 pool mail-IsKept refl mail_found (omega arith)

abbrev jobs : CString
jobs = codes "jobs"

-- Two messages, one of them consumed, and a request for a queue that is not there.
abbrev requests : List Command
requests =
    create jobs
    ∷ produce_to jobs 5 (codes "a")
    ∷ produce_to jobs 7 (codes "b")
    ∷ consume_from jobs
    ∷ consume_from name
    ∷ create name
    ∷ length_of jobs
    ∷ bare_length_of jobs
    ∷ get_at jobs 1
    ∷ get_all_of jobs
    ∷ destroy jobs
    ∷ []

abbrev asking : CString → Option CString → ℕ → Option CString → BrokerRequest
asking kind queue index payload = record {
  kind = some kind;
  queue_name = queue;
  index = index;
  payload = payload;
}

abbrev broker_requests : List (Ptr × BrokerRequest)
broker_requests =
    (0, asking (codes "addQueue") none 0 (some jobs))
    ∷ (5, asking (codes "produce") (some jobs) 0 (some (codes "a")))
    ∷ (7, asking (codes "produce") (some jobs) 0 (some (codes "b")))
    ∷ (0, asking (codes "consume") (some jobs) 0 none)
    ∷ (0, asking (codes "consume") (some name) 0 none)
    ∷ (0, asking (codes "addQueue") none 0 (some name))
    ∷ (0, asking (codes "length") (some jobs) 0 (some (codes "?")))
    ∷ (0, asking (codes "length") (some jobs) 0 none)
    ∷ (0, asking (codes "get") (some jobs) 1 none)
    ∷ (0, asking (codes "getAll") (some jobs) 0 none)
    ∷ (0, asking (codes "removeQueue") (some jobs) 0 none)
    ∷ []

requests-AllAsk : AllAsk requests broker_requests
unfolding is_blank
requests-AllAsk = (
  refl,
  (refl, refl),
  (
    refl,
    (refl, refl, refl),
    (
      refl,
      (refl, refl, refl),
      (
        refl,
        (refl, refl),
        (
          refl,
          (refl, refl),
          (
            refl,
            (refl, refl),
            (
              refl,
              (refl, refl, refl),
              (
                refl,
                (refl, refl, refl),
                (refl, (refl, refl, refl), (refl, (refl, refl), (refl, (refl, refl), tt))),
              ),
            ),
          ),
        ),
      ),
    ),
  ),
)

abbrev bare_world : World
bare_world = record { heap = λ a. none; disk = calm [] }

requests-IsPlan : IsPlan requests
unfolding url_decode
requests-IsPlan = (
  ((refl, refl), omega arith),
  λ a new. absurd (cc),
  (
    ((refl, refl), tt, λ e. absurd (omega arith), tt),
    λ a new. ground arith,
    (
      ((refl, refl), tt, λ e. absurd (omega arith), tt),
      λ a new. ground arith,
      (
        (refl, refl),
        λ a new. absurd (cc),
        (
          (refl, refl),
          λ a new. absurd (cc),
          (
            ((refl, refl), omega arith),
            λ a new. absurd (cc),
            (
              (refl, refl),
              λ a new. absurd (cc),
              (
                (refl, refl),
                λ a new. absurd (cc),
                (
                  (refl, refl),
                  λ a new. absurd (cc),
                  ((refl, refl), λ a new. absurd (cc), ((refl, refl), λ a new. absurd (cc), tt)),
                ),
              ),
            ),
          ),
        ),
      ),
    ),
  ),
)

dispatch_all-Refined_example :
    Returns
      (Refined lib requests nothing 11)
      (dispatch_all lib 11 queue_pool_init broker_requests bare_world)
dispatch_all-Refined_example =
    dispatch_all-Refined lib requests broker_requests
      (Holds-init bare_world 11 11 refl (omega arith) (omega arith)) requests-AllAsk requests-IsPlan
      (λ a used i. refl)
