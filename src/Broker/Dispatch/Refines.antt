-- ===== src/Broker/Dispatch/Refines.antt =====
-- Histories of requests to `broker_dispatch` of broker/broker.c on any of the pool's queues.
use mathlib.Core.Path.{ap₂}
use bmb.Base.{
  ℕ, suc, ◌^◌, ◌≤◌, ◌<◌, ◌≡◌, refl, Bool, true, false, ◌||◌, List, [], ◌∷◌, arith, length,
}
use bmb.Run.{Cmd, pure, ◌>>=◌}
use bmb.Run.Returns
use bmb.Run.Returns.{Returns, returns}
use bmb.Disk.{Files}
use bmb.Disk.Table.{Assoc, find}
use bmb.Persist.Requests.{calm}
use bmb.World.{Ptr, World}
use bmb.World.Chain.{Cells}
use bmb.Pool.{QueuePool, queue_pool_init}
use bmb.Pool.Kept.{Contents, nothing, PoolKept-init}
use bmb.Reply.{Cjson, BrokerResponse}
use bmb.Broker.Dispatch.{broker_dispatch}
use bmb.Broker.Dispatch.Contents.{
  Command, produce_to, consume_from, create, destroy, Asks, length_of, bare_length_of, get_at,
  get_all_of, address_of, is_new, answer, after, IsProper,
}
use bmb.Broker.Dispatch.Reads.{step_length, step_bare_length, step_get, step_get_all}
use bmb.Broker.{BrokerRequest}
use bmb.Broker.Dispatch.Holds.{Holds, IsFree, Answers, locate}
use bmb.Broker.Dispatch.Serving.{step_produce, step_consume}
use bmb.Broker.Dispatch.Managing.{step_create, step_destroy}

-- One request on a pool that holds contents.
pub broker_dispatch-Answers :
    (lib : Cjson) {dirs : Assoc Files} {w : World} {p : QueuePool} {cells : ℕ → Cells}
    {s : Contents} {rounds n : ℕ} (cmd : Command) (req : BrokerRequest)
    → Holds dirs w p cells s rounds (suc n)
    → Asks cmd req
    → IsProper cmd
    → ((a : Ptr) → is_new a cmd ≡ true → IsFree a cells)
    → Answers lib cmd req w p cells s rounds n
broker_dispatch-Answers lib (produce_to name fresh m) req h ask proper free =
    step_produce lib h req name fresh m ask proper (free fresh (ground arith)) (locate name h.pool)
broker_dispatch-Answers lib (consume_from name) req h ask proper free =
    step_consume lib h req name ask proper (locate name h.pool)
broker_dispatch-Answers lib (create name) req h ask proper free =
    step_create lib h req name ask proper (locate name h.pool)
broker_dispatch-Answers lib (destroy name) req h ask proper free =
    step_destroy lib h req name ask proper (locate name h.pool)
broker_dispatch-Answers lib (length_of name) req h ask proper free =
    step_length lib h req name ask proper (locate name h.pool)
broker_dispatch-Answers lib (bare_length_of name) req h ask proper free =
    step_bare_length lib h req name ask
broker_dispatch-Answers lib (get_at name index) req h ask proper free =
    step_get lib h req name index ask proper (locate name h.pool)
broker_dispatch-Answers lib (get_all_of name) req h ask proper free =
    step_get_all lib h req name ask proper (locate name h.pool)

abbrev pub is_used : Ptr → List Command → Bool
is_used a [] = false
is_used a (cmd ∷ cmds) = is_new a cmd || is_used a cmds

-- Each request is proper, and no two put nodes at the same address.
abbrev pub IsPlan : List Command → Type 0
IsPlan [] = Unit
IsPlan (cmd ∷ cmds) =
    IsProper cmd × ((a : Ptr) → is_new a cmd ≡ true → is_used a cmds ≡ false) × IsPlan cmds

unfoldable pub after_all : List Command → Contents → Contents
after_all [] s = s
after_all (cmd ∷ cmds) s = after_all cmds (after cmd s)

module _ (lib : Cjson) where
  unfoldable pub answer_all : List Command → Contents → List BrokerResponse
  answer_all [] s = []
  answer_all (cmd ∷ cmds) s = answer lib cmd s ∷ answer_all cmds (after cmd s)

  -- The requests one after another, each with the address that `malloc` gives for a new node.
  pub dispatch_all :
      ℕ → QueuePool → List (Ptr × BrokerRequest) → Cmd World (List BrokerResponse × QueuePool)
  dispatch_all rounds p [] = pure ([], p)
  dispatch_all rounds p ((fresh, req) ∷ reqs) = do
    (res, p') ← broker_dispatch lib rounds fresh p req
    (rest, p'') ← dispatch_all rounds p' reqs
    pure (res ∷ rest, p'')

-- The requests ask for what the commands say.
abbrev pub AllAsk : List Command → List (Ptr × BrokerRequest) → Type 0
AllAsk [] [] = Unit
AllAsk (cmd ∷ cmds) ((fresh, req) ∷ reqs) =
    (fresh ≡ address_of cmd) × Asks cmd req × AllAsk cmds reqs
AllAsk _ _ = ⊥

-- The responses are those of the map of queues, and the pool holds its contents.
abbrev pub Refined :
    (lib : Cjson) → List Command → Contents → ℕ → List BrokerResponse × QueuePool → World → Type 0
Refined lib cmds s rounds (rs, p') w' =
    (rs ≡ answer_all lib cmds s)
    × ((dirs' : Assoc Files) × (cells' : ℕ → Cells) × Holds dirs' w' p' cells' (after_all cmds s)
          rounds 0)

-- The empty pool on an empty disk holds nothing.
pub Holds-init :
    (w : World) (rounds n : ℕ)
    → w.disk ≡ calm []
    → n ≤ rounds
    → n < 2 ^ 31
    → Holds [] w queue_pool_init (λ i. []) nothing rounds n
unfolding queue_pool_init
Holds-init w rounds n disk enough ids = record {
  pool = PoolKept-init [] w disk;
  whole = λ n absent. unfold find in refl;
  fits = λ i. record { enough = omega (arith, enough); ids = omega (arith, ids); texts = tt };
}

-- Any history of requests to produce, consume, create and remove queues and to read their length
-- (which is refused without data, as `get` is with index 0), one message or all messages, on a pool
-- whose queues all agree with their directories and on a disk that has no other directories and no
-- failing call, with names that stand for directory entries of their own (not empty, without `/`,
-- not `.` or `..`), messages that are not empty and can be decoded, new queues with short names, new
-- nodes at addresses of their own, and enough ids and rounds, runs to its end: it answers as a finite
-- map from names to first-in first-out queues of texts, missing and duplicate queues included, and
-- the pool then holds the contents of that map, in memory and on the disk.
pub dispatch_all-Refined :
    (lib : Cjson) (cmds : List Command) (reqs : List (Ptr × BrokerRequest)) {dirs : Assoc Files}
    {w : World} {p : QueuePool} {cells : ℕ → Cells} {s : Contents} {rounds : ℕ}
    → Holds dirs w p cells s rounds (length cmds)
    → AllAsk cmds reqs
    → IsPlan cmds
    → ((a : Ptr) → is_used a cmds ≡ true → IsFree a cells)
    → Returns (Refined lib cmds s rounds) (dispatch_all lib rounds p reqs w)
unfolding dispatch_all answer_all after_all
dispatch_all-Refined lib [] [] {dirs} {p} {cells} h asks plan free =
    returns {a = ([], p)} (refl, (dirs, cells, h))
dispatch_all-Refined lib [] (r ∷ reqs) h asks plan free = absurd asks
dispatch_all-Refined lib (cmd ∷ cmds) [] h asks plan free = absurd asks
dispatch_all-Refined lib (cmd ∷ cmds) ((fresh, req) ∷ reqs) h asks plan free = rw asks.0 (
    Returns.bind
      (broker_dispatch-Answers lib cmd req h asks.1 plan.0 (λ a new. free a (ground arith)))
      λ (res, p') w' (told, dirs', cells', h', still).
        Returns.bind
          (dispatch_all-Refined lib cmds reqs h' asks.2 plan.2
            (λ a used. still a (ground (arith, plan.1 a)) (free a (ground arith))))
          λ (rs, p'') w'' (rest, held). returns (ap₂ ◌∷◌ told rest, held))
