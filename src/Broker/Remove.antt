-- ===== src/Broker/Remove.antt =====
-- `remove_queue` of broker/broker.c.
use bmb.Base.{ℕ, ◌≤◌, ◌≡◌, ◌∙◌, true, none, some, length, get_elem?}
use bmb.Base.Text.{codes}
use bmb.Run.Returns
use bmb.Run.Returns.{Returns, returns}
use bmb.Disk.{Files}
use bmb.Disk.Table.{Assoc, find}
use bmb.Persist.Requests.{calm}
use bmb.World.{Ptr, World}
use bmb.World.Chain.{Cells, has}
use bmb.Queue.{Queue}
use bmb.Queue.Kept.{IsKept}
use bmb.Queue.Fresh.{KeepsOthers, KeepsOthers-of}
use bmb.Pool.{QueuePool, queue_at, queue_pool_get_by_name}
use bmb.Pool.Removal.{erase_idx, remove_by_name-gone}
use bmb.Reply.{Cjson, create_response}
use bmb.Broker.{remove_found, remove_queue}

-- `remove_queue` on a queue of the pool that is the first of its name and agrees with its
-- directory, given as many rounds as it has nodes, answers that the queue was removed: the other
-- queues of the pool stay in order, the nodes are freed, and the directory is gone; other queues
-- with names and nodes of their own still agree with their directories.
pub remove_queue-erase_idx :
    (lib : Cjson) {dirs : Assoc Files} {w : World} {q : Queue} {xs : Cells} (rounds i : ℕ)
    (p : QueuePool)
    → IsKept dirs w q xs
    → get_elem? p.pool i ≡ some q
    → queue_pool_get_by_name p (some q.name) ≡ some i
    → length xs ≤ rounds
    → (dirs' : Assoc Files) × Returns
        (λ (res, p') w'.
          (res ≡ create_response lib true 200 (some (codes "Queue removed.")) none none)
          × (p'.pool ≡ erase_idx p.pool i)
          × ((a : Ptr) → has a xs ≡ true → w'.heap a ≡ none)
          × (w'.disk ≡ calm dirs')
          × KeepsOthers xs q.name dirs w dirs' w')
        (remove_queue lib rounds p i w)
      × (find q.name dirs' ≡ none)
unfolding remove_queue queue_at remove_found
remove_queue-erase_idx lib {w} {q} {xs} rounds i p k at found enough =
    let (dirs', removed, absent, others) = remove_by_name-gone rounds i p k at found enough in
    (
      dirs',
      rw (at, found)
          (Returns.bind removed λ (gone, p') w' (done, pool, freed, calmed). returns (
            rw done,
            pool,
            λ a h. freed a ∙ rw h,
            calmed,
            KeepsOthers-of xs q.name (λ a h. freed a ∙ rw h) others calmed,
          )),
      absent,
    )
