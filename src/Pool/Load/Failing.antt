-- ===== src/Pool/Load/Failing.antt =====
-- `queue_pool_load` of queue/queue_pool.c where the directory of all queues cannot be read.
use bmb.Base.{ℕ, ◌≡◌, refl, false}
use bmb.Base.Text.{CString}
use bmb.Run.{exited}
use bmb.Persist.Requests.Listing.{get_queue_list-missing}
use bmb.World.{Ptr, World}
use bmb.Pool.{QueuePool}
use bmb.Pool.Load.{list_request, succeed_or_exit, queue_pool_load}

-- Without a directory `./data`, the process ends.
pub queue_pool_load-missing :
    (fresh : CString → ℕ → Ptr) (p : QueuePool) (w : World)
    → w.disk.present ≡ false
    → queue_pool_load fresh p w ≡ exited
unfolding queue_pool_load succeed_or_exit
queue_pool_load-missing fresh p w gone =
    let (res, listed, refused) = get_queue_list-missing list_request w.disk refl refl refl gone in
    rw (listed, refused)
