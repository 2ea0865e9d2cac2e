-- ===== src/Broker/Create.antt =====
-- `add_queue` of broker/broker.c: creating a queue.
use bmb.Base.{ℕ, ◌≤◌, ◌≡◌, refl, true, false, none, some, [], ◌∷◌, ◌++◌, length}
use bmb.Base.Text.{CString, codes}
use bmb.Run.{ok, crash}
use bmb.Disk.{Files}
use bmb.Disk.Table.{Assoc, find, put}
use bmb.Persist.Requests.{IsShort, IsDirName, calm, add_queue-empty, persist_dispatch_long}
use bmb.World.{World}
use bmb.Queue.{queue_new, queue_reset}
use bmb.Queue.Kept.{IsKept}
use bmb.Queue.Fresh.{KeepsOthers, KeepsOthers-of}
use bmb.Pool.{QueuePool, allocated, create_directory, queue_pool_add, queue_pool_get_by_name}
use bmb.Reply.{Cjson, create_response}
use bmb.Broker.{BrokerRequest, add_queue_named, refuse_duplicate, add_queue}

module _ (lib : Cjson) where
  -- Creating a queue with a name of 43 bytes or more that the pool does not hold writes past a
  -- buffer.
  pub add_queue_long :
      (p : QueuePool) (req : BrokerRequest) (name : CString) (w : World)
      → req.payload ≡ some name
      → queue_pool_get_by_name p (some name) ≡ none
      → 43 ≤ length name
      → add_queue lib p req w ≡ crash
  unfolding add_queue refuse_duplicate add_queue_named queue_pool_add create_directory
  add_queue_long p req name w payload absent long = rw (payload, absent, persist_dispatch_long)

  pub add_queue_duplicate :
      (p : QueuePool) (req : BrokerRequest) (name : CString) (i : ℕ) (w : World)
      → req.payload ≡ some name
      → queue_pool_get_by_name p (some name) ≡ some i
      → add_queue lib p req w
        ≡ ok
            (
              create_response lib false 200
                  (some (codes "Failed: Queue with given name already exists."))
                  none
                  none,
              p,
            )
            w
  unfolding add_queue refuse_duplicate
  add_queue_duplicate p req name i w payload found = rw (payload, found)

  -- On a disk on which no call fails, creating a queue with a short name that stands for a
  -- directory entry of its own and that neither the pool nor
  -- the disk holds answers that it was created, and adds an empty queue that agrees with its new
  -- directory at the end of the pool; queues of other names still agree with theirs.
  pub add_queue-IsKept :
      (dirs : Assoc Files) (p : QueuePool) (req : BrokerRequest) (name : CString) (w : World)
      → req.payload ≡ some name
      → queue_pool_get_by_name p (some name) ≡ none
      → find name dirs ≡ none
      → IsDirName name
      → IsShort name
      → w.disk ≡ calm dirs
      → let w' : World = record w { disk = calm (put name [] dirs) } in
        (add_queue lib p req w
          ≡ ok
              (
                create_response lib true 200 (some (codes "Queue created.")) none none,
                record { pool = p.pool ++ queue_new name ∷ []; memory = allocated },
              )
              w')
        × IsKept (put name [] dirs) w' (queue_new name) []
        × KeepsOthers [] name dirs w (put name [] dirs) w'
  unfolding add_queue refuse_duplicate add_queue_named queue_pool_add create_directory
  add_queue-IsKept dirs p req name w payload absent none_there entry short disk =
      let (made, leaves) = add_queue-empty dirs name none_there short in
      (
        rw (payload, absent, disk, made),
        record {
          queue = record {
            root = unfold queue_new queue_reset in refl;
            tail = unfold queue_new queue_reset in refl;
            linked = tt;
          };
          saved = unfold queue_new queue_reset in refl;
          disk = refl;
          directory = unfold queue_new queue_reset in leaves.0;
          short = unfold queue_new queue_reset in short;
        },
        KeepsOthers-of [] name (λ a o. refl) leaves.1 refl,
      )
