-- ===== src/Queue/Failing.antt =====
-- `Queue_add` of queue/queue.c where the node cannot be saved.
use bmb.Base.{◌^◌, ◌<◌, ◌≡◌, ◌≢◌, Bool, true, false, List, ◌∷◌, arith}
use bmb.Base.Text.{CString}
use bmb.Run.{ok}
use bmb.Disk.{Files}
use bmb.Disk.Table.{Assoc}
use bmb.Persist.Requests.{HasQueue, IsShort}
use bmb.Persist.Requests.Failing.{failing, get_next_id-failing, add_node-failing}
use bmb.World.{Ptr, null, World, Heap}
use bmb.World.Chain.{Cells}
use bmb.Queue.{Queue, next_id, id_of, persist_add, queue_add, node_get_message}
use bmb.Queue.Walk.{load-node}
use bmb.Queue.Kept.{log_of, new_id}
use bmb.Queue.Fresh.{new_node, with_node, with_node_self}

-- The heap and the disk.
abbrev pub in_world : Heap → Assoc Files → List Bool → World
in_world h dirs failures = record { heap = h; disk = failing dirs failures }

module _ {dirs : Assoc Files} (q : Queue) (xs : Cells) (d : HasQueue dirs q.name (log_of xs))
    (short : IsShort q.name) (fits : new_id xs < 2 ^ 31) (h : Heap) (rest : List Bool) where
  pub next_id-failing :
      (h' : Heap) (failures : List Bool)
      → next_id q (in_world h' dirs (false ∷ false ∷ failures))
        ≡ ok (new_id xs) (in_world h' dirs failures)
  unfolding next_id id_of
  next_id-failing h' failures = rw (get_next_id-failing d short failures)

  pub queue_add-failing :
      (fresh : Ptr) (m : CString)
      → q.persist ≡ true
      → fresh ≢ null
      → queue_add q fresh
          (in_world (with_node h fresh (new_id xs) m) dirs (false ∷ false ∷ true ∷ rest))
        ≡ ok (false, q) (in_world (with_node h fresh (new_id xs) m) dirs rest)
  unfolding queue_add persist_add node_get_message next_id
  queue_add-failing fresh m saved ne =
      let h' = with_node h fresh (new_id xs) m in
      let (res, added, refused) = add_node-failing d short rest (new_id xs) m (omega arith) fits in
      rw (
        saved,
        next_id-failing h' (true ∷ rest),
        load-node (in_world h' dirs (true ∷ rest)) fresh (new_node (new_id xs) m) ne
            (with_node_self h fresh (new_id xs) m),
        added,
        refused,
      )
