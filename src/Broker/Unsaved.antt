-- ===== src/Broker/Unsaved.antt =====
-- `produce` of broker/broker.c where the message cannot be saved.
use bmb.Base.{ℕ, ◌^◌, ◌<◌, ◌≡◌, ◌≢◌, refl, Bool, true, false, some, none, List, ◌∷◌, get_elem?}
use bmb.Base.Text.{CString, codes}
use bmb.Run.Returns.{Returns, returns}
use bmb.Disk.{Files}
use bmb.Disk.Table.{Assoc}
use bmb.Persist.Requests.{HasQueue, IsShort}
use bmb.Persist.Requests.Failing.{failing}
use bmb.World.{Ptr, null, Heap}
use bmb.World.Chain.{Cells}
use bmb.Queue.{Queue}
use bmb.Queue.Failing.{in_world, next_id-failing, queue_add-failing}
use bmb.Queue.Kept.{log_of, new_id}
use bmb.Queue.Fresh.{new_node, with_node_self, node_new-blank, node_set_message-blank}
use bmb.Pool.{QueuePool, queue_at}
use bmb.Reply.{Cjson, create_response}
use bmb.Broker.{BrokerRequest, produce_in, produce}
use bmb.Broker.Produce.{PutAt, put_queue-PutAt}

module _ {dirs : Assoc Files} (q : Queue) (xs : Cells) (d : HasQueue dirs q.name (log_of xs))
    (short : IsShort q.name) (fits : new_id xs < 2 ^ 31) (h : Heap) (rest : List Bool) where
  -- When the file of a message cannot be opened, after the four calls for its id went well, `produce`
  -- on a queue whose directory holds its nodes, with a short name and a next id that fits an
  -- `int`, still answers that the message was produced; the queue and the disk are as before, and
  -- the new node stays in memory although no queue has it.
  pub produce_unsaved :
      (lib : Cjson) (fresh : Ptr) (p : QueuePool) (i : ℕ) (req : BrokerRequest) (m : CString)
      → q.persist ≡ true
      → get_elem? p.pool i ≡ some q
      → req.payload ≡ some m
      → fresh ≢ null
      → Returns
          (λ (res, p') w'.
            (res ≡ create_response lib true 200 (some (codes "Message produced.")) none none)
            × PutAt p p' i q
            × (w'.heap fresh ≡ some (new_node (new_id xs) m))
            × (w'.disk ≡ failing dirs rest))
          (produce lib fresh p i req
            (in_world h dirs (false ∷ false ∷ false ∷ false ∷ true ∷ rest)))
  unfolding produce produce_in queue_at
  produce_unsaved lib fresh p i req m saved at payload ne =
      let w = in_world h dirs (false ∷ false ∷ true ∷ rest) in
      rw
        (
          at,
          payload,
          next_id-failing q xs d short fits h rest h (false ∷ false ∷ true ∷ rest),
          node_new-blank w fresh (new_id xs) ne,
          node_set_message-blank w fresh (new_id xs) m ne,
          queue_add-failing q xs d short fits h rest fresh m saved ne,
        )
        (returns (refl, put_queue-PutAt p i q q at, with_node_self h fresh (new_id xs) m, refl))
