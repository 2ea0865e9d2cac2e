-- ===== src/Broker/Produce.antt =====
-- `produce` of broker/broker.c.
use bmb.Base.{
  ℕ, zero, suc, ◌^◌, ◌<◌, ◌≡◌, ◌≢◌, refl, ◌∙◌, ap, true, false, none, some, List, [], ◌∷◌, arith,
  get_elem?,
}
use bmb.Base.Text.{CString, codes}
use bmb.Run.Returns
use bmb.Run.Returns.{Returns, returns}
use bmb.Disk.{Files}
use bmb.Disk.Table.{Assoc}
use bmb.Persist.Requests.{Leaves}
use bmb.World.{Ptr, null, World}
use bmb.World.Chain.{Cell, Cells, has, SameOutside}
use bmb.Queue.{Queue}
use bmb.Queue.Kept.{IsKept, new_id, log_of, next_id-new_id}
use bmb.Queue.Fresh.{
  KeepsOthers, KeepsOthers-of, IsKept-frame, new_node, with_node, with_node_self, with_node-ne,
  node_new-blank, node_set_message-blank,
}
use bmb.Queue.Add.{queue_add-IsKept}
use bmb.Pool.{QueuePool, queue_at, put_at, put_queue}
use bmb.Reply.{Cjson, BrokerResponse, create_response}
use bmb.Broker.{BrokerRequest, produce_in, produce}

produce_in-IsKept :
    {dirs : Assoc Files} {w : World} {q : Queue} {xs : Cells} (fresh : Ptr) (m : CString)
    → IsKept dirs w q xs
    → fresh ≢ null
    → has fresh xs ≡ false
    → new_id xs < 2 ^ 31
    → let c : Cell = record { at = fresh; id = new_id xs; message = m } in
      (dirs' : Assoc Files) × Returns
        (λ q' w'.
          (q'.name ≡ q.name) × IsKept dirs' w' q' (c ∷ xs) × SameOutside (c ∷ []) w.heap w'.heap)
        (produce_in fresh q m w)
      × Leaves dirs q.name (log_of (c ∷ xs)) dirs'
produce_in-IsKept {dirs} {w} {q} {xs} fresh m k ne out fits =
    let c : Cell = record { at = fresh; id = new_id xs; message = m } in
    let w' : World = record w { heap = with_node w.heap fresh (new_id xs) m } in
    let k' =
      IsKept-frame w' k (λ a i. with_node-ne w.heap fresh a (new_id xs) m (ground arith)) refl in
    let (dirs', added, leaves) =
      queue_add-IsKept c (new_node (new_id xs) m) k' ne out
        (with_node_self w.heap fresh (new_id xs) m) refl refl refl fits in
    (
      dirs',
      unfold produce_in in
          rw
            (
              next_id-new_id k,
              node_new-blank w fresh (new_id xs) ne,
              node_set_message-blank w fresh (new_id xs) m ne,
            )
            (Returns.bind added λ (_, q') w' (_, name, kept, same). returns (
              name,
              kept,
              λ a o. same a o ∙ with_node-ne w.heap fresh a (new_id xs) m (ground arith),
            )),
      leaves,
    )

-- The queue at the index, and the queues at the others.
abbrev pub PutAt : QueuePool → QueuePool → ℕ → Queue → Type 0
PutAt p p' i q =
    (get_elem? p'.pool i ≡ some q) × ((j : ℕ) → j ≢ i → get_elem? p'.pool j ≡ get_elem? p.pool j)

get_elem?-put_at_self :
    (qs : List Queue) (i : ℕ) (q r : Queue)
    → get_elem? qs i ≡ some r
    → get_elem? (put_at qs i q) i ≡ some q
unfolding put_at
get_elem?-put_at_self [] i q r h = absurd (cc)
get_elem?-put_at_self (s ∷ qs) zero q r h = refl
get_elem?-put_at_self (s ∷ qs) (suc i) q r h = get_elem?-put_at_self qs i q r h

get_elem?-put_at_ne :
    (qs : List Queue) (i j : ℕ) (q : Queue) → j ≢ i → get_elem? (put_at qs i q) j ≡ get_elem? qs j
unfolding put_at
get_elem?-put_at_ne [] i j q ne = refl
get_elem?-put_at_ne (s ∷ qs) zero zero q ne = absurd (ne refl)
get_elem?-put_at_ne (s ∷ qs) zero (suc j) q ne = refl
get_elem?-put_at_ne (s ∷ qs) (suc i) zero q ne = refl
get_elem?-put_at_ne (s ∷ qs) (suc i) (suc j) q ne =
    get_elem?-put_at_ne qs i j q (λ e. ne (ap suc e))

pub put_queue-PutAt :
    (p : QueuePool) (i : ℕ) (q r : Queue)
    → get_elem? p.pool i ≡ some r
    → PutAt p (put_queue p i q) i q
unfolding put_queue
put_queue-PutAt p i q r h =
    (get_elem?-put_at_self p.pool i q r h, λ j ne. get_elem?-put_at_ne p.pool i j q ne)

-- What an action that changed the queue at an index leaves: the response, and the queue with its
-- new nodes in agreement with its directory.
abbrev pub Acted :
    (lib : Cjson)
    → BrokerResponse
    → Cells
    → Cells
    → QueuePool
    → ℕ
    → Queue
    → Assoc Files
    → World
    → Assoc Files
    → BrokerResponse × QueuePool
    → World
    → Type 0
Acted lib response xs touched p i q dirs w dirs' (res, p') w' =
    (res ≡ response)
    × (q' : Queue) × PutAt p p' i q'
    × (q'.name ≡ q.name)
    × IsKept dirs' w' q' xs
    × KeepsOthers touched q.name dirs w dirs' w'

-- `produce` on a queue of the pool that agrees with its directory, given memory for a node at an
-- address that the queue does not use, and with a next id that fits an `int`: the response is a
-- success, the message is the newest of the queue under the next id, in memory and on the disk,
-- the other entries of the pool are as before, and other queues with names and nodes of their own
-- still agree with their directories.
pub produce-IsKept :
    (lib : Cjson) {dirs : Assoc Files} {w : World} {q : Queue} {xs : Cells} (fresh : Ptr)
    (p : QueuePool) (i : ℕ) (req : BrokerRequest) (m : CString)
    → IsKept dirs w q xs
    → get_elem? p.pool i ≡ some q
    → req.payload ≡ some m
    → fresh ≢ null
    → has fresh xs ≡ false
    → new_id xs < 2 ^ 31
    → let c : Cell = record { at = fresh; id = new_id xs; message = m } in
      (dirs' : Assoc Files) × Returns
        (Acted lib
          (create_response lib true 200 (some (codes "Message produced.")) none none)
          (c ∷ xs)
          (c ∷ [])
          p
          i
          q
          dirs
          w
          dirs')
        (produce lib fresh p i req w)
produce-IsKept lib {q} {xs} fresh p i req m k at payload ne out fits =
    let c : Cell = record { at = fresh; id = new_id xs; message = m } in
    let (dirs', made, leaves) = produce_in-IsKept fresh m k ne out fits in
    (
      dirs',
      unfold produce queue_at in
          rw (at, payload)
            (Returns.bind made λ q' w' (name, kept, same). returns (
              refl,
              q',
              put_queue-PutAt p i q' q at,
              name,
              kept,
              KeepsOthers-of (c ∷ []) q.name same leaves.1 kept.disk,
            )),
    )
