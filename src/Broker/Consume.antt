-- ===== src/Broker/Consume.antt =====
-- `consume` of broker/broker.c.
use bmb.Base.{
  ℕ, ◌<◌, ◌≡◌, ◌≢◌, refl, ◌∙◌, true, false, none, some, List, [], ◌∷◌, ◌++◌, arith, ◌==◌, length,
  length-append, get_elem?,
}
use bmb.Base.Text.{codes}
use bmb.Run.{ok, crash}
use bmb.Run.Returns
use bmb.Run.Returns.{Returns, returns}
use bmb.Disk.{Files}
use bmb.Disk.Table.{Assoc}
use bmb.Util.Url.{decoded, refused, url_decode}
use bmb.Persist.Requests.{Leaves}
use bmb.World.{Ptr, null, World}
use bmb.World.Chain.{Cell, Cells, node_of, has-append, not-has-last, Linked-last, SameOutside}
use bmb.Queue.{Queue, node_get_message}
use bmb.Queue.Walk.{IsQueue, load-node, queue_is_empty-length}
use bmb.Queue.Kept.{IsKept, log_of}
use bmb.Queue.Fresh.{KeepsOthers-of, IsKept-frame}
use bmb.Queue.Poll.{queue_poll-IsKept}
use bmb.Queue.Clear.{destruct-Freed}
use bmb.Pool.{QueuePool, queue_at}
use bmb.Reply.{Cjson, create_response}
use bmb.Broker.{
  c_string, has_nul, decoded_text, decoded_message, consume_nonempty, consume_message, consume,
}
use bmb.Broker.Produce.{Acted, put_queue-PutAt}

get_message-text :
    (w : World) (c : Cell) (next : Ptr)
    → c.at ≢ null
    → w.heap c.at ≡ some (node_of c next)
    → node_get_message c.at w ≡ ok (some c.message) w
unfolding node_get_message
get_message-text w c next ne at = rw (load-node w c.at (node_of c next) ne at)

consume_nonempty-IsKept :
    {dirs : Assoc Files} {w : World} {q : Queue} (xs : Cells) (c : Cell) (rounds : ℕ)
    (bytes : List ℕ)
    → IsKept dirs w q (xs ++ c ∷ [])
    → length xs < rounds
    → url_decode c.message ≡ decoded bytes
    → (dirs' : Assoc Files) × Returns
        (λ (s, q') w'.
          (s ≡ c_string bytes)
          × (q'.name ≡ q.name)
          × IsKept dirs' w' q' xs
          × (w'.heap c.at ≡ none)
          × SameOutside (xs ++ c ∷ []) w.heap w'.heap)
        (consume_nonempty rounds q w)
      × Leaves dirs q.name (log_of xs) dirs'
consume_nonempty-IsKept {w} {q} xs c rounds bytes k enough text =
    let (dirs', polled, leaves) = queue_poll-IsKept xs c rounds k enough in
    let ne = (Linked-last w.heap xs c k.queue.linked).0 in
    let out = not-has-last w.heap xs c k.queue.linked in
    (
      dirs',
      unfold consume_nonempty decoded_message decoded_text in
          Returns.bind polled λ (p, q') w1 (at, name, kept, node, same).
            rw (at, get_message-text w1 c null ne node, text)
              (Returns.bind (destruct-Freed w1 c null ne node) λ _ w2 (gone, still). returns (
                refl,
                name,
                IsKept-frame w2 kept (λ a i. gone a ∙ ground (arith, out)) still,
                gone c.at ∙ ground arith,
                λ a o. gone a ∙ ground (arith, has-append a xs (c ∷ []), same a),
              )),
      leaves,
    )

-- `consume` on a queue of the pool that agrees with its directory, given as many rounds as it has
-- nodes, and whose oldest message can be decoded: the response carries the decoded text of the oldest message, whose node is freed in memory and gone
-- from the disk; the other nodes stay in order, the other entries of the pool are as before, and
-- other queues with names and nodes of their own still agree with their directories.
pub consume-IsKept :
    (lib : Cjson) {dirs : Assoc Files} {w : World} {q : Queue} (xs : Cells) (c : Cell) (rounds : ℕ)
    (p : QueuePool) (i : ℕ) (bytes : List ℕ)
    → IsKept dirs w q (xs ++ c ∷ [])
    → get_elem? p.pool i ≡ some q
    → length xs < rounds
    → url_decode c.message ≡ decoded bytes
    → (dirs' : Assoc Files) × Returns
        (λ r w'.
          Acted lib
            (create_response lib true 200 none (some (c_string bytes)) none)
            xs
            (xs ++ c ∷ [])
            p
            i
            q
            dirs
            w
            dirs'
            r
            w'
          × (w'.heap c.at ≡ none))
        (consume lib rounds p i w)
consume-IsKept lib {w} {q} xs c rounds p i bytes k at enough text =
    let (dirs', taken, leaves) = consume_nonempty-IsKept xs c rounds bytes k enough text in
    let size = length-append xs (c ∷ []) in
    let full : (length (xs ++ c ∷ []) == 0) ≡ false = ground (arith, size) in
    (
      dirs',
      unfold consume consume_message queue_at in
          rw (at, queue_is_empty-length {w = w} k.queue rounds (omega (arith, size)), full)
            (Returns.bind taken λ (s, q') w' (told, name, kept, gone, same). returns (
              (
                rw told,
                q',
                put_queue-PutAt p i q' q at,
                name,
                kept,
                KeepsOthers-of (xs ++ c ∷ []) q.name same leaves.1 kept.disk,
              ),
              gone,
            )),
    )

-- `consume` on a queue with no nodes reports that and changes nothing.
pub consume_empty :
    (lib : Cjson) (w : World) (q : Queue) (rounds : ℕ) (p : QueuePool) (i : ℕ)
    → IsQueue w.heap q []
    → get_elem? p.pool i ≡ some q
    → consume lib rounds p i w
      ≡ ok (create_response lib false 200 (some (codes "Queue is empty.")) none none, p) w
unfolding consume queue_at
consume_empty lib w q rounds p i is at =
    rw (at, queue_is_empty-length {w = w} is rounds (omega arith))

-- `consume` on a queue of the pool that agrees with its directory, given as many rounds as it has
-- nodes, crashes when `url_decode` refuses the oldest message for a malformed escape and has written no NUL
-- before it: its result -1 is not read, and `strlen` runs past the bytes that were written.
pub consume_malformed :
    (lib : Cjson) {dirs : Assoc Files} {w : World} {q : Queue} (xs : Cells) (c : Cell) (rounds : ℕ)
    (p : QueuePool) (i : ℕ) (bytes : List ℕ)
    → IsKept dirs w q (xs ++ c ∷ [])
    → get_elem? p.pool i ≡ some q
    → length xs < rounds
    → url_decode c.message ≡ refused bytes
    → has_nul bytes ≡ false
    → consume lib rounds p i w ≡ crash
consume_malformed lib {w} {q} xs c rounds p i bytes k at enough text no_nul =
    let size = length-append xs (c ∷ []) in
    let full : (length (xs ++ c ∷ []) == 0) ≡ false = ground (arith, size) in
    let (dirs', polled, leaves) = queue_poll-IsKept xs c rounds k enough in
    let ne = (Linked-last w.heap xs c k.queue.linked).0 in
    let lost : consume_nonempty rounds q w ≡ crash =
      unfold consume_nonempty decoded_message decoded_text in
      Returns.bind_crash _ polled λ (node, q') w1 (here, name, kept, still, same).
        rw (here, get_message-text w1 c null ne still, text, no_nul) in
    unfold consume consume_message queue_at in
    rw (at, queue_is_empty-length {w = w} k.queue rounds (omega (arith, size)), full, lost)
