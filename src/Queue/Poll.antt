-- ===== src/Queue/Poll.antt =====
-- `Queue_poll` of queue/queue.c.
use bmb.Base.{
  ℕ, ◌<◌, ◌≡◌, refl, ◌∙◌, sym, false, some, [], ◌∷◌, ◌++◌, arith, ◌==◌, length, length-append,
}
use bmb.Run.{ok}
use bmb.Run.Returns
use bmb.Run.Returns.{Returns, returns}
use bmb.Disk.{Files}
use bmb.Disk.Table.{Assoc}
use bmb.Persist.Requests.{Leaves, calm}
use bmb.World.{Ptr, null, World, write}
use bmb.World.Chain.{
  Cell, Cells, node_of, last, has-append, Linked-cut, Linked-last, Linked-before_last, first-append,
  not-has-last, SameOutside, last-append, EndView, empty_end, last_end, end_view,
}
use bmb.Queue.{Queue, queue_reset, unlink_tail, poll_nonempty, queue_poll}
use bmb.Queue.Walk.{IsQueue, queue_is_empty-length, queue_get_next_tail-last}
use bmb.Queue.Add.{set_next-write}
use bmb.Queue.Kept.{IsKept, log_of, persist_remove-gone}

-- The queue and the heap after the tail `c` is unlinked from `xs`.
abbrev pub Unlinked : World → Queue → Cells → Cell → Ptr × Queue → World → Type 0
Unlinked w q xs c (p, q') w' =
    (p ≡ c.at)
    × IsQueue w'.heap q' xs
    × (q'.name ≡ q.name)
    × (q'.persist ≡ q.persist)
    × (w'.heap c.at ≡ some (node_of c null))
    × SameOutside xs w.heap w'.heap
    × (w'.disk ≡ w.disk)

unlink_tail-Unlinked :
    (w : World) (q : Queue) {xs : Cells} (c : Cell)
    → EndView xs
    → IsQueue w.heap q (xs ++ c ∷ [])
    → Returns (Unlinked w q xs c) (unlink_tail q (last xs) w)
unfolding unlink_tail queue_reset
unlink_tail-Unlinked w q c empty_end is = returns (
  is.tail,
  record { root = refl; tail = refl; linked = tt },
  refl,
  refl,
  is.linked.2,
  λ a o. refl,
  refl,
)
unlink_tail-Unlinked w q c (last_end xs d) is =
    let two = Linked-before_last w.heap xs d c is.linked in
    let out = not-has-last w.heap (xs ++ d ∷ []) c is.linked in
    let nonnull : (d.at == null) ≡ false = ground (arith, two.0) in
    rw (last-append, nonnull, set_next-write w d.at null (node_of d c.at) two.0 two.2)
      (returns (
        rw is.tail (last-append (xs ++ d ∷ []) c),
        record {
          root = is.root ∙ first-append xs d c;
          tail = sym (last-append xs d);
          linked = Linked-cut w.heap xs d c is.linked;
        },
        refl,
        refl,
        unfold write in
            ground (
              arith,
              (Linked-last w.heap (xs ++ d ∷ []) c is.linked).2,
              out,
              has-append c.at xs (d ∷ []),
            ),
        λ a o. unfold write in ground (arith, has-append a xs (d ∷ [])),
        refl,
      ))

-- Given as many rounds as there are nodes, taking from a queue that agrees with its directory and
-- has a node gives the tail node, which is the oldest,
-- unlinked and still allocated. The queue that is left agrees with its directory, which has lost
-- the node's file; the directories of other queues keep their nodes, and no node outside the
-- queue that is left is written.
pub queue_poll-IsKept :
    {dirs : Assoc Files} {w : World} {q : Queue} (xs : Cells) (c : Cell) (rounds : ℕ)
    → IsKept dirs w q (xs ++ c ∷ [])
    → length xs < rounds
    → (dirs' : Assoc Files) × Returns
        (λ (p, q') w'.
          (p ≡ c.at)
          × (q'.name ≡ q.name)
          × IsKept dirs' w' q' xs
          × (w'.heap c.at ≡ some (node_of c null))
          × SameOutside xs w.heap w'.heap)
        (queue_poll rounds q w)
      × Leaves dirs q.name (log_of xs) dirs'
queue_poll-IsKept {dirs} {w} {q} xs c rounds k enough =
    let tail_node = Linked-last w.heap xs c k.queue.linked in
    let (dirs', gone, leaves) = persist_remove-gone xs c k tail_node.0 tail_node.2 in
    let size = length-append xs (c ∷ []) in
    let full : (length (xs ++ c ∷ []) == 0) ≡ false = ground (arith, size) in
    (
      dirs',
      unfold queue_poll poll_nonempty in
          rw
            (
              queue_is_empty-length {w = w} k.queue rounds (omega (arith, size)),
              full,
              queue_get_next_tail-last w q rounds c (end_view xs) k.queue enough,
              gone,
            )
            (Returns.mono
              (unlink_tail-Unlinked (record w { disk = calm dirs' }) q c (end_view xs) k.queue)
              λ (p, q') w' u. (
                u.0,
                u.2,
                record {
                  queue = u.1;
                  saved = u.3 ∙ k.saved;
                  disk = u.6;
                  directory = rw u.2 leaves.0;
                  short = rw u.2 k.short;
                },
                u.4,
                u.5,
              )),
      leaves,
    )

-- From an empty queue nothing is taken, and nothing changes.
pub queue_poll_empty :
    (w : World) (q : Queue) (rounds : ℕ)
    → IsQueue w.heap q []
    → queue_poll rounds q w ≡ ok (null, q) w
unfolding queue_poll
queue_poll_empty w q rounds is = rw (queue_is_empty-length {w = w} is rounds (omega arith))
