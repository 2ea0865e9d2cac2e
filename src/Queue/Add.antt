-- ===== src/Queue/Add.antt =====
-- `Queue_add` of queue/queue.c.
use mathlib.Core.Path.{subst}
use bmb.Base.{
  sym, Bool-cases, inl, inr, ◌^◌, ◌<◌, ◌≡◌, ◌≢◌, refl, true, false, some, [], ◌∷◌, ◌++◌, arith,
  ◌==◌, if◌then◌else◌,
}
use bmb.Run.{ok}
use bmb.Run.Returns.{Returns, returns}
use bmb.Disk.{Files}
use bmb.Disk.Table.{Assoc}
use bmb.Persist.Requests.{Leaves, calm}
use bmb.World.{Ptr, null, text, Node, Heap, World, write}
use bmb.World.Chain.{Cell, Cells, last, has, SameOutside, frame-write}
use bmb.Queue.{Queue, node_set_next, link_root, persist_add, queue_add}
use bmb.Queue.Walk.{IsQueue, load-node}
use bmb.Queue.Kept.{IsKept, new_id, log_of, persist_add-saved}

pub set_next-write :
    (w : World) (p r : Ptr) (n : Node)
    → p ≢ null
    → w.heap p ≡ some n
    → node_set_next p r w
      ≡ ok tt (record w { heap = write w.heap p (some (record n { next = r })) })
unfolding node_set_next
set_next-write w p r n ne at = rw (load-node w p n ne at)

-- The queue after the node `p` has become its root.
abbrev rooted : Queue → Ptr → Queue
rooted q p = record q { root = p; tail = if q.root == null then p else q.tail }

link_root-rooted :
    (w : World) (q : Queue) (p : Ptr) (n : Node)
    → p ≢ null
    → w.heap p ≡ some n
    → link_root q p w
      ≡ ok (rooted q p) (record w { heap = write w.heap p (some (record n { next = q.root })) })
unfolding link_root
link_root-rooted w q p n ne at = elim (Bool-cases (q.root == null)) [
  | inl e ↦ rw e (rw (set_next-write w p null n ne at) (ground arith))
  | inr e ↦ rw e (rw (set_next-write w p q.root n ne at))
]

rooted-IsQueue :
    (h : Heap) (q : Queue) (xs : Cells) (c : Cell) (n : Node)
    → IsQueue h q xs
    → c.at ≢ null
    → has c.at xs ≡ false
    → n.id ≡ c.id
    → n.message ≡ text c.message
    → IsQueue (write h c.at (some (record n { next = q.root }))) (rooted q c.at) (c ∷ xs)
rooted-IsQueue h q xs c n is ne out id message = record {
  root = refl;
  tail = tail_of xs is;
  linked =
      (ne, out, unfold write in ground (arith, is.root), frame-write h c.at _ xs is.linked out);
}
  where
    tail_of :
        (ys : Cells) → IsQueue h q ys → (if q.root == null then c.at else q.tail) ≡ last (c ∷ ys)
    tail_of [] is' = rw is'.root
    tail_of (d ∷ ys) is' = ground (arith, is'.root, is'.tail, is'.linked.0)

-- Adding a node in memory that is not linked yet and has the next id, which fits an `int`, to a
-- queue that agrees with its directory succeeds: the node
-- becomes the root, its message is saved under its id, the queue still agrees with its
-- directory, the directories of other queues keep their nodes, and no other node is written.
pub queue_add-IsKept :
    {dirs : Assoc Files} {w : World} {q : Queue} {xs : Cells} (c : Cell) (n : Node)
    → IsKept dirs w q xs
    → c.at ≢ null
    → has c.at xs ≡ false
    → w.heap c.at ≡ some n
    → n.id ≡ c.id
    → n.message ≡ text c.message
    → c.id ≡ new_id xs
    → c.id < 2 ^ 31
    → (dirs' : Assoc Files) × Returns
        (λ (done, q') w'.
          (done ≡ true)
          × (q'.name ≡ q.name)
          × IsKept dirs' w' q' (c ∷ xs)
          × SameOutside (c ∷ []) w.heap w'.heap)
        (queue_add q c.at w)
      × Leaves dirs q.name (log_of (c ∷ xs)) dirs'
queue_add-IsKept {dirs} {w} {q} {xs} c n k ne out at id message next fits =
    let (dirs', saved, leaves) =
      persist_add-saved k c.at n c.message ne at message (subst (λ i. i < 2 ^ 31) next fits) in
    let leaves' =
      subst (λ i. Leaves dirs q.name (log_of xs ++ (i, c.message) ∷ []) dirs') (sym next) leaves in
    (
      dirs',
      unfold queue_add in
          rw (saved, link_root-rooted (record w { disk = calm dirs' }) q c.at n ne at)
            (returns (
              refl,
              refl,
              record {
                queue = rooted-IsQueue w.heap q xs c n k.queue ne out id message;
                saved = k.saved;
                disk = refl;
                directory = leaves'.0;
                short = k.short;
              },
              λ a o. unfold write in ground arith,
            )),
      leaves',
    )

-- A node that is added to a queue that is not saved becomes its root; the disk is not touched.
pub queue_add_unsaved :
    (w : World) (q : Queue) (xs : Cells) (c : Cell) (n : Node)
    → IsQueue w.heap q xs
    → q.persist ≡ false
    → c.at ≢ null
    → has c.at xs ≡ false
    → w.heap c.at ≡ some n
    → n.id ≡ c.id
    → n.message ≡ text c.message
    → Returns
        (λ (done, q') w'.
          (done ≡ true)
          × (q'.name ≡ q.name)
          × (q'.persist ≡ false)
          × IsQueue w'.heap q' (c ∷ xs)
          × (w'.disk ≡ w.disk)
          × SameOutside (c ∷ []) w.heap w'.heap)
        (queue_add q c.at w)
unfolding queue_add
queue_add_unsaved w q xs c n is unsaved ne out at id message =
    let skipped : persist_add q c.at w ≡ ok true w = unfold persist_add in rw unsaved in
    rw (skipped, link_root-rooted w q c.at n ne at)
      (returns (
        refl,
        refl,
        unsaved,
        rooted-IsQueue w.heap q xs c n is ne out id message,
        refl,
        λ a o. unfold write in ground arith,
      ))
