-- ===== src/Queue/Kept.antt =====
-- When a queue of queue/queue.c agrees with its directory, and its calls of persist/persist.c then.
use mathlib.Core.Path.{subst}
use bmb.Base.{ℕ, suc, ◌^◌, ◌<◌, ◌≡◌, ◌≢◌, refl, true, some, [], ◌∷◌, ◌++◌, arith}
use bmb.Base.Text.{CString}
use bmb.Run.{ok}
use bmb.Disk.{Files}
use bmb.Persist.{id_data}
use bmb.Disk.Table.{Assoc}
use bmb.Persist.Store.{Log, last_id}
use bmb.Persist.Requests.{
  HasQueue, IsShort, Leaves, calm, get_next_id-last_id, add_node-append, remove_node-oldest,
}
use bmb.World.{Ptr, null, text, Node, World}
use bmb.World.Chain.{Cell, Cells, node_of, last-append}
use bmb.Queue.{Queue, node_get_message, next_id, persist_add, persist_remove, id_of}
use bmb.Queue.Walk.{IsQueue, load-node}

pub id_of-id_data : (n : ℕ) (w : World) → id_of (id_data n) w ≡ ok n w
unfolding id_of
id_of-id_data n w = refl

-- The nodes of a queue by age: the root is the newest.
abbrev pub log_of : Cells → Log
log_of [] = []
log_of (c ∷ xs) = log_of xs ++ (c.id, c.message) ∷ []

pub log_of-append : (xs : Cells) (c : Cell) → log_of (xs ++ c ∷ []) ≡ (c.id, c.message) ∷ log_of xs
log_of-append [] c = refl
log_of-append (d ∷ xs) c = rw (log_of-append xs c)

-- No call fails, and the directory of the queue holds the queue's nodes.
pub record IsKept (dirs : Assoc Files) (w : World) (q : Queue) (xs : Cells) : Type 0 where
  pub queue : IsQueue w.heap q xs
  pub saved : q.persist ≡ true
  pub disk : w.disk ≡ calm dirs
  pub directory : HasQueue dirs q.name (log_of xs)
  pub short : IsShort q.name

-- The id that the next node of the queue gets.
abbrev pub new_id : Cells → ℕ
new_id xs = suc (last_id 0 (log_of xs))

module _ {dirs : Assoc Files} {w : World} {q : Queue} {xs : Cells} (k : IsKept dirs w q xs) where
  pub next_id-new_id : next_id q w ≡ ok (new_id xs) w
  unfolding next_id id_of
  next_id-new_id = rw (k.disk, get_next_id-last_id k.directory k.short, ← k.disk)

  -- The disk gets the node's message under the next id.
  pub persist_add-saved :
      (p : Ptr) (n : Node) (m : CString)
      → p ≢ null
      → w.heap p ≡ some n
      → n.message ≡ text m
      → new_id xs < 2 ^ 31
      → (dirs' : Assoc Files) × (persist_add q p w ≡ ok true (record w { disk = calm dirs' }))
        × Leaves dirs q.name (log_of xs ++ (new_id xs, m) ∷ []) dirs'
  unfolding next_id
  persist_add-saved p n m ne at message fits =
      let (dirs', added, leaves) =
        add_node-append k.directory k.short (new_id xs) m (omega arith) fits in
      (
        dirs',
        unfold persist_add node_get_message in
            rw (k.saved, next_id-new_id, load-node w p n ne at, message, k.disk, added),
        leaves,
      )

module _ {dirs : Assoc Files} {w : World} {q : Queue} (xs : Cells) (c : Cell)
    (k : IsKept dirs w q (xs ++ c ∷ [])) where
  -- The file of the tail node is removed.
  pub persist_remove-gone :
      c.at ≢ null
      → w.heap c.at ≡ some (node_of c null)
      → (dirs' : Assoc Files) × (persist_remove q w ≡ ok true (record w { disk = calm dirs' }))
        × Leaves dirs q.name (log_of xs) dirs'
  persist_remove-gone ne at =
      let older = subst (HasQueue dirs q.name) (log_of-append xs c) k.directory in
      let (dirs', removed, leaves) = remove_node-oldest older k.short in
      (
        dirs',
        unfold persist_remove in
            rw (
              k.saved,
              k.queue.tail,
              last-append xs c,
              load-node w c.at (node_of c null) ne at,
              k.disk,
              removed,
            ),
        leaves,
      )
