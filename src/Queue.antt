-- ===== src/Queue.antt =====
-- queue/queue_node.c and queue/queue.c: nodes and queues in memory, over `World`. A `Queue` value
-- stands for what a `struct queue` holds; a function that updates one returns the new value. A
-- loop along a queue is given a number of rounds.
pub mod Walk
pub mod Kept
pub mod Add
pub mod Poll
pub mod Clear
pub mod Fresh
pub mod Failing
use bmb.Base.{
  ℕ, zero, suc, ◌+◌, ◌-◌, Bool, true, false, not, Option, none, some, List, [], ◌∷◌, ltb, leb, ◌==◌,
  if◌then◌else◌, length,
}
use bmb.Base.Text.{CString}
use bmb.Run.{Cmd, ok, pure, crashes, exited, out_of_rounds, ◌>>=◌, ◌>>◌}
use bmb.Persist.{
  PersistRequest, PersistResponse, PersistData, id_data, get_next_id, add_node, remove_node,
  persist_dispatch,
}
use bmb.Persist.Requests.{request}
use bmb.World.{Ptr, null, Message, no_message, text, freed, Node, World, store, load, on_disk}

-- mem_alloc ends the process when `malloc` gives NULL; `fresh` is what `malloc` gives.
unfoldable pub mem_alloc : Ptr → Cmd World (Unit {0})
mem_alloc fresh = if fresh == null then (λ _. exited) else pure tt

pub node_new : Ptr → ℕ → Cmd World Ptr
unfolding mem_alloc
node_new fresh id = do
  mem_alloc fresh
  store fresh (some (record { id = id; message = no_message; next = null }))
  pure fresh

-- A text is freed once.
cleared : Message → Cmd World Message
cleared no_message = pure no_message
cleared (text s) = pure freed
cleared freed = crashes

pub node_clear_message : Ptr → Cmd World (Unit {0})
unfolding cleared
node_clear_message p = do
  n ← load p
  m ← cleared n.message
  store p (some (record n { message = m }))

readable : Message → Cmd World (Option CString)
readable no_message = pure none
readable (text s) = pure (some s)
readable freed = crashes

unfoldable pub node_get_message : Ptr → Cmd World (Option CString)
unfolding readable
node_get_message p = do n ← load p; readable n.message

-- `strcpy` into a buffer of `size + 1` bytes
pub node_set_message : Ptr → CString → ℕ → Cmd World (Unit {0})
node_set_message p s size = do
  node_clear_message p
  if leb (length s) size then pure tt else crashes
  n ← load p
  store p (some (record n { message = text s }))

pub node_get_next : Ptr → Cmd World Ptr
node_get_next p = do n ← load p; pure n.next

pub node_set_next : Ptr → Ptr → Cmd World (Unit {0})
node_set_next p q = do n ← load p; store p (some (record n { next = q }))

pub node_destruct : Ptr → Cmd World (Unit {0})
node_destruct p = do node_clear_message p; load p; store p none

-- `struct queue`
pub record Queue : Type 0 where
  pub name : CString
  pub root : Ptr
  pub tail : Ptr
  pub persist : Bool

unfoldable pub queue_reset : Queue → Queue
queue_reset q = record q { root = null; tail = null }

unfoldable pub queue_new : CString → Queue
unfolding queue_reset
queue_new name = queue_reset (record { name = name; root = null; tail = null; persist = true })

size_loop : ℕ → Ptr → ℕ → Cmd World ℕ
size_loop zero element counter = λ _. out_of_rounds
size_loop (suc k) element counter = do
  next ← node_get_next element
  if next == null then pure counter else size_loop k next (counter + 1)

pub queue_size : ℕ → Queue → Cmd World ℕ
queue_size rounds q = if q.root == null then pure 0 else size_loop rounds q.root 1

-- The rounds of the loop of `Queue_get` after the first.
get_loop : Ptr → ℕ → Cmd World Ptr
get_loop el zero = pure el
get_loop el (suc k) = do next ← node_get_next el; get_loop next k

pub queue_get : Queue → ℕ → Cmd World Ptr
queue_get q index = get_loop q.root index

pub queue_get_next_tail : ℕ → Queue → Cmd World Ptr
queue_get_next_tail rounds q = do
  size ← queue_size rounds q
  if leb size 1 then pure null else queue_get q (size - 2)

pub queue_is_empty : ℕ → Queue → Cmd World Bool
queue_is_empty rounds q = do size ← queue_size rounds q; pure (if ltb 0 size then false else true)

pub queue_peek : Queue → Ptr
queue_peek q = q.tail

-- `*((unsigned int *) response.data)`
pub id_of : PersistData → Cmd World ℕ
id_of (id_data n) = pure n
id_of _ = crashes

pub next_id : Queue → Cmd World ℕ
next_id q = do
  res ← on_disk (persist_dispatch (request get_next_id q.name 0 none))
  id_of res.payload

pub persist_add : Queue → Ptr → Cmd World Bool
persist_add q rt =
    if q.persist
    then (do
      id ← next_id q
      message ← node_get_message rt
      res ← on_disk (persist_dispatch (request add_node q.name id message))
      pure res.success)
    else pure true

link_root : Queue → Ptr → Cmd World Queue
link_root q rt =
    if q.root == null
    then (do node_set_next rt null; pure (record q { root = rt; tail = rt }))
    else (do node_set_next rt q.root; pure (record q { root = rt }))

-- Was the node added?
pub queue_add : Queue → Ptr → Cmd World (Bool × Queue)
queue_add q rt = do
  saved ← persist_add q rt
  if saved then (do q' ← link_root q rt; pure (true, q')) else pure (false, q)

pub persist_remove : Queue → Cmd World Bool
persist_remove q =
    if q.persist
    then (do
      n ← load q.tail
      res ← on_disk (persist_dispatch (request remove_node q.name n.id none))
      pure res.success)
    else pure true

unlink_tail : Queue → Ptr → Cmd World (Ptr × Queue)
unlink_tail q next_tail =
    if next_tail == null
    then pure (q.tail, queue_reset q)
    else (do node_set_next next_tail null; pure (q.tail, record q { tail = next_tail }))

poll_nonempty : ℕ → Queue → Cmd World (Ptr × Queue)
poll_nonempty rounds q = do
  next_tail ← queue_get_next_tail rounds q
  gone ← persist_remove q
  if gone then unlink_tail q next_tail else pure (null, q)

-- NULL for an empty queue and for a node that stays on the disk.
pub queue_poll : ℕ → Queue → Cmd World (Ptr × Queue)
queue_poll rounds q = do
  empty ← queue_is_empty rounds q
  if empty then pure (null, q) else poll_nonempty rounds q

-- The nodes from `el` on, in an array with room for so many.
collect : ℕ → Ptr → Cmd World (List Ptr)
collect zero el = crashes
collect (suc room) el = do
  next ← node_get_next el
  if next == null then pure (el ∷ []) else (do rest ← collect room next; pure (el ∷ rest))

-- The loop over the first elements of the array.
destruct_all : ℕ → List Ptr → Cmd World (Unit {0})
destruct_all zero nodes = pure tt
destruct_all (suc n) [] = crashes
destruct_all (suc n) (p ∷ nodes) = do node_destruct p; destruct_all n nodes

clear_nonempty : ℕ → Queue → Cmd World (Unit {0})
clear_nonempty rounds q = do
  size ← queue_size rounds q
  nodes ← collect size q.root
  destruct_all size nodes

pub queue_clear : ℕ → Queue → Cmd World (Unit {0})
queue_clear rounds q = do
  empty ← queue_is_empty rounds q
  if empty then pure tt else clear_nonempty rounds q
