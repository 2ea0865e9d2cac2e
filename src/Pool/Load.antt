-- ===== src/Pool/Load.antt =====
-- `queue_pool_load` of queue/queue_pool.c: the queues of the disk are read into memory. `fresh` gives
-- the address at which `malloc` puts the node of a queue with an id.
pub mod Nodes
pub mod Restart
pub mod Awaited
pub mod Startup
pub mod Failing
use bmb.Base.{ℕ, Bool, true, false, Option, none, some, List, [], ◌∷◌, if◌then◌else◌, length}
use bmb.Base.Text.{CString}
use bmb.Run.{Cmd, pure, crashes, exited, required, ◌>>=◌, ◌>>◌}
use bmb.Util.Decimal.{ℤ, to_unsigned}
use bmb.Persist.{
  PersistRequest, PersistResponse, PersistData, ids_data, names_data, text_data, get_next_id,
  get_queue_list, read_node, read_queue, persist_dispatch,
}
use bmb.Persist.Requests.{request}
use bmb.World.{Ptr, World, on_disk}
use bmb.Queue.{Queue, node_new, node_set_message, queue_add}
use bmb.Pool.{QueuePool, queue_pool_add, queue_pool_get_by_name, queue_at, put_queue}

-- A failed request ends the process.
succeed_or_exit : PersistResponse → Cmd World PersistData
succeed_or_exit res = if res.success then pure res.payload else (λ _. exited)

text_in : PersistData → Cmd World CString
text_in (text_data s) = pure s
text_in _ = crashes

ids_in : PersistData → Cmd World (List ℤ)
ids_in (ids_data ids) = pure ids
ids_in _ = crashes

names_in : PersistData → Cmd World (List CString)
names_in (names_data names) = pure names
names_in _ = crashes

load_node : (ℕ → Ptr) → CString → Queue → ℤ → Cmd World Queue
unfolding succeed_or_exit text_in
load_node fresh name q i = do
  res ← on_disk (persist_dispatch (request read_node name (to_unsigned i) none))
  payload ← succeed_or_exit res
  content ← text_in payload
  node ← node_new (fresh (to_unsigned i)) (to_unsigned i)
  node_set_message node content (length content)
  (added, q') ← queue_add q node
  pure q'

-- The inner loop.
pub load_nodes : (ℕ → Ptr) → CString → Queue → List ℤ → Cmd World Queue
load_nodes fresh name q [] = pure q
load_nodes fresh name q (i ∷ ids) = do q' ← load_node fresh name q i; load_nodes fresh name q' ids

-- The queue that was added is found by its name, and is not saved while it is loaded. The next id
-- is asked for, and only printed.
load_found : (ℕ → Ptr) → CString → List ℤ → QueuePool → Option ℕ → Cmd World QueuePool
load_found fresh name ids p found = do
  i ← required found
  q ← queue_at p i
  q' ← load_nodes fresh name (record q { persist = false }) ids
  res ← on_disk (persist_dispatch (request get_next_id name 0 none))
  pure (put_queue p i (record q' { persist = true }))

pub load_queue : (ℕ → Ptr) → QueuePool → CString → Cmd World QueuePool
unfolding load_found ids_in succeed_or_exit
load_queue fresh p name = do
  res ← on_disk (persist_dispatch (request read_queue name 0 none))
  payload ← succeed_or_exit res
  ids ← ids_in payload
  (added, p') ← queue_pool_add p name true
  load_found fresh name ids p' (queue_pool_get_by_name p' (some name))

-- The outer loop.
load_queues : (CString → ℕ → Ptr) → QueuePool → List CString → Cmd World QueuePool
load_queues fresh p [] = pure p
load_queues fresh p (name ∷ names) = do
  p' ← load_queue (fresh name) p name
  load_queues fresh p' names

abbrev list_request : PersistRequest
list_request = record { kind = get_queue_list; queue_name = none; node_id = 0; message = none }

pub queue_pool_load : (CString → ℕ → Ptr) → QueuePool → Cmd World QueuePool
unfolding load_queues names_in succeed_or_exit
queue_pool_load fresh p = do
  res ← on_disk (persist_dispatch list_request)
  payload ← succeed_or_exit res
  names ← names_in payload
  load_queues fresh p names
