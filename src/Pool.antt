-- ===== src/Pool.antt =====
-- queue/queue_pool.c: the array of all queues. A `Queue *` of the pool is an index of the array.
pub mod Names
pub mod Kept
pub mod Removal
pub mod Destruct
pub mod Load
use mathlib.Core.Option
use bmb.Base.{
  ℕ, zero, suc, ◌-◌, ◌+◌, Bool, true, false, Option, none, some, List, [], ◌∷◌, ◌++◌, map, ◌==◌,
  if◌then◌else◌, length, get_elem?,
}
use bmb.Base.Text.{CString, str_eq}
use bmb.Run.{Cmd, pure, crashes, required, ◌>>=◌, ◌>>◌}
use bmb.Persist.{PersistResponse, add_queue, remove_queue, persist_dispatch}
use bmb.Persist.Requests.{request}
use bmb.World.{World, on_disk}
use bmb.Queue.{Queue, queue_new, queue_clear}

-- The memory that `pool` points to: NULL, an array, or an array that was given back.
pub data ArrayMemory : Type 0 where
  unallocated : ArrayMemory
  allocated : ArrayMemory
  given_back : ArrayMemory

-- `struct queue_pool`; `length` is the length of the list.
pub record QueuePool : Type 0 where
  pub pool : List Queue
  pub memory : ArrayMemory

unfoldable pub queue_pool_init : QueuePool
queue_pool_init = record { pool = []; memory = unallocated }

-- The array gets room for one more queue. `realloc` succeeds.
append_queue : Queue → QueuePool → QueuePool
append_queue q p = record { pool = p.pool ++ q ∷ []; memory = allocated }

unfoldable pub create_directory : CString → Cmd World Bool
create_directory name = do
  res ← on_disk (persist_dispatch (request add_queue name 0 none))
  pure res.success

-- Was the queue added? At startup its directory is there.
unfoldable pub queue_pool_add : QueuePool → CString → Bool → Cmd World (Bool × QueuePool)
unfolding create_directory append_queue queue_new
queue_pool_add p name init = do
  made ← if init then pure true else create_directory name
  pure (if made then (true, append_queue (queue_new name) p) else (false, p))

-- `tmpPool`: the queues that are not NULL.
non_nulls : List (Option Queue) → List Queue
non_nulls [] = []
non_nulls (none ∷ slots) = non_nulls slots
non_nulls (some q ∷ slots) = q ∷ non_nulls slots

null_count : List (Option Queue) → ℕ
null_count [] = 0
null_count (none ∷ slots) = suc (null_count slots)
null_count (some q ∷ slots) = null_count slots

take : ℕ → List Queue → List Queue
take (suc n) (q ∷ qs) = q ∷ take n qs
take _ _ = []

-- The array is given back when no queue is left.
queue_pool_clear_nulls : List (Option Queue) → QueuePool
queue_pool_clear_nulls slots =
    let n = length slots - null_count slots in
    record { pool = take n (non_nulls slots); memory = if n == 0 then given_back else allocated }

unfoldable pub queue_pool_get_all_names : QueuePool → List CString
queue_pool_get_all_names p = map (λ q. q.name) p.pool

-- The index of the first queue with the name.
index_of : CString → List Queue → Option ℕ
index_of name [] = none
index_of name (q ∷ qs) = if str_eq q.name name then some 0 else Option.map suc (index_of name qs)

unfoldable pub queue_pool_get_by_name : QueuePool → Option CString → Option ℕ
unfolding index_of
queue_pool_get_by_name p none = none
queue_pool_get_by_name p (some name) = index_of name p.pool

-- The array with NULL at the index.
null_at : ℕ → List Queue → List (Option Queue)
null_at i [] = []
null_at zero (q ∷ qs) = none ∷ map some qs
null_at (suc i) (q ∷ qs) = some q ∷ null_at i qs

-- A queue of the array, by its index.
unfoldable pub queue_at : QueuePool → ℕ → Cmd World Queue
queue_at p i = required (get_elem? p.pool i)

unfoldable pub put_at : List Queue → ℕ → Queue → List Queue
put_at [] i q = []
put_at (r ∷ qs) zero q = q ∷ qs
put_at (r ∷ qs) (suc i) q = r ∷ put_at qs i q

-- The queue at the index has changed.
unfoldable pub put_queue : QueuePool → ℕ → Queue → QueuePool
unfolding put_at
put_queue p i q = record p { pool = put_at p.pool i q }

pub remove_at : ℕ → QueuePool → Option ℕ → Cmd World (Bool × QueuePool)
unfolding queue_at null_at queue_pool_clear_nulls
remove_at rounds p none = pure (false, p)
remove_at rounds p (some i) = do
  q ← queue_at p i
  queue_clear rounds q
  pure (true, queue_pool_clear_nulls (null_at i p.pool))

-- Was the queue removed?
pub queue_pool_remove_by_name : ℕ → QueuePool → CString → Cmd World (Bool × QueuePool)
queue_pool_remove_by_name rounds p name = do
  res ← on_disk (persist_dispatch (request remove_queue name 0 none))
  if res.success then remove_at rounds p (index_of name p.pool) else pure (false, p)

clear_all : ℕ → List Queue → Cmd World (Unit {0})
clear_all rounds [] = pure tt
clear_all rounds (q ∷ qs) = do queue_clear rounds q; clear_all rounds qs

-- NULL may be freed, memory that was given back may not.
free_array : ArrayMemory → Cmd World (Unit {0})
free_array unallocated = pure tt
free_array allocated = pure tt
free_array given_back = crashes

pub queue_pool_destruct : ℕ → QueuePool → Cmd World (Unit {0})
queue_pool_destruct rounds p = do clear_all rounds p.pool; free_array p.memory
