-- ===== src/Pool/Removal.antt =====
-- `queue_pool_remove_by_name`, `queue_pool_clear_nulls` and `queue_pool_destruct` of queue/queue_pool.c.
use bmb.Base.{
  ℕ, zero, suc, ◌+◌, ◌-◌, ◌<◌, ◌≤◌, ◌≡◌, refl, ap, ◌∙◌, true, Option, none, some, if◌then◌else◌,
  List, [], ◌∷◌, map, arith, length, get_elem?,
}
use bmb.Run.{crash}
use bmb.Run.Returns
use bmb.Run.Returns.{Returns, returns}
use bmb.Disk.{Files}
use bmb.Disk.Table.{Assoc, find}
use bmb.Persist.Requests.{SameOthers, calm}
use bmb.Persist.Requests.Removal.{remove_queue-gone}
use bmb.World.{Ptr, World}
use bmb.World.Chain.{Cells, has}
use bmb.Queue.{Queue}
use bmb.Queue.Walk.{IsQueue}
use bmb.Queue.Kept.{IsKept}
use bmb.Queue.Clear.{Freed, queue_clear-Freed}
use bmb.Pool.{
  QueuePool, allocated, non_nulls, null_count, take, null_at, queue_pool_clear_nulls,
  queue_pool_destruct, clear_all, free_array, queue_at, remove_at, queue_pool_remove_by_name,
  queue_pool_get_by_name,
}

-- The list without the element at the index.
abbrev pub erase_idx : List Queue → ℕ → List Queue
erase_idx [] i = []
erase_idx (q ∷ qs) zero = qs
erase_idx (q ∷ qs) (suc i) = q ∷ erase_idx qs i

non_nulls-some : (qs : List Queue) → non_nulls (map some qs) ≡ qs
unfolding non_nulls
non_nulls-some [] = refl
non_nulls-some (q ∷ qs) = ap (◌∷◌ q) (non_nulls-some qs)

non_nulls-null_at :
    (i : ℕ) (qs : List Queue) → i < length qs → non_nulls (null_at i qs) ≡ erase_idx qs i
unfolding null_at non_nulls
non_nulls-null_at i [] h = absurd (omega arith)
non_nulls-null_at zero (q ∷ qs) h = non_nulls-some qs
non_nulls-null_at (suc i) (q ∷ qs) h = ap (◌∷◌ q) (non_nulls-null_at i qs (omega arith))

-- The number of slots less the NULLs is the number of queues.
length-non_nulls :
    (slots : List (Option Queue)) → length slots ≡ null_count slots + length (non_nulls slots)
unfolding null_count non_nulls
length-non_nulls [] = refl
length-non_nulls (none ∷ slots) = omega (arith, length-non_nulls slots)
length-non_nulls (some q ∷ slots) = omega (arith, length-non_nulls slots)

take-length : (qs : List Queue) → take (length qs) qs ≡ qs
unfolding take
take-length [] = refl
take-length (q ∷ qs) = ap (◌∷◌ q) (take-length qs)

-- Clearing the NULLs of any array keeps exactly its queues, in order.
clear_nulls-non_nulls :
    (slots : List (Option Queue)) → (queue_pool_clear_nulls slots).pool ≡ non_nulls slots
unfolding queue_pool_clear_nulls
clear_nulls-non_nulls slots =
    let n : length slots - null_count slots ≡ length (non_nulls slots) =
      omega (arith, length-non_nulls slots) in
    rw (n, take-length (non_nulls slots))

lt_of_get_elem? : (qs : List Queue) (i : ℕ) (q : Queue) → get_elem? qs i ≡ some q → i < length qs
lt_of_get_elem? [] i q h = absurd (cc)
lt_of_get_elem? (r ∷ qs) zero q h = omega arith
lt_of_get_elem? (r ∷ qs) (suc i) q h = omega (arith, lt_of_get_elem? qs i q h)

-- Given as many rounds as the queue has nodes, removing the queue at an index frees exactly its
-- nodes and leaves the other queues of the pool in order.
pub remove_at-erase_idx :
    (w : World) (p : QueuePool) {q : Queue} {xs : Cells} (rounds i : ℕ)
    → get_elem? p.pool i ≡ some q
    → IsQueue w.heap q xs
    → length xs ≤ rounds
    → Returns
        (λ (gone, p') w'. (gone ≡ true) × (p'.pool ≡ erase_idx p.pool i) × Freed xs w w')
        (remove_at rounds p (some i) w)
unfolding remove_at queue_at
remove_at-erase_idx w p {q} rounds i at is enough = rw at (
    Returns.bind (queue_clear-Freed {w = w} rounds is enough) λ _ w' freed. returns (
      refl,
      clear_nulls-non_nulls (null_at i p.pool)
          ∙ non_nulls-null_at i p.pool (lt_of_get_elem? p.pool i q at),
      freed,
    ))

-- Once the only queue of a pool is removed, giving the pool back frees its array a second time.
pub queue_pool_destruct-remove_at :
    (w : World) (q : Queue) {xs : Cells} (rounds : ℕ)
    → IsQueue w.heap q xs
    → length xs ≤ rounds
    → Returns
        (λ (gone, p') w'. queue_pool_destruct rounds p' w' ≡ crash)
        (remove_at rounds (record { pool = q ∷ []; memory = allocated }) (some 0) w)
unfolding remove_at queue_at null_at queue_pool_destruct queue_pool_clear_nulls null_count non_nulls
    take clear_all free_array
queue_pool_destruct-remove_at w q rounds is enough =
    Returns.bind (queue_clear-Freed {w = w} rounds is enough) λ _ w' freed. returns refl

-- Given as many rounds as the queue has nodes, removing a queue of the pool that agrees with its
-- directory takes it from the pool, the memory and the disk.
pub remove_by_name-gone :
    {dirs : Assoc Files} {w : World} {q : Queue} {xs : Cells} (rounds i : ℕ) (p : QueuePool)
    → IsKept dirs w q xs
    → get_elem? p.pool i ≡ some q
    → queue_pool_get_by_name p (some q.name) ≡ some i
    → length xs ≤ rounds
    → (dirs' : Assoc Files) × Returns
        (λ (gone, p') w'.
          (gone ≡ true)
          × (p'.pool ≡ erase_idx p.pool i)
          × ((a : Ptr) → w'.heap a ≡ (if has a xs then none else w.heap a))
          × (w'.disk ≡ calm dirs'))
        (queue_pool_remove_by_name rounds p q.name w)
      × (find q.name dirs' ≡ none)
      × SameOthers q.name dirs dirs'
unfolding queue_pool_remove_by_name queue_pool_get_by_name
remove_by_name-gone {w} {xs} rounds i p k at found enough =
    let (dirs', removed, absent, others) = remove_queue-gone k.short k.directory in
    (
      dirs',
      rw (k.disk, removed, found)
          (Returns.mono
            (remove_at-erase_idx (record w { disk = calm dirs' }) p rounds i at k.queue enough)
            λ r w' (gone, pool, freed). (gone, pool, freed.0, freed.1)),
      absent,
      others,
    )
