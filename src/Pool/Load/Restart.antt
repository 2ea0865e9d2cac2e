-- ===== src/Pool/Load/Restart.antt =====
-- The outer loop of `queue_pool_load` in queue/queue_pool.c, for one queue.
use bmb.Base.{
  ℕ, suc, ◌≡◌, ◌≢◌, refl, sym, ◌∙◌, ap, true, false, Option, none, some, List, [], ◌∷◌, ◌++◌, arith,
  length, get_elem?, inl, inr, Bool-cases,
}
use mathlib.Core.Path.{subst}
use mathlib.Core.Option
use bmb.Base.Text.{CString, str_eq, str_eq_refl}
use bmb.Run.{ok}
use bmb.Run.Returns
use bmb.Run.Returns.{Returns, returns}
use bmb.Disk.{Files}
use bmb.Disk.Table.{Assoc}
use bmb.Persist.{read_queue, get_next_id, ids_data, id_data, succeeded, persist_dispatch}
use bmb.Persist.Store.{Log, ids, last_id}
use bmb.Persist.Requests.{
  HasQueue, IsShort, request, calm, read_queue-ids_of_log, get_next_id-last_id,
}
use bmb.World.{Ptr, null, World, on_disk}
use bmb.Queue.{Queue, queue_new, queue_reset}
use bmb.Queue.Kept.{IsKept, log_of}
use bmb.Pool.{
  QueuePool, allocated, queue_pool_add, queue_pool_get_by_name, index_of, queue_at, put_at,
  put_queue,
}
use bmb.Pool.Load.{succeed_or_exit, ids_in, load_queue}
use bmb.Pool.Load.Nodes.{IsFresh, AllSurvive, loaded, log_of-loaded, load_nodes-from}

map-none : (found : Option ℕ) → Option.map suc found ≡ none → found ≡ none
map-none none e = refl
map-none (some i) e = absurd (cc)

index_of-append :
    (name : CString) (qs : List Queue) (q : Queue)
    → index_of name qs ≡ none
    → q.name ≡ name
    → index_of name (qs ++ q ∷ []) ≡ some (length qs)
unfolding index_of
index_of-append name [] q absent named = rw (named, str_eq_refl name)
index_of-append name (r ∷ qs) q absent named = elim (Bool-cases (str_eq r.name name)) [
  | inl e ↦ absurd (ground arith)
  | inr e ↦ rw (e, index_of-append name qs q (not_found e) named)
]
  where
    not_found : str_eq r.name name ≡ false → index_of name qs ≡ none
    not_found e =
        let stepped : index_of name (r ∷ qs) ≡ Option.map suc (index_of name qs) = rw e in
        map-none (index_of name qs) (sym stepped ∙ absent)

get_elem?-append_last :
    (qs : List Queue) (q : Queue) → get_elem? (qs ++ q ∷ []) (length qs) ≡ some q
get_elem?-append_last [] q = refl
get_elem?-append_last (r ∷ qs) q = get_elem?-append_last qs q

put_at-append_last :
    (qs : List Queue) (q r : Queue) → put_at (qs ++ q ∷ []) (length qs) r ≡ qs ++ r ∷ []
unfolding put_at
put_at-append_last [] q r = refl
put_at-append_last (s ∷ qs) q r = ap (◌∷◌ s) (put_at-append_last qs q r)

fresh_queue : CString → Queue
fresh_queue name = record { name = name; root = null; tail = null; persist = true }

-- The pool with the new queue.
with_last : QueuePool → Queue → QueuePool
with_last p q = record { pool = p.pool ++ q ∷ []; memory = allocated }

put_queue-with_last :
    (p : QueuePool) (q r : Queue)
    → (put_queue (with_last p q) (length p.pool) r).pool ≡ p.pool ++ r ∷ []
unfolding put_queue with_last
put_queue-with_last p q r = put_at-append_last p.pool q r

-- On a disk on which no call fails, for a short name that no queue of the pool has, a directory
-- that holds the nodes of a log, whose messages are not empty and have no byte 255, is loaded to
-- the end as a queue at the end of the pool: it agrees with the directory, holds the nodes of the
-- log in order, at the addresses that `malloc` gives, which are not NULL and differ from each
-- other, and writes to no other address.
pub load_queue-IsKept :
    {dirs : Assoc Files} {w : World} {log : Log} (fresh : ℕ → Ptr) (p : QueuePool) (name : CString)
    → HasQueue dirs name log
    → IsShort name
    → IsFresh fresh
    → AllSurvive log
    → w.disk ≡ calm dirs
    → queue_pool_get_by_name p (some name) ≡ none
    → Returns
        (λ p' w'.
          (q : Queue) × (p'.pool ≡ p.pool ++ q ∷ [])
          × (q.name ≡ name)
          × IsKept dirs w' q (loaded fresh [] log)
          × (log_of (loaded fresh [] log) ≡ log)
          × ((a : Ptr) → ((n : ℕ) → a ≢ fresh n) → w'.heap a ≡ w.heap a))
        (load_queue fresh p name w)
load_queue-IsKept {dirs} {w} {log} fresh p name d short f alive disk absent =
    let p1 = with_last p (fresh_queue name) in
    let q0 : Queue = record (fresh_queue name) { persist = false } in
    let whole = log_of-loaded fresh [] log in
    let read : on_disk (persist_dispatch (request read_queue name 0 none)) w
        ≡ ok (succeeded (ids_data (ids log))) w =
      rw (disk, read_queue-ids_of_log d short, ← disk) in
    let added : queue_pool_add p name true w ≡ ok (true, p1) w =
      unfold queue_pool_add queue_new queue_reset with_last fresh_queue in refl in
    let found : queue_pool_get_by_name p1 (some name) ≡ some (length p.pool) =
      unfold queue_pool_get_by_name with_last fresh_queue in
      index_of-append name p.pool (fresh_queue name) absent refl in
    let there : queue_at p1 (length p.pool) w ≡ ok (fresh_queue name) w =
      unfold queue_at with_last in rw (get_elem?-append_last p.pool (fresh_queue name)) in
    let nodes =
      load_nodes-from d short fresh w q0 [] 0 [] log f refl d.is_log tt disk
        (unfold fresh_queue in record { root = refl; tail = refl; linked = tt }) refl alive in
    unfold load_queue succeed_or_exit ids_in in
    rw (read, added, found)
      (rw there (
        Returns.bind nodes λ q' w' (named, still, is, same, apart).
          let calmed = same ∙ disk in
          let next : on_disk (persist_dispatch (request get_next_id name 0 none)) w'
              ≡ ok (succeeded (id_data (suc (last_id 0 log)))) w' =
            rw (calmed, get_next_id-last_id d short, ← calmed) in
          let owner : q'.name ≡ name = named ∙ unfold fresh_queue in refl in
          rw next (
            returns (
              record q' { persist = true },
              put_queue-with_last p (fresh_queue name) (record q' { persist = true }),
              owner,
              record {
                queue = record { root = is.root; tail = is.tail; linked = is.linked };
                saved = refl;
                disk = calmed;
                directory =
                    subst (λ n. HasQueue dirs n (log_of (loaded fresh [] log))) (sym owner)
                      (subst (HasQueue dirs name) (sym whole) d);
                short = subst IsShort (sym owner) short;
              },
              whole,
              apart,
            ))))
