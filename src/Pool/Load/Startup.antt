-- ===== src/Pool/Load/Startup.antt =====
-- `queue_pool_load` of queue/queue_pool.c on all queues of the disk.
use mathlib.Core.Path.{subst}
use bmb.Base.{
  ℕ, ◌≡◌, ◌≢◌, refl, sym, ◌∙◌, ap, true, false, some, [], ◌∷◌, ◌++◌, arith, length, All, Bool-cases,
  inl, inr, ◌==◌,
}
use bmb.Base.Text.{CString, str_eq, str_eq_comm}
use bmb.Run.{ok}
use bmb.Run.Returns
use bmb.Run.Returns.{Returns, returns}
use bmb.Disk.{Files}
use bmb.Disk.Table.{Assoc, keys, has, Distinct, find_of_not_has}
use bmb.Persist.{persist_dispatch, names_data, succeeded}
use bmb.Persist.Store.{Log, messages}
use bmb.Persist.Requests.{calm}
use bmb.Persist.Requests.Listing.{IsEntry, get_queue_list-keys}
use bmb.World.{Ptr, World, on_disk}
use bmb.World.Chain.{Cells, has as has_cell}
use bmb.Queue.{Queue}
use bmb.Queue.Kept.{IsKept, log_of}
use bmb.Queue.Fresh.{IsKept-frame}
use bmb.Pool.{QueuePool, unallocated, queue_pool_init, queue_pool_get_by_name}
use bmb.Pool.Names.{queue_pool_get_by_name-FoundBy}
use bmb.Pool.Kept.{
  Contents, update, texts_of, HasNoName, PoolKept, PoolKept-put, set_cells, Puts-append,
  none_at_length, IsWhole, nothing, PoolKept-init,
}
use bmb.Pool.Load.{list_request, succeed_or_exit, names_in, load_queues, queue_pool_load}
use bmb.Pool.Load.Nodes.{loaded}
use bmb.Pool.Load.Restart.{load_queue-IsKept}
use bmb.Pool.Load.Awaited.{
  IsSaved, IsFreshPool, IsFreshPool-rest, with_logs, not-has-loaded, HasNoName-none, HasNoName-both,
  has_later, has_first, Awaits, Awaits-next,
}

module _ (fresh : CString → ℕ → Ptr) (logs : CString → Log) where
  load_queue-PoolKept :
      {dirs : Assoc Files} (name : CString) (w w' : World) (p p' : QueuePool) (q : Queue)
      (cells : ℕ → Cells) (s : Contents)
      → ((k i : ℕ) → has_cell (fresh name k) (cells i) ≡ false)
      → HasNoName name p.pool
      → PoolKept dirs w p.pool cells s
      → p'.pool ≡ p.pool ++ q ∷ []
      → q.name ≡ name
      → IsKept dirs w' q (loaded (fresh name) [] (logs name))
      → log_of (loaded (fresh name) [] (logs name)) ≡ logs name
      → ((a : Ptr) → ((n : ℕ) → a ≢ fresh name n) → w'.heap a ≡ w.heap a)
      → PoolKept dirs w' p'.pool
          (set_cells (length p.pool) (loaded (fresh name) [] (logs name)) cells)
          (update name (some (messages (logs name))) s)
  load_queue-PoolKept {dirs} name w w' p p' q cells s free new k pool named kept whole same =
      let xs = loaded (fresh name) [] (logs name) in
      let other : (j : ℕ) (a : Ptr) → has_cell a (cells j) ≡ true → (n : ℕ) → a ≢ fresh name n =
        λ j a there n e. absurd (ground (arith, ap (λ b. has_cell b (cells j)) e, free n j)) in
      let put =
        PoolKept-put (length p.pool) q xs k (Puts-append p.pool q)
          (λ r at. absurd (none_at_length p.pool r at))
          (λ j r ne at. rw named (str_eq_comm name r.name ∙ new j r at))
          (λ j a ne there. not-has-loaded (fresh name) a [] (logs name) (other j a there) refl) kept
          (λ j r ne at.
            IsKept-frame w' (k.kept j r at) (λ a i. same a (other j a i))
              (kept.disk ∙ sym k.disk)) in
      subst
        (λ qs.
          PoolKept dirs w' qs (set_cells (length p.pool) xs cells)
            (update name (some (messages (logs name))) s))
        (sym pool)
        (subst (PoolKept dirs w' (p.pool ++ q ∷ []) (set_cells (length p.pool) xs cells))
          (ap (λ m. update m (some (texts_of xs)) s) named
            ∙ ap (λ l. update name (some (messages l)) s) whole)
          put)

  -- What holds of the nodes of each queue that was loaded, too.
  abbrev pub AllLoaded : (Cells → Type 0) → Assoc Files → Type 0
  AllLoaded P rest = (n : CString) → has n rest ≡ true → P (loaded (fresh n) [] (logs n))

  set_cells-all :
      (P : Cells → Type 0) (i : ℕ) (xs : Cells) (cells : ℕ → Cells)
      → P xs
      → ((j : ℕ) → P (cells j))
      → (j : ℕ) → P (set_cells i xs cells j)
  set_cells-all P i xs cells new old j = elim (Bool-cases (i == j)) [
    | inl e ↦ rw e new
    | inr e ↦ rw e (old j)
  ]

  load_queues-PoolKept :
      (P : Cells → Type 0) {dirs : Assoc Files} (rest : Assoc Files) (w : World) (p : QueuePool)
      (cells : ℕ → Cells) (s : Contents)
      → IsFreshPool fresh rest
      → Distinct rest
      → ((n : CString) → has n rest ≡ true → IsSaved dirs n (logs n))
      → Awaits fresh rest p cells
      → PoolKept dirs w p.pool cells s
      → AllLoaded P rest
      → ((i : ℕ) → P (cells i))
      → Returns
          (λ p' w'.
            ((cells' : ℕ → Cells) × PoolKept dirs w' p'.pool cells' (with_logs logs rest s)
              × ((i : ℕ) → P (cells' i)))
            × ((n : CString) → HasNoName n p'.pool → HasNoName n p.pool × (has n rest ≡ false)))
          (load_queues fresh p (keys rest) w)
  unfolding load_queues has
  load_queues-PoolKept P [] w p cells s f d saved a k new old =
      returns ((cells, k, old), λ n absent. (absent, refl))
  load_queues-PoolKept P ((name, files) ∷ rest) w p cells s f d saved a k new old =
      let first = has_first name files rest in
      let sv = saved name first in
      let unknown =
        HasNoName-none p name (queue_pool_get_by_name p (some name)) (a.new name first)
          (queue_pool_get_by_name-FoundBy p name) in
      Returns.bind
        (load_queue-IsKept (fresh name) p name sv.directory sv.short (f.each name) sv.alive k.disk
          unknown)
        λ p1 w1 (q, pool, named, kept, whole, same).
          Returns.mono
            (load_queues-PoolKept P rest w1 p1
              (set_cells (length p.pool) (loaded (fresh name) [] (logs name)) cells)
              (update name (some (messages (logs name))) s) (IsFreshPool-rest name files rest f) d.1
              (λ n there. saved n (has_later name n files rest there))
              (Awaits-next fresh logs name files rest p p1 q cells f d a pool named)
              (load_queue-PoolKept name w w1 p p1 q cells s (λ n i. a.free name n i first)
                (a.new name first) k pool named kept whole same)
              (λ n there. new n (has_later name n files rest there))
              (set_cells-all P (length p.pool) (loaded (fresh name) [] (logs name)) cells
                (new name first) old))
            λ p2 w2 (held, absent). (
              held,
              λ n none_there.
                  let (before, out) = absent n none_there in
                  let (old, ne) = HasNoName-both n p.pool q (subst (HasNoName n) pool before) in
                  (old, ground (arith, ap (λ m. str_eq m n) named)),
            )

  -- As `queue_pool_load-PoolKept`, with a predicate of the nodes of every queue.
  pub queue_pool_load-each :
      (P : Cells → Type 0) {dirs : Assoc Files} (w : World)
      → IsFreshPool fresh dirs
      → Distinct dirs
      → All IsEntry (keys dirs)
      → ((n : CString) → has n dirs ≡ true → IsSaved dirs n (logs n))
      → w.disk ≡ calm dirs
      → AllLoaded P dirs
      → P []
      → Returns
          (λ p' w'.
            ((cells : ℕ → Cells) × PoolKept dirs w' p'.pool cells (with_logs logs dirs nothing)
              × ((i : ℕ) → P (cells i)))
            × IsWhole dirs p'.pool)
          (queue_pool_load fresh queue_pool_init w)
  unfolding queue_pool_load succeed_or_exit names_in queue_pool_init
  queue_pool_load-each P {dirs} w f d entries saved disk new empty_too =
      let listed : on_disk (persist_dispatch list_request) w
          ≡ ok (succeeded (names_data (keys dirs))) w =
        rw (disk, get_queue_list-keys list_request dirs refl refl refl entries, ← disk) in
      let empty : Awaits fresh dirs (record { pool = []; memory = unallocated }) (λ i. []) =
        record { new = λ n there i q at. absurd (cc); free = λ n k i there. refl } in
      rw listed (
        Returns.mono
          (load_queues-PoolKept P dirs w (record { pool = []; memory = unallocated }) (λ i. [])
            nothing f d saved empty (PoolKept-init dirs w disk) new (λ i. empty_too))
          λ p' w' (held, absent).
            (held, λ n none_there. find_of_not_has n dirs (absent n none_there).1))

  -- At startup, on a disk on which no call fails, with directories of different short names that
  -- are not `.` or `..`, each of which holds the nodes of a log with messages that are not empty
  -- and have no byte 255, and with different addresses for different nodes, loading runs to its
  -- end: every queue of the pool agrees with its directory and holds the messages of the log in
  -- order, no two queues share a name or a node, and no directory is left out.
  pub queue_pool_load-PoolKept :
      {dirs : Assoc Files} (w : World)
      → IsFreshPool fresh dirs
      → Distinct dirs
      → All IsEntry (keys dirs)
      → ((n : CString) → has n dirs ≡ true → IsSaved dirs n (logs n))
      → w.disk ≡ calm dirs
      → Returns
          (λ p' w'.
            ((cells : ℕ → Cells) × PoolKept dirs w' p'.pool cells (with_logs logs dirs nothing))
            × IsWhole dirs p'.pool)
          (queue_pool_load fresh queue_pool_init w)
  queue_pool_load-PoolKept w f d entries saved disk =
      Returns.mono (queue_pool_load-each (λ xs. Unit) w f d entries saved disk (λ n there. tt) tt)
        λ p' w' ((cells, kept, all), whole). ((cells, kept), whole)
