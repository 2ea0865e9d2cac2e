-- ===== src/Broker/Dispatch/Durable.antt =====
-- A restart of the broker: `queue_pool_load` of queue/queue_pool.c on the disk that the pool has left.
use mathlib.Core.Path.{subst}
use bmb.Base.{
  ℕ, ◌≡◌, refl, ◌∙◌, ap, true, Bool-cases, Option, none, some, inl, inr, [], ◌∷◌, All, arith,
  if◌then◌else◌,
}
use bmb.Base.Text.{CString, str_eq, eq_of_str_eq}
use bmb.Run.Returns
use bmb.Run.Returns.{Returns}
use bmb.Disk.{Files}
use bmb.Disk.Table.{Assoc, keys, has, Distinct, find-has}
use bmb.Persist.Store.{Log, messages}
use bmb.Persist.Requests.{HasQueue, IsShort, calm, has_of_find}
use bmb.Persist.Requests.Listing.{IsEntry}
use bmb.World.{Ptr, World}
use bmb.World.Chain.{Cells}
use bmb.Queue.Kept.{log_of}
use bmb.Pool.{QueuePool, queue_pool_init, queue_pool_get_by_name}
use bmb.Pool.Kept.{Contents, update, nothing, PoolKept, IsWhole}
use bmb.Pool.Load.{queue_pool_load}
use bmb.Pool.Load.Nodes.{AllSurvive}
use bmb.Pool.Load.Awaited.{IsSaved, IsFreshPool, with_logs}
use bmb.Pool.Load.Startup.{queue_pool_load-PoolKept}
use bmb.Broker.Dispatch.Holds.{absent, located, locate}

with_logs-has :
    (logs : CString → Log) (rest : Assoc Files) (s : Contents) (n : CString)
    → with_logs logs rest s n ≡ (if has n rest then some (messages (logs n)) else s n)
unfolding has update
with_logs-has logs [] s n = refl
with_logs-has logs ((name, files) ∷ rest) s n =
    with_logs-has logs rest (update name (some (messages (logs name))) s) n
    ∙ elim (Bool-cases (has n rest)) [
      | inl there ↦ ground arith
      | inr out ↦ elim (Bool-cases (str_eq name n)) [
        | inl e ↦ rw (out, e) (ap (λ m. some (messages (logs m))) (eq_of_str_eq name n e))
        | inr e ↦ rw (out, e)
      ]
    ]

log_at : (ℕ → Cells) → Option ℕ → Log
log_at cells none = []
log_at cells (some i) = log_of (cells i)

-- The log of the queue with the name.
left_log : QueuePool → (ℕ → Cells) → CString → Log
left_log p cells n = log_at cells (queue_pool_get_by_name p (some n))

module _ {dirs : Assoc Files} {w : World} (p : QueuePool) {cells : ℕ → Cells} {s : Contents}
    (k : PoolKept dirs w p.pool cells s) (whole : IsWhole dirs p.pool) where
  left-IsSaved :
      ((i : ℕ) → AllSurvive (log_of (cells i)))
      → (n : CString) → has n dirs ≡ true
      → IsSaved dirs n (left_log p cells n)
  unfolding left_log log_at
  left-IsSaved alive n there = elim (locate {p = p} n k) [
    | absent e none_there unnamed ↦ absurd (ground (arith, has_of_find n dirs (whole n unnamed)))
    | located i q e at same shown ↦ rw e (record {
      directory = subst (λ m. HasQueue dirs m (log_of (cells i))) same (k.kept i q at).directory;
      short = subst IsShort same (k.kept i q at).short;
      alive = alive i;
    })
  ]

  left-contents : (n : CString) → with_logs (left_log p cells) dirs nothing n ≡ s n
  unfolding left_log log_at
  left-contents n = with_logs-has (left_log p cells) dirs nothing n ∙ elim (locate {p = p} n k) [
    | absent e none_there unnamed ↦ rw (has_of_find n dirs (whole n unnamed), none_there)
    | located i q e at same shown ↦
        let d = subst (λ m. HasQueue dirs m (log_of (cells i))) same (k.kept i q at).directory in
        rw (find-has n dirs d.files d.found, e, shown)
  ]

  -- When all queues of a pool agree with their directories, the disk has no others, the
  -- directories have different names that are not `.` or `..`, and no message is empty or has a
  -- byte 255, then a restart on that disk, on which no call fails, with different addresses for
  -- different nodes, runs to its end with a pool of the same contents: the same names, with the same
  -- messages in the same order, in agreement with the same disk.
  pub queue_pool_load-same :
      (fresh : CString → ℕ → Ptr) (restarted : World)
      → IsFreshPool fresh dirs
      → Distinct dirs
      → All IsEntry (keys dirs)
      → ((i : ℕ) → AllSurvive (log_of (cells i)))
      → restarted.disk ≡ calm dirs
      → Returns
          (λ p' w'.
            ((cells' : ℕ → Cells) × PoolKept dirs w' p'.pool cells' s) × IsWhole dirs p'.pool)
          (queue_pool_load fresh queue_pool_init restarted)
  queue_pool_load-same fresh restarted f d entries alive disk =
      let same : with_logs (left_log p cells) dirs nothing ≡ s = λ i n. left-contents n i in
      Returns.mono
        (queue_pool_load-PoolKept fresh (left_log p cells) restarted f d entries
          (left-IsSaved alive) disk)
        λ p' w' ((cells', held), all).
          ((cells', subst (PoolKept dirs w' p'.pool cells') same held), all)
