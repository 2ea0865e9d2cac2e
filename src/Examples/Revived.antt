-- ===== src/Examples/Revived.antt =====
-- The theorem on a restart at the concrete pool.
use bmb.Base.{
  ℕ, ◌+◌, ◌≡◌, refl, sym, ◌∙◌, ap, true, none, some, [], ◌==◌, arith, Bool-cases, inl, inr,
}
use bmb.Base.Text.{CString, str_eq, str_eq_refl, eq_of_str_eq}
use bmb.Run.Returns.{Returns}
use bmb.Disk.Table.{find, has}
use bmb.Persist.{before_eof}
use bmb.Persist.Requests.{calm}
use bmb.World.{World}
use bmb.World.Chain.{Cells}
use bmb.Queue.Kept.{log_of}
use bmb.Pool.{queue_pool_init}
use bmb.Pool.Kept.{
  Contents, update, nothing, texts_of, PoolKept, PoolKept-init, PoolKept-put, Puts-append, IsWhole,
  set_cells,
}
use bmb.Pool.Load.{queue_pool_load}
use bmb.Pool.Load.Nodes.{AllSurvive}
use bmb.Pool.Load.Awaited.{IsFreshPool}
use bmb.Broker.Dispatch.Durable.{queue_pool_load-same}
use bmb.Examples.{two_cells, name, dirs, world, mail, pool, mail-IsKept}

abbrev pub cells : ℕ → Cells
cells = set_cells 0 two_cells (λ i. [])

abbrev pub contents : Contents
contents = update name (some (texts_of two_cells)) nothing

pub pool-PoolKept : PoolKept dirs world pool.pool cells contents
pool-PoolKept =
    PoolKept-put 0 mail two_cells (PoolKept-init dirs world refl) (Puts-append [] mail)
      (λ r at. absurd (cc)) (λ j r ne at. absurd (cc)) (λ j a ne there. absurd (cc)) mail-IsKept
      (λ j r ne at. absurd (cc))

pool-IsWhole : IsWhole dirs pool.pool
unfolding find
pool-IsWhole n absent = rw (absent 0 mail refl)

is_name : (n : CString) → has n dirs ≡ true → name ≡ n
unfolding has
is_name n there = eq_of_str_eq name n (ground arith)

addresses-IsFreshPool : IsFreshPool (λ n i. i + 100) dirs
addresses-IsFreshPool = record {
  each = λ n. (λ i e. absurd (omega arith), λ i j e. omega arith);
  apart = λ n m i j a b ne.
      absurd
        (ground (arith, ap (λ l. str_eq l m) (sym (is_name n a) ∙ is_name m b), str_eq_refl m));
}

cells-AllSurvive : (i : ℕ) → AllSurvive (log_of (cells i))
unfolding before_eof
cells-AllSurvive i = elim (Bool-cases (0 == i)) [
  | inl e ↦ rw e (refl, (refl, tt))
  | inr e ↦ rw e tt
]

abbrev restarted : World
restarted = record { heap = λ a. none; disk = calm dirs }

queue_pool_load-same_example :
    Returns
      (λ p' w'.
        ((cells' : ℕ → Cells) × PoolKept dirs w' p'.pool cells' contents) × IsWhole dirs p'.pool)
      (queue_pool_load (λ n i. i + 100) queue_pool_init restarted)
queue_pool_load-same_example =
    queue_pool_load-same pool pool-PoolKept pool-IsWhole (λ n i. i + 100) restarted
      addresses-IsFreshPool (unfold has in (refl, tt)) (unfold str_eq in ((refl, refl), tt))
      cells-AllSurvive refl
