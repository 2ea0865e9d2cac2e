-- ===== src/Broker/Dispatch/Managing.antt =====
-- Requests of type `addQueue` and `removeQueue` to `broker_dispatch` of broker/broker.c on a pool
-- whose queues agree with their directories.
use bmb.Base.{ℕ, suc, ◌≡◌, refl, ◌∙◌, some, [], ◌∷◌, ◌++◌, arith, length}
use bmb.Base.Text.{CString}
use bmb.Run.Returns
use bmb.Run.Returns.{Returns, returns}
use bmb.Disk.{Files}
use bmb.Disk.Table.{Assoc, put}
use bmb.World.{null, World}
use bmb.World.Chain.{Cells}
use bmb.Queue.{queue_new, queue_reset}
use bmb.Pool.{QueuePool, allocated, queue_pool_get_by_name}
use bmb.Pool.Kept.{Contents, set_cells}
use bmb.Pool.Kept.Erased.{skip}
use bmb.Reply.{Cjson}
use bmb.Broker.{BrokerRequest}
use bmb.Broker.Create.{add_queue-IsKept, add_queue_duplicate}
use bmb.Broker.Remove.{remove_queue-erase_idx}
use bmb.Broker.Dispatch.Routes.{
  broker_dispatch-remove_queue, broker_dispatch-add_queue, remove_missing,
}
use bmb.Broker.Dispatch.Contents.{create, destroy, Asks, answer, after, IsProper}
use bmb.Broker.Dispatch.Holds.{
  Holds, Answers, Located, absent, located, Stepped-same, Holds-erase, Holds-append,
  IsFree-set_cells,
}

queue_new-name : {name : CString} → (queue_new name).name ≡ name
unfolding queue_new queue_reset
queue_new-name = refl

module _ (lib : Cjson) {dirs : Assoc Files} {w : World} {p : QueuePool} {cells : ℕ → Cells}
    {s : Contents} {rounds n : ℕ} (h : Holds dirs w p cells s rounds (suc n)) where
  pub step_create :
      (req : BrokerRequest) (name : CString)
      → Asks (create name) req
      → IsProper (create name)
      → Located p cells s name
      → Answers lib (create name) req w p cells s rounds n
  unfolding answer after
  step_create req [] ask proper v = absurd proper.0
  step_create req (c ∷ t) ask proper (located i q e at same shown) =
      rw (broker_dispatch-add_queue lib rounds null p req w c t ask.0 ask.1) (
        rw (add_queue_duplicate lib p req (c ∷ t) i w ask.1 e)
          (returns (Stepped-same h lib (create (c ∷ t)) _ (rw shown) (rw shown))))
  step_create req (c ∷ t) ask proper (absent e none_there unnamed) =
      let (made, kept, others) =
        add_queue-IsKept lib dirs p req (c ∷ t) w ask.1 e (h.whole (c ∷ t) unnamed) proper.0
          proper.1 h.pool.disk in
      rw (broker_dispatch-add_queue lib rounds null p req w c t ask.0 ask.1, made)
        (returns (
          rw none_there,
          put (c ∷ t) [] dirs,
          set_cells (length p.pool) [] cells,
          Holds-append h (record { pool = p.pool ++ queue_new (c ∷ t) ∷ []; memory = allocated })
              (after (create (c ∷ t)) s) (queue_new (c ∷ t)) refl (rw queue_new-name unnamed)
              (omega (arith, (h.fits 0).enough)) (omega (arith, (h.fits 0).ids)) kept
              (rw queue_new-name others) (rw (none_there, queue_new-name)),
          λ a ne free. IsFree-set_cells a (length p.pool) [] cells free refl,
        ))

  pub step_destroy :
      (req : BrokerRequest) (name : CString)
      → Asks (destroy name) req
      → IsProper (destroy name)
      → Located p cells s name
      → Answers lib (destroy name) req w p cells s rounds n
  unfolding answer after
  step_destroy req [] ask proper v = absurd proper
  step_destroy req (c ∷ t) ask proper (absent e none_there unnamed) =
      rw (remove_missing lib rounds null p req w c t ask.1 e ask.0)
        (returns (Stepped-same h lib (destroy (c ∷ t)) _ (rw none_there) (rw none_there)))
  step_destroy req (c ∷ t) ask proper (located i q e at same shown) =
      let found : queue_pool_get_by_name p (some q.name) ≡ some i = rw same e in
      let (dirs', removed, gone) =
        remove_queue-erase_idx lib rounds i p (h.pool.kept i q at) at found
          (omega (arith, (h.fits i).enough)) in
      rw (broker_dispatch-remove_queue lib rounds null p req w i c t ask.1 e ask.0) (
        Returns.mono removed λ (res, p') w' (answered, pool, freed, calmed, others). (
          answered ∙ rw shown,
          dirs',
          (λ j. cells (skip i j)),
          Holds-erase h p' (after (destroy (c ∷ t)) s) i q at pool gone calmed others
              (rw (shown, same)),
          λ a ne free j. free (skip i j),
        ))
