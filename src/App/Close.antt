-- ===== src/App/Close.antt =====
-- `app_close` of app.c, the destructor of the process.
use bmb.Base.{
  ℕ, ◌≤◌, ◌≡◌, ◌≢◌, ◌⊎◌, refl, ◌∙◌, false, some, Bool-cases, inl, inr, arith, ◌==◌, length,
}
use bmb.Run.{exited, crash}
use bmb.Run.Returns
use bmb.Run.Returns.{Returns, returns}
use bmb.Disk.{Files}
use bmb.Disk.Table.{Assoc}
use bmb.Persist.Requests.{calm}
use bmb.World.{null, World}
use bmb.World.Chain.{Cells}
use bmb.Queue.{mem_alloc}
use bmb.Pool.{ArrayMemory, unallocated, allocated, given_back, queue_pool_init}
use bmb.Pool.Destruct.{
  Chains, AllFreed, queue_pool_destruct-AllFreed, queue_pool_destruct-given_back,
}
use bmb.Pool.Kept.{Contents, PoolKept}
use bmb.Pool.Load.Failing.{queue_pool_load-missing}
use bmb.Broker.Init.{broker_init}
use bmb.Server.Sockets.{Server, Remains, no_broker, whole, exits, server_init}
use bmb.App.{StartupCalls, init_allocated, app_init, app_close}

broker_init-missing :
    (env : StartupCalls) (w : World)
    → w.disk.present ≡ false
    → broker_init env.broker_at env.pool_at env.fresh w ≡ exited
unfolding broker_init mem_alloc
broker_init-missing env w gone = elim (Bool-cases (env.broker_at == null)) [
  | inl e ↦ rw e
  | inr e ↦ elim (Bool-cases (env.pool_at == null)) [
    | inl e' ↦ rw (e, e')
    | inr e' ↦ rw (e, e', queue_pool_load-missing env.fresh queue_pool_init w gone)
  ]
]

-- Where there is memory for the server but no directory `./data`, the process ends by `exit` while
-- it starts, and then crashes: its destructor reads the broker of the server, which is not yet set.
pub app_close_unset :
    (env : StartupCalls) (rounds : ℕ) (w : World)
    → env.server_at ≢ null
    → w.disk.present ≡ false
    → (r : Remains) × (app_init env w ≡ exits r) × (app_close rounds r ≡ crash)
unfolding app_init init_allocated server_init app_close
app_close_unset env rounds w ne gone =
    let given : (env.server_at == null) ≡ false = ground arith in
    (no_broker, rw (given, broker_init-missing env w gone), refl)

Chains-kept :
    {dirs : Assoc Files} {w : World} (s : Server) {cells : ℕ → Cells} {c : Contents}
    → PoolKept dirs w s.broker.pool cells c
    → Chains w.heap s.broker.pool cells
Chains-kept s k = record { each = λ i q at. (k.kept i q at).queue; apart = k.apart }

-- The count is printed, every node is freed, and the disk stays.
abbrev pub Closed : Assoc Files → World → Server → (ℕ → Cells) → ℕ → Type 0
Closed dirs w s cells rounds =
    Returns
      (λ count w'.
        (count ≡ some s.request_counter)
        × AllFreed (length s.broker.pool) cells w w'
        × (w'.disk ≡ calm dirs))
      (app_close rounds (whole s w))

-- Only an array that was given back before makes the end crash.
abbrev pub Ends : Assoc Files → World → Server → (ℕ → Cells) → ℕ → Type 0
Ends dirs w s cells rounds =
    ((s.broker.memory ≡ given_back) × (app_close rounds (whole s w) ≡ crash))
    ⊎ Closed dirs w s cells rounds

module _ {dirs : Assoc Files} (w : World) (s : Server) (cells : ℕ → Cells) {c : Contents}
    (rounds : ℕ) (k : PoolKept dirs w s.broker.pool cells c)
    (enough : (i : ℕ) → length (cells i) ≤ rounds) where
  app_close-Closed : s.broker.memory ≢ given_back → Closed dirs w s cells rounds
  unfolding app_close
  app_close-Closed kept =
      Returns.bind
        (queue_pool_destruct-AllFreed rounds s.broker cells w (Chains-kept s k) enough kept)
        λ _ w' f. returns (refl, f, f.disk ∙ k.disk)

  app_close-cases :
      (m : ArrayMemory)
      → s.broker.memory ≡ m
      → ((m ≡ given_back) × (app_close rounds (whole s w) ≡ crash)) ⊎ Closed dirs w s cells rounds
  unfolding app_close
  app_close-cases unallocated e = inr (app_close-Closed λ e'. absurd (cc))
  app_close-cases allocated e = inr (app_close-Closed λ e'. absurd (cc))
  app_close-cases given_back e =
      inl (
        refl,
        rw (queue_pool_destruct-given_back rounds s.broker cells w (Chains-kept s k) enough e),
      )

  -- When all queues of the broker agree with their directories, then, given as many rounds as a
  -- queue has nodes, the end of the process prints the count of requests, frees every node of every
  -- queue once, and leaves the rest of memory and the disk as they are; but where the array of
  -- queues was given back before, it is given back again, which crashes.
  pub app_close-Ends : Ends dirs w s cells rounds
  app_close-Ends = app_close-cases s.broker.memory refl
