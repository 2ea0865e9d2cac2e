-- ===== src/App/Startup.antt =====
-- `app_init` of app.c, with `broker_init` of broker/broker.c.
use bmb.Base.{ℕ, ◌^◌, ◌<◌, ◌≤◌, ◌≡◌, ◌≢◌, refl, Bool, true, false, some, [], All, arith, ◌==◌}
use bmb.Base.Text.{CString, codes}
use bmb.Run.Returns
use bmb.Run.Returns.{Returns, returns}
use bmb.Disk.{Files}
use bmb.Disk.Table.{Assoc, keys, has as has_dir, Distinct}
use bmb.Persist.Store.{Log}
use bmb.Persist.Requests.{calm}
use bmb.Persist.Requests.Listing.{IsEntry}
use bmb.World.{Ptr, null, World}
use bmb.World.Chain.{Cells, has}
use bmb.Queue.{mem_alloc}
use bmb.Pool.{QueuePool, queue_pool_init}
use bmb.Pool.Kept.{nothing}
use bmb.Pool.Load.{queue_pool_load}
use bmb.Pool.Load.Awaited.{IsSaved, IsFreshPool, with_logs}
use bmb.Pool.Load.Startup.{AllLoaded, queue_pool_load-each}
use bmb.Broker.Init.{broker_init}
use bmb.Broker.Fits.{Fits}
use bmb.Broker.Dispatch.Holds.{Holds, IsFree}
use bmb.Server.Sockets.{
  Server, SocketAddress, GoesOn, went_on, weaken, server_port, is_negative, is_zero, server_init,
  server_create_socket, server_bind,
}
use bmb.App.{StartupCalls, listen_or_exit, init_allocated, app_init}

-- 127.0.0.1, port 8080
abbrev pub local_address : SocketAddress
local_address = record { internet = true; port = server_port; host = codes "127.0.0.1" }

-- Memory is given, and the socket is opened, bound and listened on.
pub record IsWorking (env : StartupCalls) : Type 0 where
  pub server_at : env.server_at ≢ null
  pub broker_at : env.broker_at ≢ null
  pub pool_at : env.pool_at ≢ null
  pub opened : is_negative env.os.socket ≡ false
  pub bound : is_negative (env.os.bind (some env.os.socket) local_address) ≡ false
  pub listens : is_zero (env.os.listen (some env.os.socket) 50) ≡ true

-- A server that listens and has served nothing.
abbrev pub listening : StartupCalls → QueuePool → Server
listening env p = record {
  socket = some env.os.socket;
  server_addr = local_address;
  broker = p;
  request_counter = 0;
}

broker_init-load :
    (env : StartupCalls) (w : World)
    → env.broker_at ≢ null
    → env.pool_at ≢ null
    → broker_init env.broker_at env.pool_at env.fresh w
      ≡ queue_pool_load env.fresh queue_pool_init w
unfolding broker_init mem_alloc
broker_init-load env w here there =
    let a : (env.broker_at == null) ≡ false = ground arith in
    let b : (env.pool_at == null) ≡ false = ground arith in rw (a, b)

-- Where memory is given and the socket works, the process starts as soon as its queues are loaded.
pub app_init-listening :
    (env : StartupCalls) (w : World) {P : QueuePool → World → Type 0}
    → IsWorking env
    → Returns P (queue_pool_load env.fresh queue_pool_init w)
    → GoesOn (λ s w'. (p : QueuePool) × (s ≡ listening env p) × P p w') (app_init env w)
unfolding app_init init_allocated server_init server_create_socket server_bind listen_or_exit
app_init-listening env w h loaded =
    let a : (env.server_at == null) ≡ false = ground (arith, h.server_at) in
    let (p, w', e, post) = Returns.returned loaded in
    rw (a, broker_init-load env w h.broker_at h.pool_at, e, h.opened, h.bound, h.listens)
      (went_on (p, refl, post))

module _ (env : StartupCalls) (logs : CString → Log) where
  -- Where memory is given and the socket works, on a disk on which no call fails, with
  -- directories of different short names that are not `.` or `..`, each of which holds the nodes of
  -- a log with messages that are not empty, have no byte 255 and can be decoded, with different
  -- addresses for different nodes, and with rounds and ids for `n` requests: the process starts, its
  -- server listens on port 8080 of 127.0.0.1 and has counted no request, and its pool holds the
  -- queues of the disk with the messages of the logs in order, ready for `n` requests, in nodes that
  -- are at none of the addresses that are kept free.
  pub app_init-Holds :
      {dirs : Assoc Files} (w : World) (rounds n : ℕ) (unused : Ptr → Bool)
      → IsWorking env
      → IsFreshPool env.fresh dirs
      → Distinct dirs
      → All IsEntry (keys dirs)
      → ((n : CString) → has_dir n dirs ≡ true → IsSaved dirs n (logs n))
      → w.disk ≡ calm dirs
      → AllLoaded env.fresh logs
          (λ xs. Fits n rounds xs × ((a : Ptr) → unused a ≡ true → has a xs ≡ false))
          dirs
      → n ≤ rounds
      → n < 2 ^ 31
      → GoesOn
          (λ s w'.
            (s ≡ listening env s.broker)
            × ((cells : ℕ → Cells) × Holds dirs w' s.broker cells
                  (with_logs logs dirs nothing)
                  rounds
                  n
                × ((a : Ptr) → unused a ≡ true → IsFree a cells)))
          (app_init env w)
  app_init-Holds {dirs} w rounds n unused h f d entries saved disk fits enough ids =
      let none_yet : Fits n rounds [] = record {
        enough = omega (arith, enough);
        ids = omega (arith, ids);
        texts = tt;
      } in
      weaken
        (app_init-listening env w h (
          queue_pool_load-each env.fresh logs
            (λ xs. Fits n rounds xs × ((a : Ptr) → unused a ≡ true → has a xs ≡ false)) w f d
            entries saved disk fits (none_yet, λ a there. refl)))
        λ s w' (p, same, ((cells, kept, all), whole)). rw same (
          refl,
          (
            cells,
            record { pool = kept; whole = whole; fits = λ i. (all i).0 },
            λ a there i. (all i).1 a there,
          ),
        )
