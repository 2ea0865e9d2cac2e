-- ===== src/App.antt =====
-- app.c: the start of the process, its loop, its handler of SIGINT, and its end.
pub mod Startup
pub mod Close
pub mod Serving
pub mod Lifecycle
use bmb.Base.{ℕ, zero, suc, ◌||◌, Option, none, some, List, [], ◌∷◌, ◌++◌, ◌==◌, if◌then◌else◌}
use bmb.Base.Text.{CString}
use bmb.Run.{Run, ok, crash}
use bmb.Util.Decimal.{ℤ}
use bmb.World.{Ptr, null, World}
use bmb.Pool.{queue_pool_destruct}
use bmb.Reply.{Cjson}
use bmb.Server.{broker_thread}
use bmb.Server.History.{Connection}
use bmb.Server.Sockets.{
  Server, Remains, no_server, no_broker, whole, Call, goes_on, exits, exits_inside, ◌>>=◌, ◌>>◌,
  inside, Sockets, is_zero, server_error, server_init, server_create_socket, server_bind,
  server_accept,
}

-- What `malloc` gives at startup, for the server, the broker, the pool and the nodes, and what the
-- calls on the socket return.
pub record StartupCalls : Type 0 where
  pub server_at : Ptr
  pub broker_at : Ptr
  pub pool_at : Ptr
  pub fresh : CString → ℕ → Ptr
  pub os : Sockets

-- With room for 50 connections that wait.
listen_or_exit : Sockets → Server → Call Server
unfolding server_error
listen_or_exit os s = if is_zero (os.listen s.socket 50) then goes_on s else server_error s

init_allocated : StartupCalls → Call Server
unfolding listen_or_exit server_init server_create_socket server_bind
init_allocated env = do
  s ← server_init env.broker_at env.pool_at env.fresh
  (created, s') ← server_create_socket env.os s
  bound ← server_bind env.os s'
  listen_or_exit env.os s'

-- The pointer `server` is NULL until there is memory for it.
pub app_init : StartupCalls → Call Server
unfolding init_allocated
app_init env w = if env.server_at == null then exits (no_server w) else init_allocated env w

-- The count of requests that is printed, if there is a server. Last, the memory of the broker and
-- of the server is given back.
pub app_close : ℕ → Remains → Run World (Option ℕ)
app_close rounds (no_server w) = ok none w
app_close rounds no_broker = crash
app_close rounds (whole s w) =
    bmb.Run.and_then (queue_pool_destruct rounds s.broker w) λ _. ok (some s.request_counter)

-- What happens next to the process while it runs: `main` accepts a connection, a thread serves its
-- connection, or SIGINT arrives and a byte is typed.
pub data Event : Type 0 where
  accepts : Ptr → Ptr → ℤ → ℤ → Event
  serves : Connection → Event
  interrupts : ℕ → Event

-- The server, the number of threads that have not yet served their connection, and the texts that
-- were sent.
pub record App : Type 0 where
  pub server : Server
  pub threads : ℕ
  pub texts : List CString

-- mem_alloc in `main`, where the process ends with the server as it is.
allocate : Ptr → Server → Call (Unit {0})
allocate p s w = if p == null then exits (whole s w) else goes_on tt w

-- One round of the loop of `main`; `thread` is what `pthread_create` returns.
accept_one : Ptr → Ptr → ℤ → ℤ → App → Call App
unfolding allocate server_accept server_error
accept_one args_at conn_at fd thread app = do
  allocate args_at app.server
  allocate conn_at app.server
  (socket_fd, s) ← server_accept fd app.server
  if is_zero thread
      then goes_on (record app { server = s; threads = suc app.threads })
      else server_error s

-- While it waits for the byte, further signals are ignored; then it is the handler again.
close_signal_handler : ℕ → App → Call App
close_signal_handler c app w =
    if c == b'y' || c == b'Y' then exits (whole app.server w) else goes_on app w

module _ (room : ℕ → ℕ) (lib : Cjson) (rounds : ℕ) where
  -- Without a thread that waits, nothing is served.
  serve_next : ℕ → Connection → App → Call App
  serve_next zero conn app = goes_on app
  serve_next (suc n) conn app = do
    (text, p) ←
        inside exits_inside
          (broker_thread room lib conn.now rounds conn.fresh app.server.broker conn.buffer)
    goes_on (record {
      server = record app.server { broker = p };
      threads = n;
      texts = app.texts ++ text ∷ [];
    })

  event : Event → App → Call App
  unfolding accept_one close_signal_handler serve_next
  event (accepts args_at conn_at fd thread) app = accept_one args_at conn_at fd thread app
  event (serves conn) app = serve_next app.threads conn app
  event (interrupts c) app = close_signal_handler c app

  pub run_events : List Event → App → Call App
  run_events [] app = goes_on app
  run_events (e ∷ events) app = do app' ← event e app; run_events events app'

  -- The process from its start.
  pub run_app : StartupCalls → List Event → Call App
  run_app env events = do
    s ← app_init env
    run_events events (record { server = s; threads = 0; texts = [] })
