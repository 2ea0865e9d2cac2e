-- ===== src/App/Serving.antt =====
-- The loop of app.c: connections that are accepted, and threads that serve them.
use mathlib.Core.List.{append-nil, append_assoc}
use bmb.Base.{
  ℕ, zero, suc, ◌+◌, ◌^◌, ◌<◌, ◌≡◌, ◌≢◌, refl, ◌∙◌, ap, sym, true, false, ◌||◌, ◌==◌, List, [], ◌∷◌,
  ◌++◌, arith, length,
}
use bmb.Disk.{Files}
use bmb.Disk.Table.{Assoc}
use bmb.Util.Decimal.{ℤ}
use bmb.World.{Ptr, null, World}
use bmb.World.Chain.{Cells}
use bmb.Pool.{QueuePool}
use bmb.Pool.Kept.{Contents}
use bmb.Reply.{Cjson, BrokerResponse}
use bmb.Broker.Dispatch.Contents.{Command, is_new, IsProper, after}
use bmb.Broker.Dispatch.Holds.{Holds, IsFree, Stepped}
use bmb.Broker.Dispatch.Refines.{is_used, IsPlan, after_all, answer_all}
use bmb.Http.Response.Answers.{IsMalloc}
use bmb.Server.History.{Connection, Carries, sent, sent_all, broker_thread-Stepped}
use bmb.Server.Sockets.{
  goes_on, exits_inside, and_then, GoesOn, went_on, then_on, weaken, inside-GoesOn, is_negative,
  is_zero, server_accept,
}
use bmb.App.{
  Event, accepts, serves, interrupts, App, allocate, accept_one, close_signal_handler, serve_next,
  event, run_events,
}

-- Every connection is accepted and gets a thread, only threads that wait serve a connection, which
-- then carries the next of the commands, and no interrupt is confirmed. `n` threads wait.
abbrev pub Happens : List Event → ℕ → List Command → Type 0
Happens [] n [] = Unit
Happens [] n (cmd ∷ cmds) = ⊥
Happens (accepts args_at conn_at fd thread ∷ events) n cmds =
    (args_at ≢ null)
    × (conn_at ≢ null)
    × (is_negative fd ≡ false)
    × (is_zero thread ≡ true)
    × Happens events (suc n) cmds
Happens (serves conn ∷ events) (suc n) (cmd ∷ cmds) = Carries cmd conn × Happens events n cmds
Happens (serves conn ∷ events) _ _ = ⊥
Happens (interrupts c ∷ events) n cmds = ((c == b'y' || c == b'Y') ≡ false) × Happens events n cmds

abbrev pub accepted : List Event → ℕ
accepted [] = 0
accepted (accepts args_at conn_at fd thread ∷ events) = suc (accepted events)
accepted (_ ∷ events) = accepted events

-- The connections in the order in which they are served.
abbrev pub served : List Event → List Connection
served [] = []
served (serves conn ∷ events) = conn ∷ served events
served (_ ∷ events) = served events

counted : App → App
counted app = record app {
  server = record app.server { request_counter = suc app.server.request_counter };
  threads = suc app.threads;
}

accept_one-counted :
    (args_at conn_at : Ptr) (fd thread : ℤ) (app : App) (w : World)
    → args_at ≢ null
    → conn_at ≢ null
    → is_negative fd ≡ false
    → is_zero thread ≡ true
    → suc app.server.request_counter < 2 ^ 31
    → accept_one args_at conn_at fd thread app w ≡ goes_on (counted app) w
unfolding accept_one allocate server_accept counted
accept_one-counted args_at conn_at fd thread app w args conn opened started small =
    let a : (args_at == null) ≡ false = ground arith in
    let b : (conn_at == null) ≡ false = ground arith in
    rw (a, b, opened, started)
      (ap
        (λ n.
          goes_on
            (record app {
              server = record app.server { request_counter = n };
              threads = suc app.threads;
            })
            w)
        (omega (arith, small)))

module _ (room : ℕ → ℕ) (lib : Cjson) (m : IsMalloc room) (rounds : ℕ) where
  -- The texts are those of the map of queues, the count is that of the connections, and the
  -- broker holds the contents of the map.
  abbrev pub Continues : List Event → List Command → App → Contents → App → World → Type 0
  Continues events cmds app s app' w' =
      (app'.texts ≡ app.texts ++ sent_all room lib (served events) (answer_all lib cmds s))
      × (app'.server.request_counter ≡ app.server.request_counter + accepted events)
      × (app'.threads + length cmds ≡ app.threads + accepted events)
      × ((dirs' : Assoc Files) × (cells' : ℕ → Cells) × Holds dirs' w' app'.server.broker cells'
            (after_all cmds s) rounds 0)

  abbrev Runs : List Event → Type 0
  Runs events =
      (cmds : List Command) (app : App) (dirs : Assoc Files) (w : World) (cells : ℕ → Cells)
      (s : Contents)
      → Holds dirs w app.server.broker cells s rounds (length cmds)
      → Happens events app.threads cmds
      → IsPlan cmds
      → ((a : Ptr) → is_used a cmds ≡ true → IsFree a cells)
      → app.server.request_counter + accepted events < 2 ^ 31
      → GoesOn (Continues events cmds app s) (run_events room lib rounds events app w)

  Runs-accepts :
      (args_at conn_at : Ptr) (fd thread : ℤ) (events : List Event)
      → Runs events
      → Runs (accepts args_at conn_at fd thread ∷ events)
  unfolding run_events event counted
  Runs-accepts args_at conn_at fd thread events next cmds app dirs w cells s h hap plan free small =
      rw
        (accept_one-counted args_at conn_at fd thread app w hap.0 hap.1 hap.2 hap.3
          (omega (arith, small)))
        (weaken (next cmds (counted app) dirs w cells s h hap.4 plan free (omega (arith, small)))
          λ app' w' (texts, count, waiting, held).
            (texts, omega (arith, count), omega (arith, waiting), held))

  Runs-interrupts : (c : ℕ) (events : List Event) → Runs events → Runs (interrupts c ∷ events)
  unfolding run_events event close_signal_handler
  Runs-interrupts c events next cmds app dirs w cells s h hap plan free small =
      rw hap.0 (next cmds app dirs w cells s h hap.1 plan free small)

  after_serving : ℕ → Connection → BrokerResponse → QueuePool → App → App
  after_serving n conn res p app = record {
    server = record app.server { broker = p };
    threads = n;
    texts = app.texts ++ sent room lib conn.now res ∷ [];
  }

  serve_next-Stepped :
      (n : ℕ) (conn : Connection) (cmd : Command) (app : App) {dirs : Assoc Files} {w : World}
      {cells : ℕ → Cells} {s : Contents} {k : ℕ}
      → Holds dirs w app.server.broker cells s rounds (suc k)
      → Carries cmd conn
      → IsProper cmd
      → ((a : Ptr) → is_new a cmd ≡ true → IsFree a cells)
      → GoesOn
          (λ app' w'.
            (res : BrokerResponse) × (p : QueuePool) × (app' ≡ after_serving n conn res p app)
            × Stepped lib cmd cells s rounds k (res, p) w')
          (serve_next room lib rounds (suc n) conn app w)
  unfolding serve_next after_serving
  serve_next-Stepped n conn cmd app h c proper free =
      then_on
        (inside-GoesOn exits_inside (broker_thread-Stepped room lib m cmd conn h c proper free))
        λ (text, p) w' (res, e, stepped). went_on (
          res,
          p,
          ap
              (λ t. record {
                server = record app.server { broker = p };
                threads = n;
                texts = app.texts ++ t ∷ [];
              })
              e,
          stepped,
        )

  serves-cases :
      (conn : Connection) (events : List Event) (n : ℕ) (cmds : List Command) (app : App)
      {dirs : Assoc Files} {w : World} {cells : ℕ → Cells} {s : Contents}
      → Runs events
      → app.threads ≡ n
      → Holds dirs w app.server.broker cells s rounds (length cmds)
      → Happens (serves conn ∷ events) n cmds
      → IsPlan cmds
      → ((a : Ptr) → is_used a cmds ≡ true → IsFree a cells)
      → app.server.request_counter + accepted events < 2 ^ 31
      → GoesOn
          (Continues (serves conn ∷ events) cmds app s)
          (and_then (serve_next room lib rounds n conn app w) (run_events room lib rounds events))
  unfolding after_serving sent_all answer_all after_all
  serves-cases conn events zero cmds app next e h hap plan free small = absurd hap
  serves-cases conn events (suc n) [] app next e h hap plan free small = absurd hap
  serves-cases conn events (suc n) (cmd ∷ cmds) app {s} next e h hap plan free small =
      then_on (serve_next-Stepped n conn cmd app h hap.0 plan.0 (λ a new. free a (ground arith)))
        λ app1 w1 (res, p, same, (told, dirs', cells', h', still)). rw same (
          weaken
            (next cmds (after_serving n conn res p app) dirs' w1 cells' (after cmd s) h' hap.1
              plan.2 (λ a used. still a (ground (arith, plan.1 a)) (free a (ground arith))) small)
            λ app2 w2 (texts, count, waiting, held). (
              texts
                  ∙ append_assoc app.texts (sent room lib conn.now res ∷ [])
                      (sent_all room lib (served events) (answer_all lib cmds (after cmd s)))
                  ∙ ap
                      (λ r.
                        app.texts
                        ++ sent room lib conn.now r
                          ∷ sent_all room lib (served events) (answer_all lib cmds (after cmd s)))
                      told,
              count,
              omega (arith, e, waiting),
              held,
            ))

  runs : (events : List Event) → Runs events
  unfolding run_events event sent_all answer_all after_all
  runs [] [] app dirs w cells s = λ h hap plan free small.
      went_on (sym (append-nil app.texts), omega arith, omega arith, (dirs, cells, h))
  runs [] (cmd ∷ cmds) app dirs w cells s = λ h hap plan free small. absurd hap
  runs (accepts args_at conn_at fd thread ∷ events) cmds app dirs w cells s =
      Runs-accepts args_at conn_at fd thread events (runs events) cmds app dirs w cells s
  runs (interrupts c ∷ events) cmds app dirs w cells s =
      Runs-interrupts c events (runs events) cmds app dirs w cells s
  runs (serves conn ∷ events) cmds app dirs w cells s =
      serves-cases conn events app.threads cmds app {dirs = dirs} {w = w} {cells = cells} {s = s}
        (runs events) refl

  -- Where memory is allocated as by glibc: on a broker whose pool and disk agree, any order of
  -- accepting connections, serving those that were accepted, and interrupts that are not confirmed
  -- is run to its end without the process ending: the count of requests is the number of accepted
  -- connections, below 2^31, and the texts that are sent are those of the answers of a finite map
  -- from names to first-in first-out queues of texts, whose contents the pool then holds, in memory
  -- and on the disk. The connections carry requests as in `serve_all-Served`.
  pub run_events-Continues :
      (events : List Event) (cmds : List Command) (app : App) {dirs : Assoc Files} {w : World}
      {cells : ℕ → Cells} {s : Contents}
      → Holds dirs w app.server.broker cells s rounds (length cmds)
      → Happens events app.threads cmds
      → IsPlan cmds
      → ((a : Ptr) → is_used a cmds ≡ true → IsFree a cells)
      → app.server.request_counter + accepted events < 2 ^ 31
      → GoesOn (Continues events cmds app s) (run_events room lib rounds events app w)
  run_events-Continues events cmds app {dirs} {w} {cells} {s} = runs events cmds app dirs w cells s
