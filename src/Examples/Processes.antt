-- ===== src/Examples/Processes.antt =====
-- The theorems on the whole process at a concrete disk and concrete events.
use mathlib.Core.Path.{subst}
use bmb.Base.{
  ℕ, suc, ◌≡◌, ◌≢◌, refl, true, false, none, List, [], ◌∷◌, arith, inl, inr, Bool-cases, ◌==◌, ◌≤◌,
  length,
}
use bmb.Base.Text.{codes, str_eq}
use bmb.Run.{crash}
use bmb.Util.Decimal.{pos}
use bmb.Util.Url.{url_decode}
use bmb.World.{World, Ptr}
use bmb.World.Chain.{Cells}
use bmb.Pool.Kept.{nothing}
use bmb.Pool.Load.Awaited.{with_logs}
use bmb.Pool.Load.Nodes.{loaded}
use bmb.Pool.Load.Startup.{AllLoaded}
use bmb.Broker.Dispatch.Contents.{create, produce_to, consume_from}
use bmb.Broker.Dispatch.Holds.{Holds, IsFree}
use bmb.Broker.Dispatch.Refines.{is_used}
use bmb.Server.Sockets.{Server, GoesOn, exits, Remains}
use bmb.App.{StartupCalls, Event, accepts, serves, interrupts, app_init, app_close, run_app}
use bmb.App.Startup.{IsWorking, listening, app_init-Holds}
use bmb.App.Close.{Ends, app_close_unset, app_close-Ends}
use bmb.App.Serving.{Happens}
use bmb.App.Lifecycle.{Lived, Suits, run_app-Lived}
use bmb.Examples.{lib, name, dirs, world, pool}
use bmb.Examples.Connections.{consume_query, produce_query, room, room-IsMalloc}
use bmb.Examples.Restarted.{
  two_dirs, logs, addresses, two_world, two_dirs-IsSaved, two_dirs-Distinct, two_dirs-IsEntry,
  addresses-IsFreshPool, jobs, name_or_jobs,
}
use bmb.Examples.Revived.{cells, pool-PoolKept}
use bmb.Examples.Sessions.{
  create_query, connection, commands, commands-IsPlan, connections-AllCarry,
}

-- Everything works; the socket is 3.
abbrev calls : StartupCalls
calls = record {
  server_at = 1;
  broker_at = 2;
  pool_at = 3;
  fresh = addresses;
  os = record { socket = pos 3; bind = λ fd address. pos 0; listen = λ fd n. pos 0 };
}

calls-IsWorking : IsWorking calls
calls-IsWorking = record {
  server_at = λ e. absurd (omega arith);
  broker_at = λ e. absurd (omega arith);
  pool_at = λ e. absurd (omega arith);
  opened = refl;
  bound = refl;
  listens = refl;
}

mail-Suits : Suits room lib 5 calls logs commands (loaded (addresses name) [] (logs name))
unfolding url_decode str_eq
mail-Suits = (
  record { enough = omega arith; ids = omega arith; texts = (tt, (tt, tt)) },
  λ a used. ground arith,
)

jobs-Suits : Suits room lib 5 calls logs commands (loaded (addresses jobs) [] (logs jobs))
unfolding str_eq
jobs-Suits = (record { enough = omega arith; ids = omega arith; texts = tt }, λ a used. refl)

two_dirs-Suits : AllLoaded addresses logs (Suits room lib 5 calls logs commands) two_dirs
two_dirs-Suits n there = elim (name_or_jobs n there) [
  | inl e ↦
      subst (λ m. Suits room lib 5 calls logs commands (loaded (addresses m) [] (logs m))) e
        mail-Suits
  | inr e ↦
      subst (λ m. Suits room lib 5 calls logs commands (loaded (addresses m) [] (logs m))) e
        jobs-Suits
]

app_init-Holds_example :
    GoesOn
      (λ s w'.
        (s ≡ listening calls s.broker)
        × ((cells : ℕ → Cells) × Holds two_dirs w' s.broker cells
              (with_logs logs two_dirs nothing)
              5
              3
            × ((a : Ptr) → is_used a commands ≡ true → IsFree a cells)))
      (app_init calls two_world)
app_init-Holds_example =
    app_init-Holds calls logs two_world 5 3 (λ a. is_used a commands) calls-IsWorking
      addresses-IsFreshPool two_dirs-Distinct two_dirs-IsEntry two_dirs-IsSaved refl two_dirs-Suits
      (omega arith) (omega arith)

-- Three connections, and an interrupt that is not confirmed.
abbrev events : List Event
events =
    accepts 200 201 (pos 4) (pos 0)
    ∷ accepts 202 203 (pos 5) (pos 0)
    ∷ serves (connection create_query (create name))
    ∷ interrupts b'n'
    ∷ serves (connection produce_query (produce_to name 12 (codes "new")))
    ∷ accepts 204 205 (pos 4) (pos 0)
    ∷ serves (connection consume_query (consume_from name))
    ∷ []

accepts-Happens : (n : ℕ) → suc n ≢ 0
accepts-Happens n e = absurd (omega arith)

events-Happens : Happens events 0 commands
events-Happens =
    let (first, (second, (third, none_left))) = connections-AllCarry in
    (
      accepts-Happens 199,
      accepts-Happens 200,
      refl,
      refl,
      (
        accepts-Happens 201,
        accepts-Happens 202,
        refl,
        refl,
        (
          first,
          (refl, (second, (accepts-Happens 203, accepts-Happens 204, refl, refl, (third, tt)))),
        ),
      ),
    )

run_app-Lived_example :
    GoesOn
      (Lived room lib 5 calls logs two_dirs events commands)
      (run_app room lib 5 calls events two_world)
run_app-Lived_example =
    run_app-Lived room lib 5 calls logs events commands two_world room-IsMalloc calls-IsWorking
      addresses-IsFreshPool two_dirs-Distinct two_dirs-IsEntry two_dirs-IsSaved refl two_dirs-Suits
      (omega arith) (omega arith) events-Happens commands-IsPlan (omega arith)

-- No directory `./data`.
abbrev no_data_world : World
no_data_world = record {
  heap = λ a. none;
  disk = record { present = false; dirs = []; failures = [] };
}

app_close_unset_example :
    (r : Remains) × (app_init calls no_data_world ≡ exits r) × (app_close 5 r ≡ crash)
app_close_unset_example = app_close_unset calls 5 no_data_world (λ e. absurd (omega arith)) refl

abbrev server : Server
server = listening calls pool

cells-short : (i : ℕ) → length (cells i) ≤ 2
cells-short i = elim (Bool-cases (0 == i)) [
  | inl e ↦ rw e (omega arith)
  | inr e ↦ rw e (omega arith)
]

app_close-Ends_example : Ends dirs world server cells 2
app_close-Ends_example = app_close-Ends world server cells 2 pool-PoolKept cells-short
