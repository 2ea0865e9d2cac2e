-- ===== src/App/Lifecycle.antt =====
-- The process of app.c from its start to its end.
use bmb.Base.{ℕ, ◌^◌, ◌≤◌, ◌<◌, ◌≡◌, refl, ap, true, false, List, [], ◌∷◌, All, arith, length}
use bmb.Base.Text.{CString}
use bmb.Disk.{Files}
use bmb.Disk.Table.{Assoc, keys, has as has_dir, Distinct}
use bmb.Persist.Store.{Log}
use bmb.Persist.Requests.{calm}
use bmb.Persist.Requests.Listing.{IsEntry}
use bmb.World.{Ptr, World}
use bmb.World.Chain.{Cells, has}
use bmb.Pool.Kept.{nothing}
use bmb.Pool.Load.Awaited.{IsSaved, IsFreshPool, with_logs}
use bmb.Pool.Load.Startup.{AllLoaded}
use bmb.Reply.{Cjson}
use bmb.Broker.Fits.{Fits}
use bmb.Broker.Dispatch.Contents.{Command}
use bmb.Broker.Dispatch.Holds.{Holds}
use bmb.Broker.Dispatch.Refines.{is_used, IsPlan, after_all, answer_all}
use bmb.Http.Response.Answers.{IsMalloc}
use bmb.Server.History.{sent_all}
use bmb.Server.Sockets.{whole, exits, GoesOn, then_on, weaken}
use bmb.App.{StartupCalls, Event, interrupts, App, close_signal_handler, event, run_events, run_app}
use bmb.App.Startup.{IsWorking, app_init-Holds}
use bmb.App.Close.{Ends, app_close-Ends}
use bmb.App.Serving.{Happens, accepted, served, run_events-Continues}

module _ (room : ℕ → ℕ) (lib : Cjson) (rounds : ℕ) (env : StartupCalls) (logs : CString → Log) where
  -- What has been sent and counted, what the broker holds, and how the process ends.
  abbrev pub Lived : Assoc Files → List Event → List Command → App → World → Type 0
  Lived dirs events cmds app w' =
      let s = with_logs logs dirs nothing in
      (app.texts ≡ sent_all room lib (served events) (answer_all lib cmds s))
      × (app.server.request_counter ≡ accepted events)
      × (run_events room lib rounds (interrupts b'y' ∷ []) app w' ≡ exits (whole app.server w'))
      × ((dirs' : Assoc Files) × (cells' : ℕ → Cells) × Holds dirs' w' app.server.broker cells'
            (after_all cmds s) rounds 0
          × Ends dirs' w' app.server cells' rounds)

  -- The nodes of a queue leave room for the commands.
  abbrev pub Suits : List Command → Cells → Type 0
  Suits cmds xs =
      Fits (length cmds) rounds xs × ((a : Ptr) → is_used a cmds ≡ true → has a xs ≡ false)

  -- From a disk as in `app_init-Holds`, where memory is allocated as by glibc, the process starts
  -- and runs through any events as in `run_events-Continues`, in which the queue names of requests
  -- stand for directory entries of their own; the texts that it has sent are those of the answers of
  -- a finite map that starts with the queues of the disk, its count is that of the accepted
  -- connections, its broker holds the contents of the map, in memory and on the disk,
  -- and a confirmed interrupt ends it: all nodes are freed and the disk is left as it is, unless the
  -- array of queues was given back before, which makes the end crash.
  pub run_app-Lived :
      (events : List Event) (cmds : List Command) {dirs : Assoc Files} (w : World)
      → IsMalloc room
      → IsWorking env
      → IsFreshPool env.fresh dirs
      → Distinct dirs
      → All IsEntry (keys dirs)
      → ((n : CString) → has_dir n dirs ≡ true → IsSaved dirs n (logs n))
      → w.disk ≡ calm dirs
      → AllLoaded env.fresh logs (Suits cmds) dirs
      → length cmds ≤ rounds
      → length cmds < 2 ^ 31
      → Happens events 0 cmds
      → IsPlan cmds
      → accepted events < 2 ^ 31
      → GoesOn (Lived dirs events cmds) (run_app room lib rounds env events w)
  unfolding run_app
  run_app-Lived events cmds {dirs} w m h f d entries saved disk fits enough ids hap plan small =
      then_on
        (app_init-Holds env logs w rounds (length cmds) (λ a. is_used a cmds) h f d entries saved
          disk fits enough ids)
        λ s w1 (started, (cells, held, free)).
          let zero : s.request_counter ≡ 0 = ap (λ t. t.request_counter) started in
          weaken
            (run_events-Continues room lib m rounds events cmds
              (record { server = s; threads = 0; texts = [] }) held hap plan free
              (omega (arith, zero, small)))
            λ app w2 (texts, count, waiting, (dirs', cells', held')). (
              texts,
              omega (arith, zero, count),
              unfold run_events event close_signal_handler in refl,
              (
                dirs',
                cells',
                held',
                app_close-Ends w2 app.server cells' rounds held'.pool
                    (λ i. omega (arith, (held'.fits i).enough)),
              ),
            )
