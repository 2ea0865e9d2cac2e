-- ===== src/Examples/Served.antt =====
-- The theorems on the broker at the concrete queues.
use mathlib.Core.List.{Permᴰ}
use bmb.Base.{
  ℕ, ◌≡◌, refl, true, false, Option, none, some, [], ◌∷◌, ◌++◌, arith, ◌==◌, if◌then◌else◌,
}
use bmb.Base.Text.{CString, codes, str_eq}
use bmb.Run.{ok, crash}
use bmb.Run.Returns.{Returns}
use bmb.Util.{in_str_array}
use bmb.Util.Url.{decoded, refused, url_decode}
use bmb.Util.Url.Encode.{url_decode_plain}
use bmb.Disk.{Files}
use bmb.Disk.Table.{Assoc, find, put as put_entry}
use bmb.Persist.Store.{files_of}
use bmb.Persist.Requests.{calm}
use bmb.World.{null, Heap, World}
use bmb.World.Chain.{Cell, node_of}
use bmb.Queue.{Queue, queue_new}
use bmb.Queue.Kept.{IsKept}
use bmb.Queue.Fresh.{KeepsOthers}
use bmb.Pool.{allocated, queue_pool_get_by_name}
use bmb.Reply.{create_response}
use bmb.Broker.Listing.{message_listing}
use bmb.Broker.{BrokerRequest, c_string, has_nul, add_queue, consume, get, produce, get_all}
use bmb.Broker.Dispatch.{request_error, is_blank, broker_dispatch}
use bmb.Broker.Dispatch.Checks.{Names, request_error-Names, length-refused, get-refused}
use bmb.Broker.Create.{add_queue-IsKept, add_queue_long}
use bmb.Broker.Reading.{get-got, get_all-texts}
use bmb.Broker.Produce.{Acted, produce-IsKept}
use bmb.Broker.Consume.{consume-IsKept, consume_malformed}
use bmb.Broker.History.{produce_request}
use bmb.Examples.{
  lib, older, newer, two_cells, name, dirs, world, mail, pool, mail-IsQueue, mail-IsKept,
}

abbrev request_of : CString → ℕ → Option CString → BrokerRequest
request_of kind index payload = record {
  kind = some kind;
  queue_name = some name;
  index = index;
  payload = payload;
}

abbrev third : Cell
third = record { at = 12; id = 3; message = codes "new" }

produce-IsKept_example :
    (dirs' : Assoc Files) × Returns
      (Acted lib
        (create_response lib true 200 (some (codes "Message produced.")) none none)
        (third ∷ two_cells)
        (third ∷ [])
        pool
        0
        mail
        dirs
        world
        dirs')
      (produce lib 12 pool 0 (produce_request (codes "new")) world)
produce-IsKept_example =
    produce-IsKept lib 12 pool 0 (produce_request (codes "new")) (codes "new") mail-IsKept refl refl
      (λ e. absurd (omega arith)) refl (omega arith)

hi_decoded : url_decode (codes "hi") ≡ decoded (codes "hi" ++ 0 ∷ [])
hi_decoded = url_decode_plain (codes "hi") ((refl, refl), ((refl, refl), tt))

consume-IsKept_example :
    (dirs' : Assoc Files) × Returns
      (λ r w'.
        Acted lib
          (create_response lib true 200 none (some (c_string (codes "hi" ++ 0 ∷ []))) none)
          (newer ∷ [])
          (newer ∷ older ∷ [])
          pool
          0
          mail
          dirs
          world
          dirs'
          r
          w'
        × (w'.heap 5 ≡ none))
      (consume lib 2 pool 0 world)
consume-IsKept_example =
    consume-IsKept lib (newer ∷ []) older 2 pool 0 (codes "hi" ++ 0 ∷ []) mail-IsKept refl
      (omega arith) hi_decoded

get-got_example :
    get lib 2 pool 0 (request_of (codes "get") 1 none) world
    ≡ ok (create_response lib true 200 none (some (codes "hi")) none, pool) world
get-got_example =
    get-got lib 2 pool 0 mail-IsQueue refl (omega arith) (request_of (codes "get") 1 none)

get_all-texts_example :
    get_all lib 2 pool 0 world
    ≡ ok (message_listing lib (codes "a b" ∷ codes "hi" ∷ []), pool) world
get_all-texts_example = get_all-texts lib 2 pool 0 mail-IsQueue refl (omega arith)

is_checked : request_error pool (codes "consume") (request_of (codes "consume") 0 none) ≡ none
unfolding request_error in_str_array queue_pool_get_by_name str_eq
is_checked = refl

request_error-Names_example : Names pool (request_of (codes "consume") 0 none)
request_error-Names_example =
    request_error-Names pool (codes "consume") (request_of (codes "consume") 0 none)
      (unfold in_str_array str_eq in refl) is_checked

length-refused_example :
    broker_dispatch lib 2 12 pool (request_of (codes "length") 0 none) world
    ≡ ok
        (
          create_response lib false 200 (some (codes "Request is missing the data.")) none none,
          pool,
        )
        world
length-refused_example =
    length-refused lib 2 12 pool (request_of (codes "length") 0 none) world refl
      (unfold is_blank in refl)

get-refused_example :
    broker_dispatch lib 2 12 pool (request_of (codes "get") 0 none) world
    ≡ ok
        (
          create_response lib false 200 (some (codes "Request is missing an index.")) none none,
          pool,
        )
        world
get-refused_example = get-refused lib 2 12 pool (request_of (codes "get") 0 none) world refl refl

abbrev jobs : CString
jobs = codes "jobs"

abbrev jobs_request : BrokerRequest
jobs_request = record {
  kind = some (codes "addQueue");
  queue_name = none;
  index = 0;
  payload = some jobs;
}

abbrev jobs_world : World
jobs_world = record { heap = world.heap; disk = calm (put_entry jobs [] dirs) }

jobs_unknown : queue_pool_get_by_name pool (some jobs) ≡ none
unfolding queue_pool_get_by_name str_eq
jobs_unknown = refl

add_queue-IsKept_example :
    (add_queue lib pool jobs_request world
      ≡ ok
          (
            create_response lib true 200 (some (codes "Queue created.")) none none,
            record { pool = mail ∷ queue_new jobs ∷ []; memory = allocated },
          )
          jobs_world)
    × IsKept (put_entry jobs [] dirs) jobs_world (queue_new jobs) []
    × KeepsOthers [] jobs dirs world (put_entry jobs [] dirs) jobs_world
add_queue-IsKept_example =
    add_queue-IsKept lib dirs pool jobs_request jobs world refl jobs_unknown
      (unfold find str_eq in refl) (refl, refl) (omega arith) refl

abbrev long_name : CString
long_name = codes "a-queue-for-the-orders-of-the-second-quarter"

abbrev long_request : BrokerRequest
long_request = record {
  kind = some (codes "addQueue");
  queue_name = none;
  index = 0;
  payload = some long_name;
}

long_unknown : queue_pool_get_by_name pool (some long_name) ≡ none
unfolding queue_pool_get_by_name str_eq
long_unknown = refl

add_queue_long_example : add_queue lib pool long_request world ≡ crash
add_queue_long_example =
    add_queue_long lib pool long_request long_name world refl long_unknown (omega arith)

-- The queue after `third` was produced with a message that cannot be decoded.
abbrev bad : Cell
bad = record { at = 7; id = 1; message = codes "100%" }

abbrev bad_dirs : Assoc Files
bad_dirs = (name, files_of ((1, codes "100%") ∷ [])) ∷ []

abbrev bad_heap : Heap
bad_heap a = if a == 7 then some (node_of bad null) else none

abbrev bad_world : World
bad_world = record { heap = bad_heap; disk = calm bad_dirs }

abbrev bad_mail : Queue
bad_mail = record { name = name; root = 7; tail = 7; persist = true }

found-bad : find name bad_dirs ≡ some (files_of ((1, codes "100%") ∷ []))
unfolding find str_eq
found-bad = refl

bad-IsKept : IsKept bad_dirs bad_world bad_mail (bad ∷ [])
bad-IsKept = record {
  queue = record { root = refl; tail = refl; linked = (λ e. absurd (omega arith), refl, refl, tt) };
  saved = refl;
  disk = refl;
  directory = record {
    files = files_of ((1, codes "100%") ∷ []);
    found = found-bad;
    stored = Permᴰ.cons refl Permᴰ.nil;
    is_log = (omega arith, omega arith, tt);
  };
  short = omega arith;
}

bad_refused : url_decode (codes "100%") ≡ refused (codes "100")
unfolding url_decode
bad_refused = refl

consume_malformed_example :
    consume lib 1 (record { pool = bad_mail ∷ []; memory = allocated }) 0 bad_world ≡ crash
consume_malformed_example =
    consume_malformed lib [] bad 1 (record { pool = bad_mail ∷ []; memory = allocated }) 0
      (codes "100") bad-IsKept refl (omega arith) bad_refused (unfold has_nul in refl)
