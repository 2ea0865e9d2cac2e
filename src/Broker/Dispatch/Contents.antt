-- ===== src/Broker/Dispatch/Contents.antt =====
-- What the requests to `broker_dispatch` of broker/broker.c promise: a finite map from names to
-- first-in first-out queues of texts.
use bmb.Base.{
  ℕ, length, get_elem?, if◌then◌else◌, ◌≢◌, Bool, false, true, Option, none, some, List, [], ◌∷◌,
  ◌++◌, ◌==◌, ◌≡◌,
}
use bmb.Base.Text.{CString, codes}
use bmb.Util.Decimal.{pos, sprintf_d}
use bmb.Util.Url.{url_decode}
use bmb.World.{Ptr, null}
use bmb.Persist.Requests.{IsShort, IsDirName}
use bmb.Pool.Kept.{Contents, update}
use bmb.Reply.{Cjson, BrokerResponse, create_response}
use bmb.Broker.Listing.{message_listing}
use bmb.Broker.{BrokerRequest}
use bmb.Broker.Dispatch.{is_blank}
use bmb.Broker.Fits.{plain_text, IsDecoded}

-- A request for a length is answered only if it carries data, as `length_of` does and
-- `bare_length_of` does not. `produce_to name fresh m` is a request to produce `m`, for which
-- `malloc` gives `fresh`.
pub data Command : Type 0 where
  produce_to : CString → Ptr → CString → Command
  consume_from : CString → Command
  create : CString → Command
  destroy : CString → Command
  length_of : CString → Command
  bare_length_of : CString → Command
  get_at : CString → ℕ → Command
  get_all_of : CString → Command

-- The request asks for what the command says.
abbrev pub Asks : Command → BrokerRequest → Type 0
Asks (produce_to name fresh m) req =
    (req.kind ≡ some (codes "produce")) × (req.queue_name ≡ some name) × (req.payload ≡ some m)
Asks (consume_from name) req = (req.kind ≡ some (codes "consume")) × (req.queue_name ≡ some name)
Asks (create name) req = (req.kind ≡ some (codes "addQueue")) × (req.payload ≡ some name)
Asks (destroy name) req = (req.kind ≡ some (codes "removeQueue")) × (req.queue_name ≡ some name)
Asks (length_of name) req =
    (req.kind ≡ some (codes "length"))
    × (req.queue_name ≡ some name)
    × (is_blank req.payload ≡ false)
Asks (bare_length_of name) req =
    (req.kind ≡ some (codes "length"))
    × (req.queue_name ≡ some name)
    × (is_blank req.payload ≡ true)
Asks (get_at name index) req =
    (req.kind ≡ some (codes "get")) × (req.queue_name ≡ some name) × (req.index ≡ index)
Asks (get_all_of name) req = (req.kind ≡ some (codes "getAll")) × (req.queue_name ≡ some name)

abbrev pub address_of : Command → Ptr
address_of (produce_to name fresh m) = fresh
address_of _ = null

-- Is the address used for a new node?
abbrev pub is_new : Ptr → Command → Bool
is_new a (produce_to name fresh m) = a == fresh
is_new a _ = false

-- The node at the root is the newest.
abbrev pub newest_first : List CString → List CString
newest_first [] = []
newest_first (m ∷ l) = newest_first l ++ m ∷ []

module _ (lib : Cjson) where
  unfoldable pub told : Bool → CString → BrokerResponse
  told success text = create_response lib success 200 (some text) none none

  abbrev not_found : BrokerResponse
  not_found = told false (codes "Queue not found.")

  produced : Option (List CString) → BrokerResponse
  produced none = not_found
  produced (some l) = told true (codes "Message produced.")

  consumed : Option (List CString) → BrokerResponse
  consumed none = not_found
  consumed (some []) = told false (codes "Queue is empty.")
  consumed (some (m ∷ l)) =
      create_response lib true 200 none (some (plain_text (url_decode m))) none

  created : Option (List CString) → BrokerResponse
  created none = told true (codes "Queue created.")
  created (some l) = told false (codes "Failed: Queue with given name already exists.")

  destroyed : Option (List CString) → BrokerResponse
  destroyed none = not_found
  destroyed (some l) = told true (codes "Queue removed.")

  counted : Option (List CString) → BrokerResponse
  counted none = not_found
  counted (some l) = create_response lib true 200 none (some (sprintf_d (pos (length l)))) none

  unfoldable pub picked : Option CString → BrokerResponse
  unfolding told
  picked none = told false (codes "Node index out of range.")
  picked (some m) = create_response lib true 200 none (some m) none

  fetched : ℕ → Option (List CString) → BrokerResponse
  fetched index none = not_found
  fetched index (some l) = picked (get_elem? (newest_first l) index)

  shown : Option (List CString) → BrokerResponse
  shown none = not_found
  shown (some l) = message_listing lib (newest_first l)

  unfoldable pub answer : Command → Contents → BrokerResponse
  unfolding told produced consumed created destroyed counted picked fetched shown plain_text
  answer (produce_to name fresh m) s = produced (s name)
  answer (consume_from name) s = consumed (s name)
  answer (create name) s = created (s name)
  answer (destroy name) s = destroyed (s name)
  answer (length_of name) s = counted (s name)
  answer (bare_length_of name) s = told false (codes "Request is missing the data.")
  answer (get_at name index) s =
      if index == 0
      then told false (codes "Request is missing an index.")
      else fetched index (s name)
  answer (get_all_of name) s = shown (s name)

put_last : CString → CString → Option (List CString) → Contents → Contents
put_last name m none s = s
put_last name m (some l) s = update name (some (l ++ m ∷ [])) s

take_first : CString → Option (List CString) → Contents → Contents
take_first name none s = s
take_first name (some []) s = s
take_first name (some (m ∷ l)) s = update name (some l) s

make : CString → Option (List CString) → Contents → Contents
make name none s = update name (some []) s
make name (some l) s = s

forget : CString → Option (List CString) → Contents → Contents
forget name none s = s
forget name (some l) s = update name none s

unfoldable pub after : Command → Contents → Contents
unfolding put_last take_first make forget update
after (produce_to name fresh m) s = put_last name m (s name) s
after (consume_from name) s = take_first name (s name) s
after (create name) s = make name (s name) s
after (destroy name) s = forget name (s name) s
after (length_of name) s = s
after (bare_length_of name) s = s
after (get_at name index) s = s
after (get_all_of name) s = s

-- A text that is not empty.
abbrev pub IsGiven : CString → Type 0
IsGiven [] = ⊥
IsGiven (c ∷ s) = Unit

-- The names are those of directory entries, messages are not empty and can be decoded, new queues
-- have short names, and new nodes are not at NULL.
abbrev pub IsProper : Command → Type 0
IsProper (produce_to name fresh m) =
    IsDirName name × IsGiven m × (fresh ≢ null) × IsDecoded (url_decode m)
IsProper (consume_from name) = IsDirName name
IsProper (create name) = IsDirName name × IsShort name
IsProper (destroy name) = IsDirName name
IsProper (length_of name) = IsDirName name
IsProper (bare_length_of name) = IsDirName name
IsProper (get_at name index) = IsDirName name
IsProper (get_all_of name) = IsDirName name
