-- ===== src/Broker/Reading.antt =====
-- `get`, `get_all` and `length` of broker/broker.c.
use bmb.Base.{
  ℕ, zero, suc, ◌+◌, ◌≤◌, ◌<◌, ◌≡◌, ◌≢◌, refl, ◌∙◌, ap, true, false, Option, none, some, List, [],
  ◌∷◌, ◌++◌, arith, ltb, length, length-append, get_elem?,
}
use bmb.Base.Text.{CString, codes}
use bmb.Run.{ok}
use bmb.Util.Decimal.{pos, sprintf_d}
use bmb.Util.Decimal.Print.{int_to_string_pos}
use bmb.World.{Ptr, null, Heap, World}
use bmb.World.Chain.{Cell, Cells, node_of, first, Linked}
use bmb.Queue.{Queue, node_get_message}
use bmb.Queue.Walk.{IsQueue, address, load-node, queue_size-length, queue_get-address}
use bmb.Pool.{QueuePool, queue_at}
use bmb.Reply.{Cjson, BrokerResponse, create_response}
use bmb.Broker.Listing.{message_listing, listing-message_listing}
use bmb.Broker.{BrokerRequest, message_at, messages_from, get_message, get, length_action, get_all}

Linked-get_elem? :
    (h : Heap) (xs : Cells) (i : ℕ) (c : Cell)
    → Linked h xs
    → get_elem? xs i ≡ some c
    → (next : Ptr) × (c.at ≢ null)
      × (h c.at ≡ some (node_of c next))
      × (address xs i ≡ c.at)
      × (i < length xs)
Linked-get_elem? h [] i c l e = absurd (cc)
Linked-get_elem? h (d ∷ xs) zero c l e =
    (first xs, ground (arith, l.0, e), ground (arith, l.2, e), ground (arith, e), omega arith)
Linked-get_elem? h (d ∷ xs) (suc i) c l e =
    let (next, ne, node, at, lt) = Linked-get_elem? h xs i c l.3 e in
    (next, ne, node, at, omega arith)

-- What `get` answers for the node at the index.
abbrev pub got : Cjson → Option Cell → BrokerResponse
got lib none = create_response lib false 200 (some (codes "Node index out of range.")) none none
got lib (some c) = create_response lib true 200 none (some c.message) none

-- The messages of the nodes, from the root to the tail.
abbrev pub texts : Cells → List CString
texts [] = []
texts (c ∷ xs) = c.message ∷ texts xs

get_elem?-append :
    (zs : Cells) (c : Cell) (ys : Cells) → get_elem? (zs ++ c ∷ ys) (length zs) ≡ some c
get_elem?-append [] c ys = refl
get_elem?-append (z ∷ zs) c ys = get_elem?-append zs c ys

append_one : (zs : Cells) (c : Cell) (ys : Cells) → zs ++ c ∷ ys ≡ (zs ++ c ∷ []) ++ ys
append_one [] c ys = refl
append_one (z ∷ zs) c ys = ap (◌∷◌ z) (append_one zs c ys)

get_elem?-none : (xs : Cells) (i : ℕ) → get_elem? xs i ≡ none → length xs ≤ i
get_elem?-none [] i h = omega arith
get_elem?-none (x ∷ xs) zero h = absurd (cc)
get_elem?-none (x ∷ xs) (suc i) h = omega (arith, get_elem?-none xs i h)

module _ (lib : Cjson) {w : World} {q : Queue} {xs : Cells} (rounds : ℕ) (p : QueuePool) (i : ℕ)
    (is : IsQueue w.heap q xs) (at : get_elem? p.pool i ≡ some q)
    (enough : length xs ≤ rounds) where
  message_at-message :
      (j : ℕ) (c : Cell) → get_elem? xs j ≡ some c → message_at q j w ≡ ok c.message w
  unfolding message_at node_get_message
  message_at-message j c e =
      let (next, ne, node, place, lt) = Linked-get_elem? w.heap xs j c is.linked e in
      rw (queue_get-address {w = w} is j lt, place, load-node w c.at (node_of c next) ne node)

  get-cases :
      (req : BrokerRequest) (found : Option Cell)
      → get_elem? xs req.index ≡ found
      → get lib rounds p i req w ≡ ok (got lib found, p) w
  unfolding get queue_at
  get-cases req none e =
      let outside : ltb req.index (length xs) ≡ false =
        ground (arith, get_elem?-none xs req.index e) in
      rw (at, queue_size-length {w = w} is rounds enough, outside)
  get-cases req (some c) e =
      let (next, ne, node, place, lt) = Linked-get_elem? w.heap xs req.index c is.linked e in
      let inside : ltb req.index (length xs) ≡ true = ground arith in
      rw (at, queue_size-length {w = w} is rounds enough, inside)
        (unfold get_message in rw (message_at-message req.index c e))

  -- On a queue of the pool, given as many rounds as it has nodes, `get` answers the message of the
  -- node at the index, counted from the root, or that the index is out of range, and changes
  -- nothing.
  pub get-got :
      (req : BrokerRequest) → get lib rounds p i req w ≡ ok (got lib (get_elem? xs req.index), p) w
  get-got req = get-cases req (get_elem? xs req.index) refl

  -- On a queue of the pool, given as many rounds as it has nodes, `length` answers the number of
  -- nodes in decimal digits and changes nothing.
  pub length_action-length :
      length_action lib rounds p i w
      ≡ ok (create_response lib true 200 none (some (sprintf_d (pos (length xs)))) none, p) w
  unfolding length_action queue_at
  length_action-length =
      rw (at, queue_size-length {w = w} is rounds enough, int_to_string_pos (length xs))

  messages_from-texts :
      (zs ys : Cells) → xs ≡ zs ++ ys → messages_from q (length zs) (length ys) w ≡ ok (texts ys) w
  unfolding messages_from
  messages_from-texts zs [] e = refl
  messages_from-texts zs (c ∷ ys) e =
      let here : get_elem? xs (length zs) ≡ some c = rw e (get_elem?-append zs c ys) in
      let grown : length zs + 1 ≡ length (zs ++ c ∷ []) =
        omega (arith, length-append zs (c ∷ [])) in
      rw (
        message_at-message (length zs) c here,
        grown,
        messages_from-texts (zs ++ c ∷ []) ys (e ∙ append_one zs c ys),
      )

  -- On a queue of the pool, given as many rounds as it has nodes, `getAll` answers the text that
  -- cJSON prints for the object with the array `nodes`, which has for each node, from the root to the
  -- tail, an object with its index, counted from 0, and its message; or, with code 500, the first
  -- failure of cJSON to get memory for a value or to print. It changes nothing.
  pub get_all-texts : get_all lib rounds p i w ≡ ok (message_listing lib (texts xs), p) w
  unfolding get_all queue_at
  get_all-texts = rw (
    at,
    queue_size-length {w = w} is rounds enough,
    messages_from-texts [] xs refl,
    listing-message_listing lib (texts xs),
  )
