-- ===== src/Broker/Listing.antt =====
-- What `get_all` of broker/broker.c answers for messages.
use bmb.Base.{
  ℕ, ◌+◌, ◌⊎◌, inl, inr, ◌≡◌, refl, true, false, not, ◌&&◌, Bool-cases, Option, none, some, List,
  [], ◌∷◌, if◌then◌else◌,
}
use bmb.Base.Text.{CString, codes}
use bmb.Reply.{
  Json, number, string, array, object, Items, no_items, item, no_fields, field, Cjson,
  BrokerResponse, create_response, collect_item, indexed, listed, printed, listing, with_array,
}

-- `{"index": i, "message": m}`
abbrev pub message_json : ℕ → CString → Json
message_json i m =
    object (field (codes "index") (number i) (field (codes "message") (string m) no_fields))

-- The messages, counted from `i`.
abbrev pub message_items : ℕ → List CString → Items
message_items i [] = no_items
message_items i (m ∷ l) = item (message_json i m) (message_items (i + 1) l)

module _ (lib : Cjson) where
  -- The first value for which cJSON gets no memory, by what the broker tells of it.
  abbrev pub first_failure : ℕ → List CString → Option CString
  first_failure i [] = none
  first_failure i (m ∷ l) =
      if not (lib.creates (object no_fields))
      then some (codes "Failed to add index to node JSON object.")
      else if not (lib.creates (number i))
      then some (codes "Failed to add index to node JSON object.")
      else if not (lib.creates (string m))
      then some (codes "Failed to add message to node JSON object.")
      else first_failure (i + 1) l

  -- A failure is answered with 500.
  abbrev pub failed : CString → BrokerResponse
  failed text = create_response lib false 500 none none (some text)

  abbrev pub sent : Option CString → BrokerResponse
  sent none = failed (codes "Failed to print nodes.")
  sent (some text) = create_response lib true 200 none (some text) none

  abbrev pub all_or_failure : List CString → Option CString → BrokerResponse
  all_or_failure l none =
      sent (lib.print (object (field (codes "nodes") (array (message_items 0 l)) no_fields)))
  all_or_failure l (some text) = failed text

  -- `{"nodes": [{"index": 0, "message": ...}, ...]}`, printed, or the first failure.
  unfoldable pub message_listing : List CString → BrokerResponse
  message_listing l =
      if lib.creates (object no_fields) && lib.creates (array no_items)
      then all_or_failure l (first_failure 0 l)
      else failed (codes "Failed to add an array to JSON node list.")

  abbrev items_or_failure : ℕ → List CString → Option CString → CString ⊎ Items
  items_or_failure i l none = inr (message_items i l)
  items_or_failure i l (some text) = inl text

  abbrev listed_messages : ℕ → List CString → CString ⊎ Items
  listed_messages =
      listed lib (codes "message") (codes "Failed to add message to node JSON object.")

  collect-items_or_failure :
      (i : ℕ) (m : CString) (l : List CString) (failure : Option CString)
      → collect_item (items_or_failure (i + 1) l failure) (inr (message_json i m))
        ≡ items_or_failure i (m ∷ l) failure
  unfolding collect_item
  collect-items_or_failure i m l none = refl
  collect-items_or_failure i m l (some text) = refl

  listed-message_items :
      (i : ℕ) (l : List CString) → listed_messages i l ≡ items_or_failure i l (first_failure i l)
  unfolding listed collect_item indexed
  listed-message_items i [] = refl
  listed-message_items i (m ∷ l) = elim (Bool-cases (lib.creates (object no_fields))) [
    | inr e ↦ rw e
    | inl e ↦ elim (Bool-cases (lib.creates (number i))) [
      | inr e' ↦ rw (e, e')
      | inl e' ↦ elim (Bool-cases (lib.creates (string m))) [
        | inr e'' ↦ rw (e, e', e'')
        | inl e'' ↦
            rw (e, e', e'', listed-message_items (i + 1) l)
              (collect-items_or_failure i m l (first_failure (i + 1) l))
      ]
    ]
  ]

  printed-sent :
      (text : Option CString) → printed lib (codes "Failed to print nodes.") text ≡ sent text
  unfolding printed
  printed-sent none = refl
  printed-sent (some text) = refl

  listing-all_or_failure :
      (l : List CString) (failure : Option CString)
      → listing lib (codes "nodes") (codes "Failed to print nodes.") (items_or_failure 0 l failure)
        ≡ all_or_failure l failure
  unfolding listing
  listing-all_or_failure l none =
      printed-sent
        (lib.print (object (field (codes "nodes") (array (message_items 0 l)) no_fields)))
  listing-all_or_failure l (some text) = refl

  pub listing-message_listing :
      (l : List CString)
      → with_array lib
          (listing lib (codes "nodes") (codes "Failed to print nodes.") (listed_messages 0 l))
        ≡ message_listing l
  unfolding message_listing with_array
  listing-message_listing l =
      rw (listed-message_items 0 l, listing-all_or_failure l (first_failure 0 l))
