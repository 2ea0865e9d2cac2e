-- ===== src/Reply.antt =====
-- `create_response` of broker/broker.c, and the JSON that the listings print. What cJSON does is a
-- parameter: whether it gets the memory for a value, and what it prints.
use bmb.Base.{
  ℕ, ◌+◌, ◌⊎◌, inl, inr, Bool, true, false, not, ◌&&◌, Option, none, some, List, [], ◌∷◌,
  if◌then◌else◌,
}
use bmb.Base.Text.{CString, codes}

-- The values that cJSON builds.
mutual
  pub data Json : Type 0 where
    bool : Bool → Json
    number : ℕ → Json
    string : CString → Json
    array : Items → Json
    object : Fields → Json

  pub data Items : Type 0 where
    no_items : Items
    item : Json → Items → Items

  pub data Fields : Type 0 where
    no_fields : Fields
    field : CString → Json → Fields → Fields

-- cJSON: does it get the memory for a value, and what does it print?
pub record Cjson : Type 0 where
  pub creates : Json → Bool
  pub print : Json → Option CString

-- `struct broker_response`
pub record BrokerResponse : Type 0 where
  pub code : ℕ
  pub error_message : Option CString
  pub success : Option Json
  pub payload : Option Json

unfoldable pub append_field : CString → Json → Fields → Fields
append_field key j no_fields = field key j no_fields
append_field key j (field k v rest) = field k v (append_field key j rest)

-- Nothing is added to NULL.
unfoldable pub add_item_to_object : Option Json → CString → Json → Option Json
unfolding append_field
add_item_to_object (some (object fields)) key j = some (object (append_field key j fields))
add_item_to_object other key j = other

abbrev text_of : Option CString → Option CString → Option CString
text_of none error = error
text_of (some m) error = some m

abbrev replied : ℕ → Option CString → Option Json → Option Json → BrokerResponse
replied code error success payload = record {
  code = code;
  error_message = error;
  success = success;
  payload = payload;
}

unfoldable pub collect_item : (CString ⊎ Items) → (CString ⊎ Json) → CString ⊎ Items
collect_item rest (inl failure) = inl failure
collect_item (inl failure) (inr j) = inl failure
collect_item (inr items) (inr j) = inr (item j items)

module _ (lib : Cjson) where
  pub create : Json → Option Json
  create j = if lib.creates j then some j else none

  -- The payload's `data`, the last step of `create_response`.
  with_data : Json → Option Json → ℕ → Option CString → Option CString → BrokerResponse
  unfolding create add_item_to_object
  with_data success payload code none error = replied code error (some success) payload
  with_data success payload code (some s) error = elim (create (string s)) [
    | none ↦
        replied 500 (some (codes "Failed to add data value to response JSON.")) (some success)
          payload
    | some j ↦ replied code error (some success) (add_item_to_object payload (codes "data") j)
  ]

  with_message :
      Json → Option Json → ℕ → Option CString → Option CString → Option CString → BrokerResponse
  unfolding with_data
  with_message success payload code none value error = with_data success payload code value error
  with_message success payload code (some m) value error = elim (create (string m)) [
    | none ↦
        replied 500 (some (codes "Failed to add message value to response JSON.")) (some success)
          payload
    | some j ↦ with_data success (add_item_to_object payload (codes "message") j) code value error
  ]

  pub create_response : Bool → ℕ → Option CString → Option CString → Option CString → BrokerResponse
  unfolding with_message
  create_response success code message value error = elim (create (bool success)) [
    | none ↦ replied 500 (some (codes "Failed to add success value to response JSON.")) none none
    | some j ↦ with_message j (create (object no_fields)) code (text_of message error) value error
  ]

  -- Nothing is added to an object that is NULL. One JSON object of the listings, or the text of the failure.
  unfoldable pub indexed : CString → CString → ℕ → CString → CString ⊎ Json
  indexed key failure i s =
      if not (lib.creates (object no_fields) && lib.creates (number i))
      then inl (codes "Failed to add index to node JSON object.")
      else if not (lib.creates (string s))
      then inl failure
      else inr (object (field (codes "index") (number i) (field key (string s) no_fields)))

  -- The objects for the strings, counted from `i`.
  unfoldable pub listed : CString → CString → ℕ → List CString → CString ⊎ Items
  listed key failure i [] = inr no_items
  listed key failure i (s ∷ rest) =
      collect_item (listed key failure (i + 1) rest) (indexed key failure i s)

  unfoldable pub printed : CString → Option CString → BrokerResponse
  printed failure none = create_response false 500 none none (some failure)
  printed failure (some s) = create_response true 200 none (some s) none

  -- The response to a listing: the array under its key, printed.
  unfoldable pub listing : CString → CString → (CString ⊎ Items) → BrokerResponse
  listing key failure (inl text) = create_response false 500 none none (some text)
  listing key failure (inr items) =
      printed failure (lib.print (object (field key (array items) no_fields)))

  -- The object for the array, or the array, may be NULL.
  unfoldable pub with_array : BrokerResponse → BrokerResponse
  with_array res =
      if lib.creates (object no_fields) && lib.creates (array no_items)
      then res
      else create_response false 500 none none
          (some (codes "Failed to add an array to JSON node list."))
