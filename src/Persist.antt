-- ===== src/Persist.antt =====
-- persist/persist.c: one directory for each queue, one file for each node, named by its id.
pub mod Store
pub mod Requests
use bmb.Base.{
  ℕ, zero, suc, ◌+◌, ◌-◌, ◌%◌, ◌^◌, Bool, true, false, not, ◌&&◌, Option, none, some, List, [], ◌∷◌,
  ◌++◌, ltb, leb, ◌==◌, if◌then◌else◌, length,
}
use mathlib.Core.Option
use bmb.Base.Text.{CString, codes, str_eq}
use bmb.Run.{Cmd, pure, crashes, required, ◌>>=◌, ◌>>◌}
use bmb.Util.Decimal.{ℤ, pos, negsuc, to_unsigned, to_int, atoi, int_to_string}
use bmb.Util.Sort.{sort_int_array_asc}
use bmb.Disk.{
  Disk, Location, data_root, queue_dir, Opened, entries, no_entry, other_error, opendir, mkdir,
  rmdir, write_file, read_file, unlink,
}

pub data RequestKind : Type 0 where
  add_queue remove_queue read_queue get_queue_list add_node remove_node read_node get_next_id :
      RequestKind
  unrecognized : RequestKind

pub record PersistRequest : Type 0 where
  pub kind : RequestKind
  pub queue_name : Option CString
  pub node_id : ℕ
  pub message : Option CString

-- What `void *data` points to.
pub data PersistData : Type 0 where
  no_data : PersistData
  id_data : ℕ → PersistData
  ids_data : List ℤ → PersistData
  names_data : List CString → PersistData
  text_data : CString → PersistData

-- The error message without the text of `strerror`.
pub record PersistResponse : Type 0 where
  pub error_message : Option CString
  pub success : Bool
  pub payload : PersistData

abbrev pub succeeded : PersistData → PersistResponse
succeeded v = record { error_message = none; success = true; payload = v }

abbrev pub failed : CString → PersistResponse
failed text = record { error_message = some text; success = false; payload = no_data }

check_dir_of : Opened → Option (List CString)
check_dir_of (entries names) = some names
check_dir_of no_entry = none
check_dir_of other_error = none

check_dir : Location → Cmd Disk (Option (List CString))
unfolding check_dir_of
check_dir at = do dir ← opendir at; pure (check_dir_of dir)

-- Neither a zero nor a text with no number.
is_node_id : ℤ → Bool
is_node_id (pos zero) = false
is_node_id _ = true

pub node_ids : List CString → List ℤ
node_ids [] = []
node_ids (name ∷ names) =
    if is_node_id (atoi name) then atoi name ∷ node_ids names else node_ids names

-- The ids in ascending order; the array's first element is their number.
ids_of : Option (List CString) → Option (List ℤ)
ids_of none = none
ids_of (some names) = some (sort_int_array_asc (node_ids names))

read_queue_at : Location → Cmd Disk (Option (List ℤ))
unfolding check_dir ids_of
read_queue_at at = do dir ← check_dir at; pure (ids_of dir)

length_of : Option (List CString) → ℕ
length_of none = 0
length_of (some names) = length (node_ids names)

get_queue_length : Location → Cmd Disk ℕ
unfolding check_dir length_of
get_queue_length at = do dir ← check_dir at; pure (length_of dir)

-- An `int` stored in an `unsigned int`, and back.
-- `queue[queueSize] + 1`, or 1 for an empty queue
pub next_after : List ℤ → ℕ
next_after [] = 1
next_after (i ∷ []) = (to_unsigned i + 1) % 2 ^ 32
next_after (i ∷ j ∷ ids) = next_after (j ∷ ids)

next_id_of : Option (List ℤ) → Option ℕ
next_id_of none = none
next_id_of (some ids) = some (next_after ids)

get_next_node_id : Location → Cmd Disk (Option ℕ)
unfolding next_id_of
get_next_node_id at = do get_queue_length at; ids ← read_queue_at at; pure (next_id_of ids)

-- The buffers `path` and `filePath` have 50 bytes.
abbrev path_size : ℕ
path_size = 50

-- `./data/<name>` with its NUL
path_fits : CString → Bool
path_fits name = leb (7 + length name + 1) path_size

file_path_fits : CString → CString → Bool
file_path_fits name file = leb (7 + length name + 1 + length file + 1) path_size

checked : Bool → Cmd Disk (Unit {0})
checked b = if b then pure tt else crashes

-- The file's path is built from a string that must not be NULL.
file_name : CString → Option CString → Cmd Disk CString
unfolding file_path_fits checked
file_name name file = do f ← required file; checked (file_path_fits name f); pure f

create_node_file : CString → Option CString → Option CString → Cmd Disk Bool
create_node_file name file message = do
  f ← file_name name file
  text ← required message
  write_file name f text

made : Opened → CString → Cmd Disk Bool
made (entries names) name = pure true
made no_entry name = mkdir name
made other_error name = pure false

create_queue_dir : CString → Cmd Disk Bool
unfolding made
create_queue_dir name = do dir ← opendir (queue_dir name); made dir name

names_of : List CString → List CString
names_of [] = []
names_of (name ∷ names) =
    if not (str_eq name (codes ".")) && not (str_eq name (codes ".."))
    then name ∷ names_of names
    else names_of names

queue_list_of : Option (List CString) → Option (List CString)
queue_list_of none = none
queue_list_of (some names) = some (names_of names)

get_queue_list_at : Cmd Disk (Option (List CString))
unfolding check_dir queue_list_of
get_queue_list_at = do dir ← check_dir data_root; pure (queue_list_of dir)

-- `fgetc` is kept in a `char`, where the byte 255 is EOF.
unfoldable pub before_eof : CString → CString
before_eof [] = []
before_eof (c ∷ s) = if c == 255 then [] else c ∷ before_eof s

-- With no byte read, the NUL is written to a buffer of no bytes.
text_of : Option CString → Cmd Disk (Option CString)
text_of none = pure none
text_of (some []) = crashes
text_of (some (c ∷ s)) = pure (some (c ∷ s))

read_node_file : CString → Option CString → Cmd Disk (Option CString)
unfolding text_of
read_node_file name file = do
  f ← file_name name file
  text ← read_file name f
  text_of (Option.map before_eof text)

remove_node_file : CString → Option CString → Cmd Disk Bool
remove_node_file name file = do f ← file_name name file; unlink name f

-- The loop of `persist_remove_queue` over the array of ids.
remove_nodes : CString → ℕ → List ℤ → Cmd Disk Bool
remove_nodes name zero ids = pure true
remove_nodes name (suc n) [] = crashes
remove_nodes name (suc n) (i ∷ ids) = do
  file ← required (int_to_string i)
  gone ← remove_node_file name (some file)
  if gone then remove_nodes name n ids else pure false

emptied : CString → ℕ → Option (List ℤ) → Cmd Disk Bool
emptied name zero ids = pure true
emptied name (suc n) none = crashes
emptied name (suc n) (some ids) = remove_nodes name (suc n) ids

remove_queue_dir : CString → Option (List CString) → Cmd Disk Bool
remove_queue_dir name none = pure false
remove_queue_dir name (some dir) = do
  ids ← read_queue_at (queue_dir name)
  n ← get_queue_length (queue_dir name)
  gone ← emptied name n ids
  if gone then rmdir name else pure false

persist_remove_queue : CString → Cmd Disk Bool
persist_remove_queue name = do dir ← check_dir (queue_dir name); remove_queue_dir name dir

done_or : CString → Bool → PersistResponse
done_or text true = succeeded no_data
done_or text false = failed text

found_or {ℓ} : {A : Type ℓ} → CString → (A → PersistData) → Option A → PersistResponse
found_or text as_data none = failed text
found_or text as_data (some a) = succeeded (as_data a)

-- The requests that name a queue; the text of the node id is NULL for the id 0.
serve_queue : RequestKind → CString → Option CString → Option CString → Cmd Disk PersistResponse
serve_queue add_queue name id message = do
  made ← create_queue_dir name
  pure (done_or (codes "Error creating directory: ") made)
serve_queue remove_queue name id message = do
  gone ← persist_remove_queue name
  pure (done_or (codes "Error removing queue: ") gone)
serve_queue read_queue name id message = do
  get_queue_length (queue_dir name)
  ids ← read_queue_at (queue_dir name)
  pure (found_or (codes "Error reading queue: ") ids_data ids)
serve_queue get_queue_list name id message = do
  names ← get_queue_list_at
  pure (found_or (codes "Error getting queue list: ") names_data names)
serve_queue add_node name id message = do
  made ← create_node_file name id message
  pure (done_or (codes "Error creating file: ") made)
serve_queue remove_node name id message = do
  gone ← remove_node_file name id
  pure (done_or (codes "Error removing file: ") gone)
serve_queue read_node name id message = do
  text ← read_node_file name id
  pure (found_or (codes "Error reading node: ") text_data text)
serve_queue get_next_id name id message = do
  next ← get_next_node_id (queue_dir name)
  pure (found_or (codes "Error getting next node id: ") id_data next)
serve_queue unrecognized name id message =
    pure (failed (codes "Error: Persistence request type not recognized."))

queue_name_needed : RequestKind → Bool
queue_name_needed get_queue_list = false
queue_name_needed get_next_id = false
queue_name_needed unrecognized = false
queue_name_needed _ = true

-- The requests that name no queue; the others are answered before.
serve_root : RequestKind → Cmd Disk PersistResponse
serve_root get_queue_list = do
  names ← get_queue_list_at
  pure (found_or (codes "Error getting queue list: ") names_data names)
serve_root get_next_id = do
  next ← get_next_node_id data_root
  pure (found_or (codes "Error getting next node id: ") id_data next)
serve_root unrecognized = pure (failed (codes "Error: Persistence request type not recognized."))
serve_root _ = pure (failed (codes "Error: Queue name needed."))

-- `req.nodeId > 0 ? int_to_string(req.nodeId) : NULL`
node_id_string : ℕ → Cmd Disk (Option CString)
node_id_string zero = pure none
node_id_string (suc n) = do text ← required (int_to_string (to_int (suc n))); pure (some text)

dispatch_queue : PersistRequest → CString → Cmd Disk PersistResponse
unfolding checked
dispatch_queue req name = do
  checked (path_fits name)
  id ← node_id_string req.node_id
  serve_queue req.kind name id req.message

dispatch_root : PersistRequest → Cmd Disk PersistResponse
unfolding queue_name_needed
dispatch_root req =
    if queue_name_needed req.kind
    then pure (failed (codes "Error: Queue name needed."))
    else (do node_id_string req.node_id; serve_root req.kind)

pub persist_dispatch : PersistRequest → Cmd Disk PersistResponse
unfolding dispatch_queue dispatch_root
persist_dispatch req = elim req.queue_name [
  | none ↦ dispatch_root req
  | some name ↦ dispatch_queue req name
]
