-- ===== src/Persist/Requests.antt =====
-- `persist_dispatch` of persist/persist.c on a disk on which no call fails for a reason of its own.
pub mod Removal
pub mod Listing
pub mod Failing
use mathlib.Core.List.{Permᴰ}
use bmb.Base.{
  Bool, ◌||◌, ◌&&◌, ◌==◌, ℕ, zero, suc, ◌^◌, ◌≤◌, ◌<◌, ◌≡◌, refl, ◌∙◌, true, false, Option, none,
  some, [], ◌∷◌, ◌++◌, arith, length,
}
use bmb.Base.Text.{CString, codes, str_eq}
use bmb.Run.{ok, crash, and_then}
use bmb.Util.Decimal.{to_int}
use bmb.Util.Decimal.Print.{int_to_string_pos, length-sprintf_d}
use bmb.Disk.{
  Disk, Files, queue_dir, entries, no_entry, opendir, mkdir, write_file, read_file, unlink,
}
use bmb.Disk.Table.{Assoc, keys, find, has, put, drop, find-put_self, find-put_ne}
use bmb.Persist.{
  PersistRequest, RequestKind, add_queue, made, create_queue_dir, get_next_id, add_node,
  remove_node, read_node, read_queue, ids_data, no_data, id_data, text_data, succeeded, node_ids,
  check_dir, ids_of, read_queue_at, length_of, get_queue_length, get_next_node_id, checked,
  path_fits, file_path_fits, file_name, create_node_file, remove_node_file, read_node_file,
  before_eof, text_of, serve_queue, node_id_string, dispatch_queue, persist_dispatch, done_or,
  found_or,
}
use bmb.Persist.Store.{
  Log, file_of, files_of, ids, IsLog, last_id, sorted_ids-log, next_after-ids, add-perm,
  drop_oldest, find_file, IsLog-append, IsLog-mono,
}

abbrev pub calm : Assoc Files → Disk
calm dirs = record { present = true; dirs = dirs; failures = [] }

-- The directory of the queue holds the nodes of the log and no other file.
pub record HasQueue (dirs : Assoc Files) (name : CString) (log : Log) : Type 0 where
  pub files : Files
  pub found : find name dirs ≡ some files
  pub stored : Permᴰ files (files_of log)
  pub is_log : IsLog 0 log

abbrev pub request : RequestKind → CString → ℕ → Option CString → PersistRequest
request kind name n message = record {
  kind = kind;
  queue_name = some name;
  node_id = n;
  message = message;
}

-- A name for which no path of the queue or of a node with ten digits overruns a buffer.
abbrev pub IsShort : CString → Type 0
IsShort name = length name ≤ 31

abbrev has_slash : CString → Bool
has_slash [] = false
has_slash (c ∷ s) = c == b'/' || has_slash s

abbrev is_dots : CString → Bool
is_dots (c ∷ []) = c == b'.'
is_dots (c ∷ d ∷ []) = c == b'.' && d == b'.'
is_dots _ = false

-- A name that stands for a directory entry of its own: not empty, without `/`, not `.` or `..`.
abbrev pub IsDirName : CString → Type 0
IsDirName [] = ⊥
IsDirName (c ∷ s) = (has_slash (c ∷ s) ≡ false) × (is_dots (c ∷ s) ≡ false)

node_id_string-some :
    (n : ℕ) (d : Disk) → 0 < n → n < 2 ^ 31 → node_id_string n d ≡ ok (some (file_of n)) d
unfolding node_id_string to_int
node_id_string-some zero d h fits = absurd (omega arith)
node_id_string-some (suc n) d h fits = ground (arith, int_to_string_pos (suc n))

file_name-some :
    (name : CString) (n : ℕ) (d : Disk)
    → IsShort name
    → n < 2 ^ 31
    → file_name name (some (file_of n)) d ≡ ok (file_of n) d
unfolding file_name checked file_path_fits
file_name-some name n d short fits = ground (arith, length-sprintf_d n fits)

dispatch-serve :
    (kind : RequestKind) (name : CString) (n : ℕ) (message : Option CString) (d : Disk)
    → IsShort name
    → persist_dispatch (request kind name n message) d
      ≡ and_then (node_id_string n d) (λ id. serve_queue kind name id message)
unfolding persist_dispatch path_fits
dispatch-serve kind name n message d short = ground arith

-- With a queue name of 43 bytes or more, the path of the queue is written past its buffer.
pub persist_dispatch_long :
    (kind : RequestKind) (name : CString) (n : ℕ) (message : Option CString) (d : Disk)
    → 43 ≤ length name
    → persist_dispatch (request kind name n message) d ≡ crash
unfolding persist_dispatch dispatch_queue path_fits checked
persist_dispatch_long kind name n message d long = ground arith

module _ {dirs : Assoc Files} {name : CString} {log : Log} (q : HasQueue dirs name log) where
  opendir-queue :
      opendir (queue_dir name) (calm dirs)
      ≡ ok (entries (codes "." ∷ codes ".." ∷ keys q.files)) (calm dirs)
  unfolding opendir
  opendir-queue = rw q.found

  read_queue-ids : read_queue_at (queue_dir name) (calm dirs) ≡ ok (some (ids log)) (calm dirs)
  unfolding read_queue_at check_dir ids_of
  read_queue-ids = rw opendir-queue (rw (sorted_ids-log q.files log q.is_log q.stored))

  get_queue_length-ok :
      get_queue_length (queue_dir name) (calm dirs)
      ≡ ok (length (node_ids (codes "." ∷ codes ".." ∷ keys q.files))) (calm dirs)
  unfolding get_queue_length check_dir length_of
  get_queue_length-ok = rw opendir-queue

  -- On a disk on which no call fails, for a queue with a short name whose directory holds the
  -- nodes of a log, reading the queue gives the ids of the log in order.
  pub read_queue-ids_of_log :
      IsShort name
      → persist_dispatch (request read_queue name 0 none) (calm dirs)
        ≡ ok (succeeded (ids_data (ids log))) (calm dirs)
  read_queue-ids_of_log short =
      rw (dispatch-serve read_queue name 0 none (calm dirs) short)
        (unfold node_id_string serve_queue found_or in rw (get_queue_length-ok, read_queue-ids))

  -- On a disk on which no call fails, for a queue with a short name whose directory holds the
  -- nodes of a log, the next id is one more than the id of the newest node, or 1 without nodes.
  pub get_next_id-last_id :
      IsShort name
      → persist_dispatch (request get_next_id name 0 none) (calm dirs)
        ≡ ok (succeeded (id_data (suc (last_id 0 log)))) (calm dirs)
  get_next_id-last_id short = rw (dispatch-serve get_next_id name 0 none (calm dirs) short) (
      unfold node_id_string serve_queue get_next_node_id found_or in
      rw (get_queue_length-ok, read_queue-ids) (rw (next_after-ids log q.is_log)))

-- The directories of other names are as before.
abbrev pub SameOthers : CString → Assoc Files → Assoc Files → Type 0
SameOthers name dirs dirs' =
    (other : CString) → str_eq name other ≡ false → find other dirs' ≡ find other dirs

pub HasQueue-same :
    {dirs dirs' : Assoc Files} {name : CString} {log : Log}
    → find name dirs' ≡ find name dirs
    → HasQueue dirs name log
    → HasQueue dirs' name log
HasQueue-same same q = record {
  files = q.files;
  found = same ∙ q.found;
  stored = q.stored;
  is_log = q.is_log;
}

-- From `dirs` to `dirs'` the queue has got the new log, and the other queues are as they were.
abbrev pub Leaves : Assoc Files → CString → Log → Assoc Files → Type 0
Leaves dirs name log dirs' = HasQueue dirs' name log × SameOthers name dirs dirs'

pub has_of_find : {V : Type 0} (k : CString) (l : Assoc V) → find k l ≡ none → has k l ≡ false
unfolding has find
has_of_find k [] h = refl
has_of_find k ((j, v) ∷ l) h = ground (arith, has_of_find k l)

create_queue_dir-absent :
    (dirs : Assoc Files) (name : CString)
    → find name dirs ≡ none
    → create_queue_dir name (calm dirs) ≡ ok true (calm (put name [] dirs))
unfolding create_queue_dir
create_queue_dir-absent dirs name absent =
    let opened : opendir (queue_dir name) (calm dirs) ≡ ok no_entry (calm dirs) =
      unfold opendir in rw absent in
    let created : mkdir name (calm dirs) ≡ ok true (calm (put name [] dirs)) =
      unfold mkdir in rw (has_of_find name dirs absent) in
    rw opened (unfold made in rw created)

-- On a disk on which no call fails, adding a queue with a short name that no directory has
-- succeeds and makes an empty directory; the directories of other queues are as before.
pub add_queue-empty :
    (dirs : Assoc Files) (name : CString)
    → find name dirs ≡ none
    → IsShort name
    → (persist_dispatch (request add_queue name 0 none) (calm dirs)
        ≡ ok (succeeded no_data) (calm (put name [] dirs)))
      × Leaves dirs name [] (put name [] dirs)
add_queue-empty dirs name absent short = (
  rw (dispatch-serve add_queue name 0 none (calm dirs) short)
      (unfold node_id_string serve_queue done_or in rw (create_queue_dir-absent dirs name absent)),
  (
    record { files = []; found = find-put_self name [] dirs; stored = Permᴰ.nil; is_log = tt },
    λ other ne. find-put_ne name other [] dirs ne,
  ),
)

module _ {dirs : Assoc Files} {name : CString} {log : Log} (q : HasQueue dirs name log)
    (short : IsShort name) where
  -- On a disk on which no call fails, for a queue with a short name whose directory holds the
  -- nodes of a log, adding a node with a greater id that fits an `int` succeeds and puts it behind
  -- the nodes of the log; the directories of other queues are as before.
  pub add_node-append :
      (n : ℕ) (m : CString)
      → last_id 0 log < n
      → n < 2 ^ 31
      → (dirs' : Assoc Files) × (persist_dispatch (request add_node name n (some m)) (calm dirs)
          ≡ ok (succeeded no_data) (calm dirs'))
        × Leaves dirs name (log ++ (n, m) ∷ []) dirs'
  add_node-append n m above fits =
      let files' = put (file_of n) m q.files in
      (
        put name files' dirs,
        rw (dispatch-serve add_node name n (some m) (calm dirs) short) (
            rw (node_id_string-some n (calm dirs) (omega arith) fits) (
              unfold serve_queue create_node_file done_or write_file in
              rw (file_name-some name n (calm dirs) short fits) (rw q.found))),
        (
          record {
            files = files';
            found = find-put_self name files' dirs;
            stored = add-perm n m log q.is_log above q.stored;
            is_log = IsLog-append 0 n m log q.is_log above fits;
          },
          λ other ne. find-put_ne name other files' dirs ne,
        ),
      )

  -- On a disk on which no call fails, for a queue with a short name whose directory holds the
  -- nodes of a log, reading a node of the log gives its message up to the first byte 255, if it is
  -- not empty up to there.
  pub read_node-before_eof :
      (n : ℕ) (m : CString) (c : ℕ) (s : CString)
      → 0 < n
      → n < 2 ^ 31
      → find (file_of n) (files_of log) ≡ some m
      → before_eof m ≡ c ∷ s
      → persist_dispatch (request read_node name n none) (calm dirs)
        ≡ ok (succeeded (text_data (c ∷ s))) (calm dirs)
  read_node-before_eof n m c s positive fits at text =
      rw (dispatch-serve read_node name n none (calm dirs) short) (
        rw (node_id_string-some n (calm dirs) positive fits) (
          unfold serve_queue read_node_file found_or read_file in
          rw (file_name-some name n (calm dirs) short fits) (
            rw (q.found, ← find_file (file_of n) log q.is_log q.stored, at, text)
              (unfold text_of in refl))))

module _ {dirs : Assoc Files} {name : CString} {i : ℕ} {m : CString} {log : Log}
    (q : HasQueue dirs name ((i, m) ∷ log)) (short : IsShort name) where
  remove_node_file-oldest :
      (dirs' : Assoc Files) × (remove_node_file name (some (file_of i)) (calm dirs)
        ≡ ok true (calm dirs'))
      × Leaves dirs name log dirs'
  remove_node_file-oldest =
      let files' = drop (file_of i) q.files in
      let (there, rest) = drop_oldest i m log q.is_log q.stored in
      (
        put name files' dirs,
        unfold remove_node_file unlink in
            rw (file_name-some name i (calm dirs) short q.is_log.1) (rw (q.found, there)),
        (
          record {
            files = files';
            found = find-put_self name files' dirs;
            stored = rest;
            is_log = IsLog-mono 0 i log (omega arith) q.is_log.2;
          },
          λ other ne. find-put_ne name other files' dirs ne,
        ),
      )

  -- On a disk on which no call fails, for a queue with a short name whose directory holds the
  -- nodes of a log, removing the oldest node succeeds and leaves the others; the directories of
  -- other queues are as before.
  pub remove_node-oldest :
      (dirs' : Assoc Files) × (persist_dispatch (request remove_node name i none) (calm dirs)
        ≡ ok (succeeded no_data) (calm dirs'))
      × Leaves dirs name log dirs'
  remove_node-oldest =
      let (dirs', gone, leaves) = remove_node_file-oldest in
      (
        dirs',
        rw (dispatch-serve remove_node name i none (calm dirs) short) (
            rw (node_id_string-some i (calm dirs) (omega arith) q.is_log.1)
              (unfold serve_queue done_or in rw gone)),
        leaves,
      )
