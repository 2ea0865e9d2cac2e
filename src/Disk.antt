-- ===== src/Disk.antt =====
-- The `data` directory of the working directory, and the system calls of libc that
-- persist/persist.c makes on it. A queue directory holds files; both are kept in the order in
-- which `readdir` finds them. Every call may fail, as the list of failures that the environment
-- has in store says; an empty list means that calls fail only for the documented reasons. A name is
-- taken as that of an entry of its own: neither empty nor with a `/`, and not `.` or `..`.
pub mod Table
use bmb.Base.{ℕ, Bool, true, false, Option, none, some, List, [], ◌∷◌, map, if◌then◌else◌}
use bmb.Base.Text.{CString, codes}
use bmb.Run.{Cmd, ok}
use bmb.Disk.Table.{Assoc, keys, find, has, put, drop}

-- Names and contents.
abbrev pub Files : Type 0
Files = Assoc CString

pub record Disk : Type 0 where
  -- Is there a directory `./data`?
  pub present : Bool
  pub dirs : Assoc Files
  pub failures : List Bool

-- `./data`, or `./data/<name>`
pub data Location : Type 0 where
  data_root : Location
  queue_dir : CString → Location

-- Does the next call fail for a reason of the environment's own (EACCES, EMFILE, ENOSPC, EIO)?
pub next_failure : List Bool → Bool
next_failure [] = false
next_failure (f ∷ rest) = f

pub later_failures : List Bool → List Bool
later_failures [] = []
later_failures (f ∷ rest) = rest

abbrev pub spend : Disk → Disk
spend d = record d { failures = later_failures d.failures }

-- What `opendir` and `readdir` give: the names, or no directory, with ENOENT or another error.
pub data Opened : Type 0 where
  entries : List CString → Opened
  no_entry : Opened
  other_error : Opened

-- Every directory lists itself and its parent.
listing {ℓ} : {V : Type ℓ} → Assoc V → Opened
listing l = entries (codes "." ∷ codes ".." ∷ keys l)

opened_files : Option Files → Opened
opened_files none = no_entry
opened_files (some files) = listing files

opened : Disk → Location → Opened
opened d data_root = if d.present then listing d.dirs else no_entry
opened d (queue_dir name) = if d.present then opened_files (find name d.dirs) else no_entry

unfoldable pub opendir : Location → Cmd Disk Opened
unfolding next_failure later_failures opened opened_files listing find
opendir at d = ok (if next_failure d.failures then other_error else opened d at) (spend d)

-- `mkdir("./data/<name>")`: was it made?
unfoldable pub mkdir : CString → Cmd Disk Bool
unfolding next_failure later_failures has put drop
mkdir name d =
    if next_failure d.failures
    then ok false (spend d)
    else if d.present
    then (if has name d.dirs
        then ok false (spend d)
        else ok true (record (spend d) { dirs = put name [] d.dirs }))
    else ok false (spend d)

is_empty : Files → Bool
is_empty [] = true
is_empty (f ∷ rest) = false

removed : CString → Option Files → Disk → Bool
removed name none d = false
removed name (some files) d = is_empty files

-- `rmdir("./data/<name>")`: was it removed? Only an empty directory is.
unfoldable pub rmdir : CString → Cmd Disk Bool
unfolding next_failure later_failures removed is_empty find drop
rmdir name d =
    if next_failure d.failures
    then ok false (spend d)
    else if removed name (find name d.dirs) d
    then ok true (record (spend d) { dirs = drop name d.dirs })
    else ok false (spend d)

write_in : CString → CString → CString → Option Files → Disk → Disk
write_in name file text none d = d
write_in name file text (some files) d = record d { dirs = put name (put file text files) d.dirs }

is_some : {A : Type 0} → Option A → Bool
is_some none = false
is_some (some a) = true

-- `fopen("./data/<name>/<file>", "w")`, `fprintf` of the text and `fclose`: was it opened?
unfoldable pub write_file : CString → CString → CString → Cmd Disk Bool
unfolding next_failure later_failures write_in is_some find has put drop
write_file name file text d =
    if next_failure d.failures
    then ok false (spend d)
    else ok (is_some (find name d.dirs)) (write_in name file text (find name d.dirs) (spend d))

content : CString → Option Files → Option CString
unfolding find
content file none = none
content file (some files) = find file files

-- `fopen("./data/<name>/<file>", "r")` and the bytes that `fgetc` then yields
unfoldable pub read_file : CString → CString → Cmd Disk (Option CString)
unfolding next_failure later_failures content find
read_file name file d =
    ok (if next_failure d.failures then none else content file (find name d.dirs)) (spend d)

unlink_in : CString → CString → Option Files → Disk → Disk
unlink_in name file none d = d
unlink_in name file (some files) d = record d { dirs = put name (drop file files) d.dirs }

has_file : CString → Option Files → Bool
unfolding has
has_file file none = false
has_file file (some files) = has file files

-- `unlink("./data/<name>/<file>")`: was the file removed?
unfoldable pub unlink : CString → CString → Cmd Disk Bool
unfolding next_failure later_failures unlink_in has_file find has put drop
unlink name file d =
    if next_failure d.failures
    then ok false (spend d)
    else if has_file file (find name d.dirs)
    then ok true (unlink_in name file (find name d.dirs) (spend d))
    else ok false (spend d)
