-- ===== src/Persist/Requests/Listing.antt =====
-- The request `PERSIST_GET_QUEUE_LIST` of persist/persist.c on a disk on which no call fails.
use bmb.Base.{◌≡◌, refl, ap, false, none, List, [], ◌∷◌, All, Bool-cases, inl, inr}
use bmb.Base.Text.{CString, codes, str_eq}
use bmb.Run.{ok}
use bmb.Disk.{
  Files, Disk, Opened, data_root, entries, no_entry, other_error, next_failure, spend, opendir,
}
use bmb.Disk.Table.{Assoc, keys}
use bmb.Persist.{
  PersistRequest, PersistResponse, get_queue_list, names_data, succeeded, check_dir, check_dir_of,
  names_of, queue_list_of, get_queue_list_at, node_id_string, serve_root, dispatch_root,
  queue_name_needed, found_or, persist_dispatch,
}
use bmb.Persist.Requests.{calm}

-- No name of the directory itself or of its parent.
abbrev pub IsEntry : CString → Type 0
IsEntry name = (str_eq name (codes ".") ≡ false) × (str_eq name (codes "..") ≡ false)

names_of-entries : (names : List CString) → All IsEntry names → names_of names ≡ names
unfolding names_of
names_of-entries [] h = refl
names_of-entries (name ∷ names) h = rw (h.0.0, h.0.1) (ap (◌∷◌ name) (names_of-entries names h.1))

-- The queues of the disk, in the order of the directory.
pub get_queue_list-keys :
    (req : PersistRequest) (dirs : Assoc Files)
    → req.kind ≡ get_queue_list
    → req.queue_name ≡ none
    → req.node_id ≡ 0
    → All IsEntry (keys dirs)
    → persist_dispatch req (calm dirs) ≡ ok (succeeded (names_data (keys dirs))) (calm dirs)
get_queue_list-keys req dirs kind unnamed id h =
    let opened : opendir data_root (calm dirs)
        ≡ ok (entries (codes "." ∷ codes ".." ∷ keys dirs)) (calm dirs) =
      unfold opendir in refl in
    let names : names_of (codes "." ∷ codes ".." ∷ keys dirs) ≡ keys dirs =
      unfold names_of str_eq in names_of-entries (keys dirs) h in
    unfold persist_dispatch dispatch_root queue_name_needed in
    rw (unnamed, kind, id)
      (unfold node_id_string serve_root get_queue_list_at check_dir check_dir_of queue_list_of
          found_or in
        rw (opened, names))

opendir-missing :
    (d : Disk)
    → d.present ≡ false
    → (at : Opened) × (opendir data_root d ≡ ok at (spend d)) × (check_dir_of at ≡ none)
unfolding opendir check_dir_of
opendir-missing d gone = elim (Bool-cases (next_failure d.failures)) [
  | inl e ↦ (other_error, rw e, refl)
  | inr e ↦ (no_entry, rw (e, gone), refl)
]

-- Without a directory `./data` there is no list.
pub get_queue_list-missing :
    (req : PersistRequest) (d : Disk)
    → req.kind ≡ get_queue_list
    → req.queue_name ≡ none
    → req.node_id ≡ 0
    → d.present ≡ false
    → (res : PersistResponse) × (persist_dispatch req d ≡ ok res (spend d)) × (res.success ≡ false)
get_queue_list-missing req d kind unnamed id gone =
    let (at, opened, nothing) = opendir-missing d gone in
    (
      found_or (codes "Error getting queue list: ") names_data none,
      unfold persist_dispatch dispatch_root queue_name_needed in
          rw (unnamed, kind, id)
            (unfold node_id_string serve_root get_queue_list_at check_dir queue_list_of in
              rw (opened, nothing)),
      unfold found_or in refl,
    )
