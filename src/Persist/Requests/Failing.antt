-- ===== src/Persist/Requests/Failing.antt =====
-- Requests of persist/persist.c on a disk on which later calls fail.
use bmb.Base.{ℕ, suc, ◌^◌, ◌<◌, ◌≡◌, refl, Bool, true, false, some, none, List, ◌∷◌}
use bmb.Base.Text.{CString, codes}
use bmb.Run.{ok}
use bmb.Disk.{Disk, Files, queue_dir, entries, opendir, write_file}
use bmb.Disk.Table.{Assoc, keys}
use bmb.Persist.{
  PersistResponse, get_next_id, add_node, id_data, succeeded, check_dir, ids_of, read_queue_at,
  length_of, get_queue_length, get_next_node_id, create_node_file, serve_queue, node_id_string,
  done_or, found_or, persist_dispatch,
}
use bmb.Persist.Store.{Log, last_id, sorted_ids-log, next_after-ids}
use bmb.Persist.Requests.{
  HasQueue, IsShort, request, dispatch-serve, node_id_string-some, file_name-some,
}

-- A disk on which the next calls fail or not, as the list says.
abbrev pub failing : Assoc Files → List Bool → Disk
failing dirs failures = record { present = true; dirs = dirs; failures = failures }

module _ {dirs : Assoc Files} {name : CString} {log : Log} (q : HasQueue dirs name log)
    (short : IsShort name) (rest : List Bool) where
  opendir-failing :
      (failures : List Bool)
      → opendir (queue_dir name) (failing dirs (false ∷ failures))
        ≡ ok (entries (codes "." ∷ codes ".." ∷ keys q.files)) (failing dirs failures)
  unfolding opendir
  opendir-failing failures = rw q.found

  -- The two calls for the next id do not fail.
  pub get_next_id-failing :
      persist_dispatch (request get_next_id name 0 none) (failing dirs (false ∷ false ∷ rest))
      ≡ ok (succeeded (id_data (suc (last_id 0 log)))) (failing dirs rest)
  unfolding get_queue_length read_queue_at check_dir length_of ids_of
  get_next_id-failing =
      rw (dispatch-serve get_next_id name 0 none (failing dirs (false ∷ false ∷ rest)) short) (
        unfold node_id_string serve_queue get_next_node_id found_or in
        rw (opendir-failing (false ∷ rest), opendir-failing rest)
          (rw (sorted_ids-log q.files log q.is_log q.stored) (rw (next_after-ids log q.is_log))))

  -- The file of the node cannot be opened.
  pub add_node-failing :
      (n : ℕ) (m : CString)
      → 0 < n
      → n < 2 ^ 31
      → (res : PersistResponse) × (persist_dispatch
            (request add_node name n (some m))
            (failing dirs (true ∷ rest))
          ≡ ok res (failing dirs rest))
        × (res.success ≡ false)
  add_node-failing n m positive fits = (
    done_or (codes "Error creating file: ") false,
    rw (dispatch-serve add_node name n (some m) (failing dirs (true ∷ rest)) short) (
        rw (node_id_string-some n (failing dirs (true ∷ rest)) positive fits) (
          unfold serve_queue create_node_file write_file in
          rw (file_name-some name n (failing dirs (true ∷ rest)) short fits))),
    unfold done_or in refl,
  )
