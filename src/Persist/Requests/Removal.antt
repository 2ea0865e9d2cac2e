-- ===== src/Persist/Requests/Removal.antt =====
-- The request `PERSIST_REMOVE_QUEUE` of persist/persist.c on a disk on which no call fails.
use mathlib.Core.List.{Permᴰ}
use bmb.Base.{suc, ◌≡◌, refl, ◌∙◌, ap, sym, true, none, some, List, [], ◌∷◌, arith, length}
use bmb.Base.Text.{CString, codes}
use bmb.Run.{ok}
use bmb.Util.Decimal.Print.{int_to_string_pos}
use bmb.Util.Sort.Order.{length-sort_int_array_asc}
use bmb.Disk.{Files, rmdir}
use bmb.Disk.Table.{Assoc, keys, find, drop, find-drop_self, find-drop_ne}
use bmb.Persist.{
  remove_queue, succeeded, no_data, node_ids, check_dir, check_dir_of, remove_nodes, emptied,
  remove_queue_dir, node_id_string, persist_remove_queue, serve_queue, persist_dispatch, done_or,
}
use bmb.Persist.Store.{Log, ids, sorted_ids-log}
use bmb.Persist.Requests.{
  HasQueue, IsShort, Leaves, SameOthers, calm, request, remove_node_file-oldest, opendir-queue,
  read_queue-ids, get_queue_length-ok, dispatch-serve,
}

length-perm {ℓ} : {A : Type ℓ} {l r : List A} → Permᴰ l r → length l ≡ length r
length-perm Permᴰ.nil = refl
length-perm (Permᴰ.cons e p) = ap suc (length-perm p)
length-perm (Permᴰ.swap e f) = refl
length-perm (Permᴰ.trans p q) = length-perm p ∙ length-perm q

eq_nil {ℓ} : {A : Type ℓ} (l : List A) → length l ≡ 0 → l ≡ []
eq_nil [] h = refl
eq_nil (a ∷ l) h = absurd (omega arith)

length-ids : (log : Log) → length (ids log) ≡ length log
length-ids [] = refl
length-ids ((i, m) ∷ log) = ap suc (length-ids log)

module _ {name : CString} (short : IsShort name) where
  -- The loop removes the nodes from the oldest to the newest.
  remove_nodes-log :
      (log : Log) (dirs : Assoc Files)
      → HasQueue dirs name log
      → (dirs' : Assoc Files) × (remove_nodes name (length log) (ids log) (calm dirs)
          ≡ ok true (calm dirs'))
        × Leaves dirs name [] dirs'
  unfolding remove_nodes
  remove_nodes-log [] dirs q = (dirs, refl, (q, λ other ne. refl))
  remove_nodes-log ((i, m) ∷ log) dirs q =
      let (dirs1, gone, leaves) = remove_node_file-oldest q short in
      let (dirs2, rest, after) = remove_nodes-log log dirs1 leaves.0 in
      (
        dirs2,
        rw (int_to_string_pos i, gone) rest,
        (after.0, λ other ne. after.1 other ne ∙ leaves.1 other ne),
      )

  emptied-log :
      (log : Log) (dirs : Assoc Files)
      → HasQueue dirs name log
      → (dirs' : Assoc Files) × (emptied name (length log) (some (ids log)) (calm dirs)
          ≡ ok true (calm dirs'))
        × Leaves dirs name [] dirs'
  unfolding emptied
  emptied-log [] dirs q = (dirs, refl, (q, λ other ne. refl))
  emptied-log ((i, m) ∷ log) dirs q = remove_nodes-log ((i, m) ∷ log) dirs q

  rmdir-empty :
      (dirs : Assoc Files)
      → HasQueue dirs name []
      → rmdir name (calm dirs) ≡ ok true (calm (drop name dirs))
  unfolding rmdir
  rmdir-empty dirs q = rw (q.found, eq_nil q.files (length-perm q.stored))

  -- On a disk on which no call fails, for a queue with a short name whose directory holds the
  -- nodes of a log, removing the queue succeeds, with no directory of that name left; the
  -- directories of other queues are as before.
  pub remove_queue-gone :
      {log : Log} {dirs : Assoc Files}
      → HasQueue dirs name log
      → (dirs' : Assoc Files) × (persist_dispatch (request remove_queue name 0 none) (calm dirs)
          ≡ ok (succeeded no_data) (calm dirs'))
        × (find name dirs' ≡ none)
        × SameOthers name dirs dirs'
  remove_queue-gone {log} {dirs} q =
      let (dirs1, removed, leaves) = emptied-log log dirs q in
      let sorted = sorted_ids-log q.files log q.is_log q.stored in
      let size : length (node_ids (codes "." ∷ codes ".." ∷ keys q.files)) ≡ length log =
        sym (length-sort_int_array_asc _) ∙ ap length sorted ∙ length-ids log in
      let removal : persist_remove_queue name (calm dirs) ≡ ok true (calm (drop name dirs1)) =
        unfold persist_remove_queue check_dir check_dir_of remove_queue_dir in
        rw (opendir-queue q, read_queue-ids q, get_queue_length-ok q, size, removed)
          (rmdir-empty dirs1 leaves.0) in
      (
        drop name dirs1,
        rw (dispatch-serve remove_queue name 0 none (calm dirs) short)
            (unfold node_id_string serve_queue done_or in rw removal),
        find-drop_self name dirs1,
        λ other ne. find-drop_ne name other dirs1 ne ∙ leaves.1 other ne,
      )
