-- ===== src/Pool/Load/Nodes.antt =====
-- The inner loop of `queue_pool_load` in queue/queue_pool.c.
use bmb.Base.{
  ℕ, ◌^◌, ◌≤◌, ◌<◌, ◌≡◌, ◌≢◌, refl, sym, ◌∙◌, ap, false, none, some, [], ◌∷◌, ◌++◌, arith,
}
use mathlib.Core.Path.{subst}
use bmb.Base.Text.{CString, str_eq_refl}
use bmb.Run.{ok}
use bmb.Run.Returns
use bmb.Run.Returns.{Returns, returns}
use bmb.Disk.{Files}
use bmb.Disk.Table.{Assoc, find}
use bmb.Util.Decimal.{pos, to_unsigned}
use bmb.Util.Decimal.Print.{sprintf_d_ne}
use bmb.Persist.{read_node, text_data, succeeded, before_eof, persist_dispatch}
use bmb.Persist.Store.{Log, ids, IsLog, file_of, files_of}
use bmb.Persist.Requests.{HasQueue, IsShort, request, calm, read_node-before_eof}
use bmb.World.{Ptr, null, World, on_disk}
use bmb.World.Chain.{Cell, Cells, has, SameOutside, frame}
use bmb.Queue.{Queue}
use bmb.Queue.Walk.{IsQueue}
use bmb.Queue.Kept.{log_of}
use bmb.Queue.Fresh.{
  new_node, with_node, with_node_self, with_node-ne, node_new-blank, node_set_message-blank,
}
use bmb.Queue.Add.{queue_add_unsaved}
use bmb.Pool.Load.{succeed_or_exit, text_in, load_node, load_nodes}

-- A message that is read from its file as it was written: not empty, and without the byte 255.
abbrev pub Survives : CString → Type 0
Survives [] = ⊥
Survives (c ∷ s) = before_eof (c ∷ s) ≡ c ∷ s

abbrev pub AllSurvive : Log → Type 0
AllSurvive [] = Unit
AllSurvive ((n, m) ∷ log) = Survives m × AllSurvive log

-- The nodes of the log in front of others, the newest first.
abbrev pub loaded : (ℕ → Ptr) → Cells → Log → Cells
loaded fresh xs [] = xs
loaded fresh xs ((n, m) ∷ log) =
    loaded fresh (record { at = fresh n; id = n; message = m } ∷ xs) log

-- Different ids get different addresses.
abbrev pub IsFresh : (ℕ → Ptr) → Type 0
IsFresh fresh = ((n : ℕ) → fresh n ≢ null) × ((m n : ℕ) → fresh m ≡ fresh n → m ≡ n)

-- The nodes lie where their ids say, and have ids up to a bound.
abbrev pub Placed : (ℕ → Ptr) → ℕ → Cells → Type 0
Placed fresh lo [] = Unit
Placed fresh lo (c ∷ xs) = (c.at ≡ fresh c.id) × (c.id ≤ lo) × Placed fresh lo xs

Placed-mono :
    (fresh : ℕ → Ptr) (lo n : ℕ) (xs : Cells) → lo ≤ n → Placed fresh lo xs → Placed fresh n xs
Placed-mono fresh lo n [] le h = tt
Placed-mono fresh lo n (c ∷ xs) le h = (h.0, omega arith, Placed-mono fresh lo n xs le h.2)

not-has-Placed :
    (fresh : ℕ → Ptr) (lo n : ℕ) (xs : Cells)
    → IsFresh fresh
    → lo < n
    → Placed fresh lo xs
    → has (fresh n) xs ≡ false
not-has-Placed fresh lo n [] f lt h = refl
not-has-Placed fresh lo n (c ∷ xs) f lt h =
    let ne : fresh n ≢ c.at = λ e. absurd (omega (arith, f.1 n c.id (e ∙ h.0))) in
    ground (arith, not-has-Placed fresh lo n xs f lt h.2)

IsLog-tail :
    (lo n : ℕ) (m : CString) (done rest : Log)
    → IsLog lo (done ++ (n, m) ∷ rest)
    → (lo < n) × (n < 2 ^ 31)
IsLog-tail lo n m [] rest h = (h.0, h.1)
IsLog-tail lo n m ((i, t) ∷ done) rest h =
    let (a, b) = IsLog-tail i n m done rest h.2 in (omega arith, b)

find-append :
    (lo n : ℕ) (m : CString) (done rest : Log)
    → IsLog lo (done ++ (n, m) ∷ rest)
    → find (file_of n) (files_of (done ++ (n, m) ∷ rest)) ≡ some m
unfolding find
find-append lo n m [] rest h = rw (str_eq_refl (file_of n))
find-append lo n m ((i, t) ∷ done) rest h =
    let other = sprintf_d_ne i n (λ e. absurd (omega (arith, IsLog-tail i n m done rest h.2))) in
    rw other (find-append i n m done rest h.2)

append_one : (l : Log) (x : ℕ × CString) (r : Log) → l ++ x ∷ r ≡ (l ++ x ∷ []) ++ r
append_one [] x r = refl
append_one (y ∷ l) x r = ap (◌∷◌ y) (append_one l x r)

append_nil : (l : Log) → l ++ [] ≡ l
append_nil [] = refl
append_nil (y ∷ l) = ap (◌∷◌ y) (append_nil l)

to_unsigned_pos : (n : ℕ) → n < 2 ^ 31 → to_unsigned (pos n) ≡ n
unfolding to_unsigned
to_unsigned_pos n h = omega arith

module _ {dirs : Assoc Files} {name : CString} {log : Log} (d : HasQueue dirs name log)
    (short : IsShort name) where
  read_survivor :
      (w : World) (n : ℕ) (m : CString)
      → w.disk ≡ calm dirs
      → 0 < n
      → n < 2 ^ 31
      → find (file_of n) (files_of log) ≡ some m
      → Survives m
      → on_disk (persist_dispatch (request read_node name n none)) w
        ≡ ok (succeeded (text_data m)) w
  read_survivor w n [] disk positive fits at alive = absurd alive
  read_survivor w n (c ∷ s) disk positive fits at alive =
      rw (disk, read_node-before_eof d short n (c ∷ s) c s positive fits at alive, ← disk)

  load_node-first :
      (fresh : ℕ → Ptr) (w : World) (q : Queue) (xs : Cells) (n : ℕ) (m : CString)
      → w.disk ≡ calm dirs
      → IsQueue w.heap q xs
      → q.persist ≡ false
      → fresh n ≢ null
      → has (fresh n) xs ≡ false
      → 0 < n
      → n < 2 ^ 31
      → find (file_of n) (files_of log) ≡ some m
      → Survives m
      → let c : Cell = record { at = fresh n; id = n; message = m } in
        Returns
          (λ q' w'.
            (q'.name ≡ q.name)
            × (q'.persist ≡ false)
            × IsQueue w'.heap q' (c ∷ xs)
            × (w'.disk ≡ w.disk)
            × SameOutside (c ∷ []) w.heap w'.heap)
          (load_node fresh name q (pos n) w)
  load_node-first fresh w q xs n m disk is unsaved ne out positive fits at alive =
      let c : Cell = record { at = fresh n; id = n; message = m } in
      let w1 : World = record w { heap = with_node w.heap (fresh n) n m } in
      let is1 : IsQueue w1.heap q xs = record {
        root = is.root;
        tail = is.tail;
        linked =
            frame w.heap w1.heap xs is.linked
              (λ a i. with_node-ne w.heap (fresh n) a n m (ground arith));
      } in
      let added =
        queue_add_unsaved w1 q xs c (new_node n m) is1 unsaved ne out
          (with_node_self w.heap (fresh n) n m) refl refl in
      unfold load_node succeed_or_exit text_in in
      rw
        (
          to_unsigned_pos n fits,
          read_survivor w n m disk positive fits at alive,
          node_new-blank w (fresh n) n ne,
          node_set_message-blank w (fresh n) n m ne,
        )
        (Returns.bind added λ (done, q') w' (done_so, named, still, kept, same, apart). returns (
          named,
          still,
          kept,
          same,
          λ a o. apart a o ∙ with_node-ne w.heap (fresh n) a n m (ground arith),
        ))

  pub load_nodes-from :
      (fresh : ℕ → Ptr) (w : World) (q : Queue) (xs : Cells) (lo : ℕ) (done rest : Log)
      → IsFresh fresh
      → log ≡ done ++ rest
      → IsLog lo rest
      → Placed fresh lo xs
      → w.disk ≡ calm dirs
      → IsQueue w.heap q xs
      → q.persist ≡ false
      → AllSurvive rest
      → Returns
          (λ q' w'.
            (q'.name ≡ q.name)
            × (q'.persist ≡ false)
            × IsQueue w'.heap q' (loaded fresh xs rest)
            × (w'.disk ≡ w.disk)
            × ((a : Ptr) → ((n : ℕ) → a ≢ fresh n) → w'.heap a ≡ w.heap a))
          (load_nodes fresh name q (ids rest) w)
  unfolding load_nodes
  load_nodes-from fresh w q xs lo done [] f e l h disk is unsaved alive =
      returns (refl, unsaved, is, refl, λ a o. refl)
  load_nodes-from fresh w q xs lo done ((n, m) ∷ rest) f e l h disk is unsaved alive =
      let c : Cell = record { at = fresh n; id = n; message = m } in
      let at : find (file_of n) (files_of log) ≡ some m =
        rw e (find-append 0 n m done rest (subst (IsLog 0) e d.is_log)) in
      Returns.bind
        (load_node-first fresh w q xs n m disk is unsaved (f.0 n)
          (not-has-Placed fresh lo n xs f l.0 h) (omega (arith, l.0)) l.1 at alive.0)
        λ q1 w1 (named, still, is1, same, apart).
          Returns.mono
            (load_nodes-from fresh w1 q1 (c ∷ xs) n (done ++ (n, m) ∷ []) rest f
              (e ∙ append_one done (n, m) rest) l.2
              (refl, omega arith, Placed-mono fresh lo n xs (omega (arith, l.0)) h) (same ∙ disk)
              is1 still alive.1)
            λ q2 w2 (named2, still2, is2, same2, apart2). (
              named2 ∙ named,
              still2,
              is2,
              same2 ∙ same,
              λ a o. apart2 a o ∙ apart a (ground (arith, o n)),
            )

pub log_of-loaded :
    (fresh : ℕ → Ptr) (xs : Cells) (rest : Log) → log_of (loaded fresh xs rest) ≡ log_of xs ++ rest
log_of-loaded fresh xs [] = sym (append_nil (log_of xs))
log_of-loaded fresh xs ((n, m) ∷ rest) =
    log_of-loaded fresh (record { at = fresh n; id = n; message = m } ∷ xs) rest
    ∙ sym (append_one (log_of xs) (n, m) rest)
