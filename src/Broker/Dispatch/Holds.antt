-- ===== src/Broker/Dispatch/Holds.antt =====
-- When the pool of `broker_dispatch` of broker/broker.c holds contents, and how they change.
use mathlib.Core.Path.{subst}
use bmb.Base.{
  ℕ, suc, ◌^◌, ◌≤◌, ◌<◌, [], ◌∷◌, ◌++◌, length, ◌≡◌, refl, ◌∙◌, ap, sym, true, false, Option, none,
  some, Bool-cases, inl, inr, ◌==◌, arith, get_elem?,
}
use bmb.Base.Text.{CString, str_eq, str_eq_comm}
use bmb.Disk.{Files}
use bmb.Disk.Table.{Assoc, find}
use bmb.World.{Ptr, World}
use bmb.World.Chain.{Cells, has}
use bmb.Queue.{Queue}
use bmb.Queue.Kept.{IsKept}
use bmb.Queue.Fresh.{KeepsOthers}
use bmb.Pool.{QueuePool, queue_pool_get_by_name}
use bmb.Pool.Names.{FoundBy, queue_pool_get_by_name-FoundBy}
use bmb.Pool.Kept.{
  Contents, update, texts_of, HasNoName, PoolKept, set_cells, Puts, PoolKept-put, Puts-append,
  none_at_length, IsWhole, IsWhole-put,
}
use bmb.Pool.Kept.Erased.{skip, PoolKept-erase, IsWhole-erase}
use bmb.Pool.Removal.{erase_idx}
use bmb.Persist.Requests.{calm}
use bmb.Reply.{Cjson, BrokerResponse}
use bmb.Broker.{BrokerRequest}
use bmb.Broker.Fits.{Fits, Fits-less}
use bmb.Broker.Produce.{PutAt}
use bmb.Run.Returns.{Returns}
use bmb.Broker.Dispatch.{broker_dispatch}
use bmb.Broker.Dispatch.Contents.{Command, address_of, is_new, answer, after}

-- The pool holds the contents, with room for `n` more requests.
pub record Holds (dirs : Assoc Files) (w : World) (p : QueuePool) (cells : ℕ → Cells) (s : Contents)
    (rounds n : ℕ) : Type 0 where
  pub pool : PoolKept dirs w p.pool cells s
  pub whole : IsWhole dirs p.pool
  pub fits : (i : ℕ) → Fits n rounds (cells i)

abbrev pub IsFree : Ptr → (ℕ → Cells) → Type 0
IsFree a cells = (i : ℕ) → has a (cells i) ≡ false

pub eq_of_test : (i j : ℕ) → (i == j) ≡ true → i ≡ j
eq_of_test i j h = ground arith

pub IsFree-set_cells :
    (a : Ptr) (i : ℕ) (xs : Cells) (cells : ℕ → Cells)
    → IsFree a cells
    → has a xs ≡ false
    → IsFree a (set_cells i xs cells)
IsFree-set_cells a i xs cells free out j = elim (Bool-cases (i == j)) [
  | inl e ↦ rw e out
  | inr e ↦ rw e (free j)
]

-- Where the pool has the queue that a name stands for.
pub data Located (p : QueuePool) (cells : ℕ → Cells) (s : Contents) (name : CString) : Type 0 where
  absent :
      queue_pool_get_by_name p (some name) ≡ none
      → s name ≡ none
      → HasNoName name p.pool
      → Located p cells s name
  located :
      (i : ℕ) (q : Queue)
      → queue_pool_get_by_name p (some name) ≡ some i
      → get_elem? p.pool i ≡ some q
      → q.name ≡ name
      → s name ≡ some (texts_of (cells i))
      → Located p cells s name

locate_found :
    {dirs : Assoc Files} {w : World} {p : QueuePool} {cells : ℕ → Cells} {s : Contents}
    (name : CString) (found : Option ℕ)
    → PoolKept dirs w p.pool cells s
    → queue_pool_get_by_name p (some name) ≡ found
    → FoundBy name p.pool found
    → Located p cells s name
locate_found name none k e f = absent e (k.hidden name f) f
locate_found {cells} {s} name (some i) k e ((q, at, same), first) =
    located i q e at same (subst (λ n. s n ≡ some (texts_of (cells i))) same (k.shown i q at))

pub locate :
    {dirs : Assoc Files} {w : World} {p : QueuePool} {cells : ℕ → Cells} {s : Contents}
    (name : CString)
    → PoolKept dirs w p.pool cells s
    → Located p cells s name
locate {p} name k =
    locate_found name (queue_pool_get_by_name p (some name)) k refl
      (queue_pool_get_by_name-FoundBy p name)

-- The contents after a request, with the response, and with room for `n` more requests; a node is at
-- a new address only if the request put it there.
abbrev pub Stepped :
    (lib : Cjson)
    → Command
    → (ℕ → Cells)
    → Contents
    → ℕ
    → ℕ
    → BrokerResponse × QueuePool
    → World
    → Type 0
Stepped lib cmd cells s rounds n (res, p') w' =
    (res ≡ answer lib cmd s)
    × (dirs' : Assoc Files) × (cells' : ℕ → Cells) × Holds dirs' w' p' cells' (after cmd s) rounds n
    × ((a : Ptr) → is_new a cmd ≡ false → IsFree a cells → IsFree a cells')

-- The broker answers a request as the contents say.
abbrev pub Answers :
    (lib : Cjson)
    → Command
    → BrokerRequest
    → World
    → QueuePool
    → (ℕ → Cells)
    → Contents
    → ℕ
    → ℕ
    → Type 0
Answers lib cmd req w p cells s rounds n =
    Returns (Stepped lib cmd cells s rounds n) (broker_dispatch lib rounds (address_of cmd) p req w)

module _ {dirs : Assoc Files} {w : World} {p : QueuePool} {cells : ℕ → Cells} {s : Contents}
    {rounds n : ℕ} (h : Holds dirs w p cells s rounds (suc n)) where
  pub Holds-less : Holds dirs w p cells s rounds n
  Holds-less = record { pool = h.pool; whole = h.whole; fits = λ i. Fits-less (h.fits i) }

  -- A request that changes nothing.
  pub Stepped-same :
      (lib : Cjson) (cmd : Command) (res : BrokerResponse)
      → res ≡ answer lib cmd s
      → after cmd s ≡ s
      → Stepped lib cmd cells s rounds n (res, p) w
  Stepped-same lib cmd res told same = (
    told,
    dirs,
    cells,
    subst (λ t. Holds dirs w p cells t rounds n) (sym same) Holds-less,
    λ a new free. free,
  )

  -- The queue at an index has got new nodes.
  pub Holds-put :
      {dirs' : Assoc Files} {w' : World} (p' : QueuePool) (s' : Contents) (i : ℕ) (q q' : Queue)
      (xs touched : Cells)
      → get_elem? p.pool i ≡ some q
      → PutAt p p' i q'
      → q'.name ≡ q.name
      → ((j : ℕ) (a : Ptr) → (i == j) ≡ false → has a (cells j) ≡ true → has a touched ≡ false)
      → ((j : ℕ) (a : Ptr) → (i == j) ≡ false → has a (cells j) ≡ true → has a xs ≡ false)
      → IsKept dirs' w' q' xs
      → KeepsOthers touched q.name dirs w dirs' w'
      → Fits n rounds xs
      → update q.name (some (texts_of xs)) s ≡ s'
      → Holds dirs' w' p' (set_cells i xs cells) s' rounds n
  Holds-put {dirs'} {w'} p' s' i q q' xs touched at put name free new kept others fits e =
      let puts : Puts p.pool p'.pool i q' = record {
        placed = put.0;
        same = λ j ne. put.1 j (λ e. absurd (ground arith));
      } in
      let same : (r : Queue) → get_elem? p.pool i ≡ some r → r.name ≡ q'.name =
        λ r e. ground (arith, at, name) in
      let own : (j : ℕ) (r : Queue)
          → (i == j) ≡ false
          → get_elem? p.pool j ≡ some r
          → str_eq q'.name r.name ≡ false =
        λ j r ne e. rw name (h.pool.names i j q r ne at e) in
      record {
        pool =
            subst (PoolKept dirs' w' p'.pool (set_cells i xs cells))
              (ap (λ m. update m (some (texts_of xs)) s) name ∙ e)
              (PoolKept-put i q' xs h.pool puts same own new kept λ j r ne e.
                others.0 r (cells j) (h.pool.names i j q r ne at e) (λ a t. free j a ne t)
                  (h.pool.kept j r e));
        whole = IsWhole-put dirs dirs' puts same (rw name others.1) h.whole;
        fits = λ j. elim (Bool-cases (i == j)) [
          | inl e ↦ rw e fits
          | inr e ↦ rw e (Fits-less (h.fits j))
        ];
      }

  -- The queue at an index is gone, with its directory.
  pub Holds-erase :
      {dirs' : Assoc Files} {w' : World} (p' : QueuePool) (s' : Contents) (i : ℕ) (q : Queue)
      → get_elem? p.pool i ≡ some q
      → p'.pool ≡ erase_idx p.pool i
      → find q.name dirs' ≡ none
      → w'.disk ≡ calm dirs'
      → KeepsOthers (cells i) q.name dirs w dirs' w'
      → update q.name none s ≡ s'
      → Holds dirs' w' p' (λ j. cells (skip i j)) s' rounds n
  Holds-erase {dirs'} {w'} p' s' i q at pool gone calmed others e = record {
    pool =
        subst (λ qs. PoolKept dirs' w' qs (λ j. cells (skip i j)) s') (sym pool)
          (subst (PoolKept dirs' w' (erase_idx p.pool i) (λ j. cells (skip i j))) e
            (PoolKept-erase i q h.pool at calmed others));
    whole =
        subst (IsWhole dirs') (sym pool)
          (IsWhole-erase dirs dirs' p.pool i q at gone others.1 h.whole);
    fits = λ j. Fits-less (h.fits (skip i j));
  }

  -- An empty queue with a name of its own is put behind the others.
  pub Holds-append :
      {dirs' : Assoc Files} {w' : World} (p' : QueuePool) (s' : Contents) (q : Queue)
      → p'.pool ≡ p.pool ++ q ∷ []
      → HasNoName q.name p.pool
      → suc n ≤ rounds
      → suc n < 2 ^ 31
      → IsKept dirs' w' q []
      → KeepsOthers [] q.name dirs w dirs' w'
      → update q.name (some []) s ≡ s'
      → Holds dirs' w' p' (set_cells (length p.pool) [] cells) s' rounds n
  Holds-append {dirs'} {w'} p' s' q pool unnamed enough ids kept others e =
      let i = length p.pool in
      record {
        pool =
            subst (λ qs. PoolKept dirs' w' qs (set_cells i [] cells) s') (sym pool)
              (subst (PoolKept dirs' w' (p.pool ++ q ∷ []) (set_cells i [] cells)) e (
                PoolKept-put i q [] h.pool (Puts-append p.pool q)
                  (λ r at. absurd (none_at_length p.pool r at))
                  (λ j r ne at. str_eq_comm q.name r.name ∙ unnamed j r at) (λ j a ne there. refl)
                  kept
                  (λ j r ne at.
                    others.0 r (cells j) (str_eq_comm q.name r.name ∙ unnamed j r at) (λ a t. refl)
                      (h.pool.kept j r at))));
        whole = subst (IsWhole dirs') (sym pool) (
            IsWhole-put dirs dirs' (Puts-append p.pool q)
              (λ r at. absurd (none_at_length p.pool r at)) others.1 h.whole);
        fits = λ j. elim (Bool-cases (i == j)) [
          | inl t ↦ rw t (record { enough = omega arith; ids = omega arith; texts = tt })
          | inr t ↦ rw t (Fits-less (h.fits j))
        ];
      }
