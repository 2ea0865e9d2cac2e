-- ===== src/Pool/Kept.antt =====
-- When all queues of the pool of queue/queue_pool.c agree with their directories, and the texts
-- that they hold by name.
pub mod Erased
use mathlib.Core.Path.{subst}
use bmb.Base.{
  ℕ, zero, suc, ◌-◌, ◌≡◌, refl, ◌∙◌, sym, true, false, Bool-cases, Option, none, some, inl, inr,
  ◌⊎◌, List, [], ◌∷◌, if◌then◌else◌, ltb, ◌==◌, arith, get_elem?, ◌≢◌, ◌++◌, length,
}
use bmb.Base.Text.{CString, str_eq, str_eq_refl, str_eq_comm, eq_of_str_eq}
use bmb.Disk.{Files}
use bmb.Disk.Table.{Assoc, find}
use bmb.Persist.Requests.{SameOthers, calm}
use bmb.World.{Ptr, World}
use bmb.World.Chain.{Cells, has}
use bmb.Persist.Store.{messages}
use bmb.Queue.{Queue}
use bmb.Queue.Kept.{IsKept, log_of}
use bmb.Queue.Fresh.{KeepsOthers}
use bmb.Pool.Removal.{erase_idx}

abbrev pub texts_of : Cells → List CString
texts_of xs = messages (log_of xs)

-- The texts of each queue by its name, the oldest first.
abbrev pub Contents : Type 0
Contents = CString → Option (List CString)

unfoldable pub update : CString → Option (List CString) → Contents → Contents
update name l s n = if str_eq name n then l else s n

abbrev pub HasNoName : CString → List Queue → Type 0
HasNoName n qs = (i : ℕ) (q : Queue) → get_elem? qs i ≡ some q → str_eq q.name n ≡ false

-- Every queue of the pool agrees with its directory, with nodes `cells i` for the queue at `i`; no
-- two queues have the same name or share a node.
pub record PoolKept (dirs : Assoc Files) (w : World) (qs : List Queue) (cells : ℕ → Cells)
    (s : Contents) : Type 0 where
  pub disk : w.disk ≡ calm dirs
  pub kept : (i : ℕ) (q : Queue) → get_elem? qs i ≡ some q → IsKept dirs w q (cells i)
  pub names :
      (i j : ℕ) (q r : Queue)
      → (i == j) ≡ false
      → get_elem? qs i ≡ some q
      → get_elem? qs j ≡ some r
      → str_eq q.name r.name ≡ false
  pub apart :
      (i j : ℕ) → (a : Ptr) → (i == j) ≡ false → has a (cells i) ≡ true → has a (cells j) ≡ false
  pub shown : (i : ℕ) (q : Queue) → get_elem? qs i ≡ some q → s q.name ≡ some (texts_of (cells i))
  pub hidden : (n : CString) → HasNoName n qs → s n ≡ none

abbrev pub nothing : Contents
nothing name = none

pub PoolKept-init :
    (dirs : Assoc Files) (w : World) → w.disk ≡ calm dirs → PoolKept dirs w [] (λ i. []) nothing
PoolKept-init dirs w disk = record {
  disk = disk;
  kept = λ i q at. absurd (cc);
  names = λ i j q r ne at at'. absurd (cc);
  apart = λ i j a ne there. refl;
  shown = λ i q at. absurd (cc);
  hidden = λ n absent. refl;
}

abbrev pub set_cells : ℕ → Cells → (ℕ → Cells) → ℕ → Cells
set_cells i xs cells j = if i == j then xs else cells j

-- The queue at the index is put in, and the others stay.
pub record Puts (qs qs' : List Queue) (i : ℕ) (q : Queue) : Type 0 where
  pub placed : get_elem? qs' i ≡ some q
  pub same : (j : ℕ) → (i == j) ≡ false → get_elem? qs' j ≡ get_elem? qs j

module _ {qs qs' : List Queue} {i : ℕ} {q : Queue} (puts : Puts qs qs' i q) where
  -- A queue of the new pool is the one that was put in, or one of the old pool.
  pub Puts-cases :
      (j : ℕ) (r : Queue)
      → get_elem? qs' j ≡ some r
      → (((i == j) ≡ true) × (q ≡ r)) ⊎ (((i == j) ≡ false) × (get_elem? qs j ≡ some r))
  Puts-cases j r at = elim (Bool-cases (i == j)) [
    | inl e ↦ inl (e, ground (arith, puts.placed))
    | inr e ↦ inr (e, sym (puts.same j e) ∙ at)
  ]

  pub HasNoName-before :
      (n : CString)
      → ((r : Queue) → get_elem? qs i ≡ some r → r.name ≡ q.name)
      → HasNoName n qs'
      → HasNoName n qs
  HasNoName-before n here none_there j r at = elim (Bool-cases (i == j)) [
    | inl e ↦ ground (arith, here r, none_there i q puts.placed)
    | inr e ↦ none_there j r (puts.same j e ∙ at)
  ]

module _ {dirs dirs' : Assoc Files} {w w' : World} {qs qs' : List Queue} {cells : ℕ → Cells}
    {s : Contents} (i : ℕ) (q : Queue) (xs : Cells) (k : PoolKept dirs w qs cells s)
    (puts : Puts qs qs' i q) (here : (r : Queue) → get_elem? qs i ≡ some r → r.name ≡ q.name)
    (own : (j : ℕ) (r : Queue)
      → (i == j) ≡ false
      → get_elem? qs j ≡ some r
      → str_eq q.name r.name ≡ false)
    (new : (j : ℕ) → (a : Ptr) → (i == j) ≡ false → has a (cells j) ≡ true → has a xs ≡ false)
    (now : IsKept dirs' w' q xs)
    (stay : (j : ℕ) (r : Queue)
      → (i == j) ≡ false
      → get_elem? qs j ≡ some r
      → IsKept dirs' w' r (cells j)) where
  put-IsKept :
      (j : ℕ) (r : Queue) → get_elem? qs' j ≡ some r → IsKept dirs' w' r (set_cells i xs cells j)
  put-IsKept j r at = elim (Puts-cases puts j r at) [
    | inl (e, same) ↦ rw e (subst (λ t. IsKept dirs' w' t xs) same now)
    | inr (e, old) ↦ rw e (stay j r e old)
  ]

  put-names :
      (j l : ℕ) (r t : Queue)
      → (j == l) ≡ false
      → get_elem? qs' j ≡ some r
      → get_elem? qs' l ≡ some t
      → str_eq r.name t.name ≡ false
  put-names j l r t ne at at' = elim (Puts-cases puts j r at) [
    | inl (e, same) ↦ elim (Puts-cases puts l t at') [
      | inl (e', same') ↦ absurd (ground arith)
      | inr (e', old) ↦ rw (← same) (own l t e' old)
    ]
    | inr (e, old) ↦ elim (Puts-cases puts l t at') [
      | inl (e', same') ↦ rw (← same') (str_eq_comm r.name q.name ∙ own j r e old)
      | inr (e', old') ↦ k.names j l r t ne old old'
    ]
  ]

  put-shown :
      (j : ℕ) (r : Queue)
      → get_elem? qs' j ≡ some r
      → update q.name (some (texts_of xs)) s r.name ≡ some (texts_of (set_cells i xs cells j))
  unfolding update
  put-shown j r at = elim (Puts-cases puts j r at) [
    | inl (e, same) ↦ rw (e, ← same, str_eq_refl q.name)
    | inr (e, old) ↦ rw (e, own j r e old) (k.shown j r old)
  ]

  -- A queue that agrees with its directory is put in, and the others stay.
  pub PoolKept-put :
      PoolKept dirs' w' qs' (set_cells i xs cells) (update q.name (some (texts_of xs)) s)
  unfolding update
  PoolKept-put = record {
    disk = now.disk;
    kept = put-IsKept;
    names = put-names;
    apart = λ j l a ne h. ground (arith, k.apart j l a, new j a, new l a);
    shown = put-shown;
    hidden =
        λ n absent. rw (absent i q puts.placed) (k.hidden n (HasNoName-before puts n here absent));
  }

pub none_at_length : (qs : List Queue) (r : Queue) → get_elem? qs (length qs) ≢ some r
none_at_length [] r h = absurd (cc)
none_at_length (q ∷ qs) r h = none_at_length qs r h

pub Puts-append : (qs : List Queue) (q : Queue) → Puts qs (qs ++ q ∷ []) (length qs) q
Puts-append [] q = record { placed = refl; same = beyond }
  where
    beyond : (j : ℕ) → (0 == j) ≡ false → get_elem? (q ∷ []) j ≡ get_elem? [] j
    beyond zero ne = absurd (ground arith)
    beyond (suc j) ne = refl
Puts-append (r ∷ qs) q =
    let rest = Puts-append qs q in record { placed = rest.placed; same = λ j. later rest.same j }
  where
    later :
        ((j : ℕ) → (length qs == j) ≡ false → get_elem? (qs ++ q ∷ []) j ≡ get_elem? qs j)
        → (j : ℕ) → (suc (length qs) == j) ≡ false
        → get_elem? (r ∷ (qs ++ q ∷ [])) j ≡ get_elem? (r ∷ qs) j
    later same zero ne = refl
    later same (suc j) ne = same j (ground arith)

-- The disk has no directory but those of the queues.
abbrev pub IsWhole : Assoc Files → List Queue → Type 0
IsWhole dirs qs = (n : CString) → HasNoName n qs → find n dirs ≡ none

pub IsWhole-put :
    (dirs dirs' : Assoc Files) {qs qs' : List Queue} {i : ℕ} {q : Queue}
    → Puts qs qs' i q
    → ((r : Queue) → get_elem? qs i ≡ some r → r.name ≡ q.name)
    → SameOthers q.name dirs dirs'
    → IsWhole dirs qs
    → IsWhole dirs' qs'
IsWhole-put dirs dirs' {i} {q} puts here same whole n absent =
    same n (absent i q puts.placed) ∙ whole n (HasNoName-before puts n here absent)
