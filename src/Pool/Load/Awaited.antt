-- ===== src/Pool/Load/Awaited.antt =====
-- Directories that `queue_pool_load` of queue/queue_pool.c can load, and those still to be loaded.
use bmb.Base.{
  ℕ, ◌≡◌, ◌≢◌, refl, ◌∙◌, ap, true, false, Bool-cases, Option, none, some, inl, inr, List, [], ◌∷◌,
  ◌++◌, ◌==◌, arith, length,
}
use bmb.Base.Text.{CString, str_eq, str_eq_refl, str_eq_comm, eq_of_str_eq}
use bmb.Disk.{Files}
use bmb.Disk.Table.{Assoc, has, Distinct}
use bmb.Persist.Store.{Log, messages}
use bmb.Persist.Requests.{HasQueue, IsShort}
use bmb.World.{Ptr}
use bmb.World.Chain.{Cells, has as has_cell}
use bmb.Queue.{Queue}
use bmb.Pool.{QueuePool}
use bmb.Pool.Names.{FoundBy}
use bmb.Pool.Kept.{
  Contents, update, HasNoName, HasNoName-before, Puts-cases, set_cells, Puts-append, none_at_length,
}
use bmb.Pool.Load.Nodes.{IsFresh, AllSurvive, loaded}

-- A directory that can be loaded.
pub record IsSaved (dirs : Assoc Files) (name : CString) (log : Log) : Type 0 where
  pub directory : HasQueue dirs name log
  pub short : IsShort name
  pub alive : AllSurvive log

-- Different nodes get different addresses, also in different queues.
pub record IsFreshPool (fresh : CString → ℕ → Ptr) (rest : Assoc Files) : Type 0 where
  pub each : (name : CString) → IsFresh (fresh name)
  pub apart :
      (n m : CString) (i j : ℕ)
      → has n rest ≡ true
      → has m rest ≡ true
      → str_eq n m ≡ false
      → fresh n i ≢ fresh m j

pub has_later :
    (name n : CString) (files : Files) (rest : Assoc Files)
    → has n rest ≡ true
    → has n ((name, files) ∷ rest) ≡ true
unfolding has
has_later name n files rest there = ground arith

pub has_first :
    (name : CString) (files : Files) (rest : Assoc Files) → has name ((name, files) ∷ rest) ≡ true
unfolding has
has_first name files rest = ground (arith, str_eq_refl name)

pub IsFreshPool-rest :
    {fresh : CString → ℕ → Ptr} (name : CString) (files : Files) (rest : Assoc Files)
    → IsFreshPool fresh ((name, files) ∷ rest)
    → IsFreshPool fresh rest
IsFreshPool-rest name files rest f = record {
  each = f.each;
  apart = λ n m i j a b.
      f.apart n m i j (has_later name n files rest a) (has_later name m files rest b);
}

-- The contents with the queues of some directories.
abbrev pub with_logs : (CString → Log) → Assoc Files → Contents → Contents
with_logs logs [] s = s
with_logs logs ((name, files) ∷ rest) s =
    with_logs logs rest (update name (some (messages (logs name))) s)

pub not-has-loaded :
    (fresh : ℕ → Ptr) (a : Ptr) (xs : Cells) (log : Log)
    → ((n : ℕ) → a ≢ fresh n)
    → has_cell a xs ≡ false
    → has_cell a (loaded fresh xs log) ≡ false
not-has-loaded fresh a xs [] other out = out
not-has-loaded fresh a xs ((n, m) ∷ log) other out =
    not-has-loaded fresh a (record { at = fresh n; id = n; message = m } ∷ xs) log other
      (ground (arith, other n))

pub HasNoName-none :
    (p : QueuePool) (name : CString) (found : Option ℕ)
    → HasNoName name p.pool
    → FoundBy name p.pool found
    → found ≡ none
HasNoName-none p name none absent f = refl
HasNoName-none p name (some i) absent f =
    let (q, at, same) = f.0 in absurd (ground (arith, absent i q at, same, str_eq_refl name))

HasNoName-append :
    (n : CString) (qs : List Queue) (q : Queue)
    → str_eq q.name n ≡ false
    → HasNoName n qs
    → HasNoName n (qs ++ q ∷ [])
HasNoName-append n qs q ne absent j r at = elim (Puts-cases (Puts-append qs q) j r at) [
  | inl (e, same) ↦ rw (← same) ne
  | inr (e, old) ↦ absent j r old
]

pub HasNoName-both :
    (n : CString) (qs : List Queue) (q : Queue)
    → HasNoName n (qs ++ q ∷ [])
    → HasNoName n qs × (str_eq q.name n ≡ false)
HasNoName-both n qs q absent = (
  HasNoName-before (Puts-append qs q) n (λ r at. absurd (none_at_length qs r at)) absent,
  absent (length qs) q (Puts-append qs q).placed,
)

ne_of_Distinct :
    (name n : CString) (rest : Assoc Files)
    → has name rest ≡ false
    → has n rest ≡ true
    → str_eq name n ≡ false
ne_of_Distinct name n rest out there = elim (Bool-cases (str_eq name n)) [
  | inl e ↦ absurd (ground (arith, ap (λ m. has m rest) (eq_of_str_eq name n e)))
  | inr e ↦ e
]

-- The queues that are still to be loaded are new to the pool.
pub record Awaits (fresh : CString → ℕ → Ptr) (rest : Assoc Files) (p : QueuePool)
    (cells : ℕ → Cells) : Type 0 where
  pub new : (n : CString) → has n rest ≡ true → HasNoName n p.pool
  pub free : (n : CString) (k i : ℕ) → has n rest ≡ true → has_cell (fresh n k) (cells i) ≡ false

module _ (fresh : CString → ℕ → Ptr) (logs : CString → Log) where
  pub Awaits-next :
      (name : CString) (files : Files) (rest : Assoc Files) (p p' : QueuePool) (q : Queue)
      (cells : ℕ → Cells)
      → IsFreshPool fresh ((name, files) ∷ rest)
      → Distinct ((name, files) ∷ rest)
      → Awaits fresh ((name, files) ∷ rest) p cells
      → p'.pool ≡ p.pool ++ q ∷ []
      → q.name ≡ name
      → Awaits fresh rest p' (set_cells (length p.pool) (loaded (fresh name) [] (logs name)) cells)
  Awaits-next name files rest p p' q cells f d a pool named = record {
    new = λ n there. rw pool (
        HasNoName-append n p.pool q (rw named (ne_of_Distinct name n rest d.0 there))
          (a.new n (has_later name n files rest there)));
    free = λ n k j there. elim (Bool-cases (length p.pool == j)) [
      | inl e ↦ rw e (
          not-has-loaded (fresh name) (fresh n k) [] (logs name)
            (λ i e.
              f.apart n name k i (has_later name n files rest there) (has_first name files rest)
                (str_eq_comm n name ∙ ne_of_Distinct name n rest d.0 there) e)
            refl)
      | inr e ↦ rw e (a.free n k j (has_later name n files rest there))
    ];
  }
