-- ===== src/Pool/Names.antt =====
-- `queue_pool_get_by_name` of queue/queue_pool.c.
use mathlib.Core.Option
use bmb.Base.{
  ℕ, zero, suc, ◌<◌, ◌≡◌, refl, false, Option, none, some, List, [], ◌∷◌, arith, inl, inr,
  Bool-cases, get_elem?,
}
use bmb.Base.Text.{CString, str_eq, eq_of_str_eq}
use bmb.Queue.{Queue}
use bmb.Pool.{QueuePool, index_of, queue_pool_get_by_name}

-- What the search for a name says of the queues.
abbrev pub FoundBy : CString → List Queue → Option ℕ → Type 0
FoundBy name qs none = (i : ℕ) (q : Queue) → get_elem? qs i ≡ some q → str_eq q.name name ≡ false
FoundBy name qs (some i) =
    ((q : Queue) × (get_elem? qs i ≡ some q) × (q.name ≡ name))
    × ((j : ℕ) (r : Queue) → j < i → get_elem? qs j ≡ some r → str_eq r.name name ≡ false)

FoundBy-cons_none :
    (name : CString) (q : Queue) (qs : List Queue)
    → str_eq q.name name ≡ false
    → FoundBy name qs none
    → FoundBy name (q ∷ qs) none
FoundBy-cons_none name q qs ne f zero r at = ground arith
FoundBy-cons_none name q qs ne f (suc i) r at = f i r at

FoundBy-cons_some :
    (name : CString) (q : Queue) (qs : List Queue) (i : ℕ)
    → str_eq q.name name ≡ false
    → FoundBy name qs (some i)
    → FoundBy name (q ∷ qs) (some (suc i))
FoundBy-cons_some name q qs i ne f = (f.0, earlier)
  where
    earlier :
        (j : ℕ) (r : Queue) → j < suc i → get_elem? (q ∷ qs) j ≡ some r → str_eq r.name name ≡ false
    earlier zero r lt at = ground arith
    earlier (suc j) r lt at = f.1 j r (omega arith) at

FoundBy-cons :
    (name : CString) (q : Queue) (qs : List Queue) (found : Option ℕ)
    → str_eq q.name name ≡ false
    → FoundBy name qs found
    → FoundBy name (q ∷ qs) (Option.map suc found)
FoundBy-cons name q qs none = FoundBy-cons_none name q qs
FoundBy-cons name q qs (some i) = FoundBy-cons_some name q qs i

index_of-FoundBy : (name : CString) (qs : List Queue) → FoundBy name qs (index_of name qs)
unfolding index_of
index_of-FoundBy name [] = λ i q at. absurd (cc)
index_of-FoundBy name (q ∷ qs) = elim (Bool-cases (str_eq q.name name)) [
  | inl e ↦ rw e ((q, refl, eq_of_str_eq q.name name e), λ j r lt at. absurd (omega arith))
  | inr e ↦ rw e (FoundBy-cons name q qs (index_of name qs) e (index_of-FoundBy name qs))
]

-- The search gives the first queue with the name; where it gives none, no queue has the name.
pub queue_pool_get_by_name-FoundBy :
    (p : QueuePool) (name : CString) → FoundBy name p.pool (queue_pool_get_by_name p (some name))
unfolding queue_pool_get_by_name
queue_pool_get_by_name-FoundBy p name = index_of-FoundBy name p.pool
