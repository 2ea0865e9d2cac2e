-- ===== src/Util/Mem.antt =====
-- util/mem.c: the blocks of memory that are in use, and the counters. What `malloc` gives is a
-- parameter, which may depend on the blocks in use.
use bmb.Base.{
  ℕ, ◌+◌, ◌%◌, ◌^◌, ◌≡◌, ◌≢◌, false, Bool-cases, inl, inr, List, [], ◌∷◌, ◌++◌, arith, ◌==◌,
  if◌then◌else◌,
}
use bmb.Run.{Cmd, crashes, exited, ok}
use bmb.Run.Returns.{Returns, returns}
use bmb.World.{Ptr, null}

-- The counters are the 32 bits of an `int`.
pub record Memory : Type 0 where
  pub live : List Ptr
  pub allocated : ℕ
  pub freed : ℕ

-- NULL is no block.
abbrev pub one : Ptr → Ptr → ℕ
one a p = if p == null then 0 else if a == p then 1 else 0

abbrev pub count : Ptr → List Ptr → ℕ
count a [] = 0
count a (p ∷ l) = one a p + count a l

abbrev pub size : List Ptr → ℕ
size [] = 0
size (p ∷ l) = (if p == null then 0 else 1) + size l

remove : Ptr → List Ptr → List Ptr
remove p [] = []
remove p (q ∷ l) = let rest = remove p l in if p == q then l else q ∷ rest

-- NULL may be freed; what is not in use may not.
unfoldable pub mem_free : Ptr → Cmd Memory (Unit {0})
unfolding remove
mem_free p m =
    if p == null
    then ok tt m
    else if count p m.live == 0
    then crashes m
    else ok tt (record m { live = remove p m.live; freed = (m.freed + 1) % 2 ^ 32 })

module _ (malloc : List Ptr → Ptr) where
  -- mem_alloc ends the process when `malloc` gives NULL.
  unfoldable pub mem_alloc : Cmd Memory Ptr
  mem_alloc m =
      let p = malloc m.live in
      if p == null
      then exited
      else ok p (record m { live = p ∷ m.live; allocated = (m.allocated + 1) % 2 ^ 32 })

  -- `realloc`, which is not counted; its callers write to what it gives.
  unfoldable pub realloc : Ptr → Cmd Memory Ptr
  unfolding remove
  realloc p m =
      let rest = remove p m.live in
      let q = malloc rest in
      if count p m.live == 0
      then crashes m
      else if q == null
      then crashes m
      else ok q (record m { live = q ∷ rest })

-- A block is given that is not in use.
abbrev pub IsMalloc : (List Ptr → Ptr) → Type 0
IsMalloc malloc = (l : List Ptr) → (malloc l ≢ null) × (count (malloc l) l ≡ 0)

-- What is in use is what was in use at first, and these blocks; they are what was allocated and
-- not freed since, as far as the counters tell.
pub record Owns (m0 : Memory) (bs : List Ptr) (m : Memory) : Type 0 where
  pub live : (a : Ptr) → count a m.live ≡ count a m0.live + count a bs
  pub counted : (m.allocated + m0.freed) % 2 ^ 32 ≡ (m0.allocated + m.freed + size bs) % 2 ^ 32

-- The same blocks in another order.
abbrev pub Same : List Ptr → List Ptr → Type 0
Same bs cs = ((a : Ptr) → count a bs ≡ count a cs) × (size bs ≡ size cs)

pub Owns-none : (m : Memory) → Owns m [] m
Owns-none m = record { live = λ a. omega arith; counted = omega arith }

pub Owns-Same :
    {m0 m : Memory} {bs : List Ptr} (cs : List Ptr) → Same bs cs → Owns m0 bs m → Owns m0 cs m
Owns-Same cs same o = record {
  live = λ a. omega (arith, o.live a, same.0 a);
  counted = omega (arith, o.counted, same.1);
}

pub count-append : (a : Ptr) (l r : List Ptr) → count a (l ++ r) ≡ count a l + count a r
count-append a [] r = omega arith
count-append a (p ∷ l) r = omega (arith, count-append a l r)

pub size-append : (l r : List Ptr) → size (l ++ r) ≡ size l + size r
size-append [] r = omega arith
size-append (p ∷ l) r = omega (arith, size-append l r)

count-remove :
    (a p : Ptr) (l : List Ptr)
    → (count p l == 0) ≡ false
    → one a p + count a (remove p l) ≡ count a l
unfolding remove
count-remove a p [] h = absurd (ground arith)
count-remove a p (q ∷ l) h = elim (Bool-cases (p == q)) [
  | inl e ↦ rw e (ground arith)
  | inr e ↦ rw e (ground (arith, count-remove a p l))
]

module _ {m0 m : Memory} where
  pub free-Owns :
      (p : Ptr) (bs cs : List Ptr)
      → Same bs (p ∷ cs)
      → Owns m0 bs m
      → Returns (λ _ m'. Owns m0 cs m') (mem_free p m)
  unfolding mem_free
  free-Owns p bs cs same o = elim (Bool-cases (p == null)) [
    | inl e ↦ rw e (
        returns (record {
          live = λ a. ground (arith, o.live a, same.0 a);
          counted = ground (arith, o.counted, same.1);
        }))
    | inr e ↦
        let used : (count p m.live == 0) ≡ false = ground (arith, o.live p, same.0 p) in
        rw (e, used)
          (returns (record {
            live = λ a. omega (arith, o.live a, same.0 a, count-remove a p m.live used);
            counted = ground (arith, o.counted, same.1);
          }))
  ]

  module _ (malloc : List Ptr → Ptr) (h : IsMalloc malloc) where
    pub alloc-Owns :
        (bs : List Ptr)
        → Owns m0 bs m
        → Returns (λ p m'. (p ≢ null) × Owns m0 (p ∷ bs) m') (mem_alloc malloc m)
    unfolding mem_alloc
    alloc-Owns bs o =
        let given : (malloc m.live == null) ≡ false = ground (arith, (h m.live).0) in
        rw given (
          returns (
            (h m.live).0,
            record {
              live = λ a. omega (arith, o.live a);
              counted = rw given (omega (arith, o.counted));
            },
          ))

    pub realloc-Owns :
        (p : Ptr) (bs cs : List Ptr)
        → p ≢ null
        → Same bs (p ∷ cs)
        → Owns m0 bs m
        → Returns (λ q m'. (q ≢ null) × Owns m0 (q ∷ cs) m') (realloc malloc p m)
    unfolding realloc
    realloc-Owns p bs cs ne same o =
        let there : (p == null) ≡ false = ground arith in
        let used : (count p m.live == 0) ≡ false = ground (arith, o.live p, same.0 p) in
        let given : (malloc (remove p m.live) == null) ≡ false =
          ground (arith, (h (remove p m.live)).0) in
        rw (used, given)
          (returns (
            (h (remove p m.live)).0,
            record {
              live = λ a. omega (arith, o.live a, same.0 a, count-remove a p m.live used);
              counted = ground (arith, o.counted, same.1);
            },
          ))
