-- ===== src/Http/Blocks/Freed.antt =====
-- The blocks of a request, and `request_destruct` of http/request/request.c.
use bmb.Base.{ℕ, refl, Bool, true, false, Option, none, some, List, [], ◌∷◌, ◌++◌, arith}
use bmb.Run.Returns
use bmb.Run.Returns.{Returns, returns}
use bmb.World.{Ptr}
use bmb.Util.Mem.{Memory, mem_free, Owns, Same, Owns-Same, count-append, size-append, free-Owns}
use bmb.Http.Blocks.{
  PairBlocks, BodyBlocks, RequestBlocks, pair_destruct, pairs_destruct, request_body_destruct,
  request_destruct,
}

abbrev pub pairs_blocks : List PairBlocks → List Ptr
pairs_blocks [] = []
pairs_blocks (p ∷ pairs) = p.value ∷ p.at ∷ pairs_blocks pairs

abbrev pub body_blocks : BodyBlocks → List Ptr
body_blocks b = b.array ∷ b.at ∷ pairs_blocks b.pairs

abbrev pub request_blocks : RequestBlocks → List Ptr
request_blocks r = r.method ∷ r.at ∷ body_blocks r.body

abbrev pub found_blocks : Option PairBlocks → List Ptr
found_blocks none = []
found_blocks (some p) = p.value ∷ p.at ∷ []

-- The next block is freed.
pub free_next :
    {m0 m : Memory} (p : Ptr) (bs : List Ptr)
    → Owns m0 (p ∷ bs) m
    → Returns (λ _ m'. Owns m0 bs m') (mem_free p m)
free_next p bs o = free-Owns p (p ∷ bs) bs (λ a. refl, refl) o

pairs_destruct-Owns :
    {m0 m : Memory} (pairs : List PairBlocks) (bs : List Ptr)
    → Owns m0 (pairs_blocks pairs ++ bs) m
    → Returns (λ _ m'. Owns m0 bs m') (pairs_destruct pairs m)
unfolding pairs_destruct pair_destruct
pairs_destruct-Owns [] bs o = returns o
pairs_destruct-Owns (p ∷ pairs) bs o =
    Returns.bind
      (Returns.bind (free_next p.value (p.at ∷ pairs_blocks pairs ++ bs) o)
        λ _ m1 o1. free_next p.at (pairs_blocks pairs ++ bs) o1)
      λ _ m2 o2. pairs_destruct-Owns pairs bs o2

-- Blocks in front of those of the pairs.
pub pairs_blocks-move :
    (pairs : List PairBlocks) (p q : Ptr) (bs : List Ptr)
    → Same (p ∷ q ∷ pairs_blocks pairs ++ bs) (pairs_blocks pairs ++ p ∷ q ∷ bs)
pairs_blocks-move pairs p q bs = (
  λ a. omega (
    arith,
    count-append a (pairs_blocks pairs) bs,
    count-append a (pairs_blocks pairs) (p ∷ q ∷ bs),
  ),
  omega (arith, size-append (pairs_blocks pairs) bs, size-append (pairs_blocks pairs) (p ∷ q ∷ bs)),
)

body_destruct-Owns :
    {m0 m : Memory} (b : BodyBlocks) (bs : List Ptr)
    → Owns m0 (body_blocks b ++ bs) m
    → Returns (λ _ m'. Owns m0 bs m') (request_body_destruct b m)
unfolding request_body_destruct
body_destruct-Owns b bs o =
    let moved =
      Owns-Same (pairs_blocks b.pairs ++ b.array ∷ b.at ∷ bs)
        (pairs_blocks-move b.pairs b.array b.at bs) o in
    Returns.bind (pairs_destruct-Owns b.pairs (b.array ∷ b.at ∷ bs) moved)
      λ _ m1 o1. Returns.bind (free_next b.array (b.at ∷ bs) o1) λ _ m2 o2. free_next b.at bs o2

pub request_destruct-Owns :
    {m0 m : Memory} (r : RequestBlocks) (bs : List Ptr)
    → Owns m0 (request_blocks r ++ bs) m
    → Returns (λ _ m'. Owns m0 bs m') (request_destruct r m)
unfolding request_destruct
request_destruct-Owns r bs o =
    let moved =
      Owns-Same (body_blocks r.body ++ r.method ∷ r.at ∷ bs)
        (
          λ a. omega (arith, (pairs_blocks-move r.body.pairs r.method r.at bs).0 a),
          omega (arith, (pairs_blocks-move r.body.pairs r.method r.at bs).1),
        )
        o in
    Returns.bind (body_destruct-Owns r.body (r.method ∷ r.at ∷ bs) moved)
      λ _ m1 o1. Returns.bind (free_next r.method (r.at ∷ bs) o1) λ _ m2 o2. free_next r.at bs o2

-- The blocks of a body and of a pair, without the array.
abbrev pub rest_blocks : BodyBlocks → PairBlocks → List Ptr → List Ptr
rest_blocks b pair bs = pair.value ∷ pair.at ∷ b.at ∷ pairs_blocks b.pairs ++ bs

pub pairs_blocks-append :
    (pairs : List PairBlocks) (pair : PairBlocks) (bs : List Ptr)
    → Same
        (pair.value ∷ pair.at ∷ pairs_blocks pairs ++ bs)
        (pairs_blocks (pairs ++ pair ∷ []) ++ bs)
pairs_blocks-append [] pair bs = (λ a. refl, refl)
pairs_blocks-append (p ∷ pairs) pair bs =
    let same = pairs_blocks-append pairs pair bs in
    (λ a. omega (arith, same.0 a), omega (arith, same.1))

-- The blocks of a request that was parsed, or none.
abbrev pub parsed_blocks : Option RequestBlocks → List Ptr
parsed_blocks none = []
parsed_blocks (some r) = request_blocks r

abbrev pub is_method : Option (List ℕ) → Bool
is_method (some []) = false
is_method _ = true

abbrev pub has_method : Option (List ℕ) → Bool
has_method none = false
has_method (some s) = true
