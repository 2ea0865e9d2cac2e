-- ===== src/World/Chain.antt =====
-- Nodes that are linked in a row, and what other addresses have to do with them.
use bmb.Base.{
  ℕ, ◌≡◌, ◌≢◌, refl, Bool, true, false, ◌||◌, Option, some, List, [], ◌∷◌, ◌++◌, arith, ◌==◌,
}
use bmb.Base.Text.{CString}
use bmb.World.{Ptr, null, text, Node, Heap, write}

-- A node of a queue: where it is, its id and its message.
pub record Cell : Type 0 where
  pub at : Ptr
  pub id : ℕ
  pub message : CString

abbrev pub Cells : Type 0
Cells = List Cell

abbrev pub node_of : Cell → Ptr → Node
node_of c next = record { id = c.id; message = text c.message; next = next }

-- The address of the first node, NULL if there is none.
abbrev pub first : Cells → Ptr
first [] = null
first (c ∷ xs) = c.at

abbrev pub last : Cells → Ptr
last [] = null
last (c ∷ []) = c.at
last (c ∷ d ∷ xs) = last (d ∷ xs)

abbrev pub has : Ptr → Cells → Bool
has a [] = false
has a (c ∷ xs) = (a == c.at) || has a xs

-- The nodes lie at different addresses, each linked to the next, and the last to NULL.
abbrev pub Linked : Heap → Cells → Type 0
Linked h [] = Unit
Linked h (c ∷ xs) =
    (c.at ≢ null) × (has c.at xs ≡ false) × (h c.at ≡ some (node_of c (first xs))) × Linked h xs

-- `g` differs from `h` at most at the addresses of `xs`.
abbrev pub SameOutside : Cells → Heap → Heap → Type 0
SameOutside xs h g = (a : Ptr) → has a xs ≡ false → g a ≡ h a

pub frame :
    (h g : Heap) (xs : Cells)
    → Linked h xs
    → ((a : Ptr) → has a xs ≡ true → g a ≡ h a)
    → Linked g xs
frame h g [] l same = tt
frame h g (c ∷ xs) l same =
    (l.0, l.1, ground (arith, same c.at), frame h g xs l.3 (λ a i. same a (ground arith)))

pub frame-write :
    (h : Heap) (p : Ptr) (n : Option Node) (xs : Cells)
    → Linked h xs
    → has p xs ≡ false
    → Linked (write h p n) xs
unfolding write
frame-write h p n xs l out = frame h (write h p n) xs l (λ a i. ground arith)

pub has-append : (a : Ptr) (xs ys : Cells) → has a (xs ++ ys) ≡ (has a xs || has a ys)
has-append a [] ys = refl
has-append a (c ∷ xs) ys = ground (arith, has-append a xs ys)

pub last-append : (xs : Cells) (c : Cell) → last (xs ++ c ∷ []) ≡ c.at
last-append [] c = refl
last-append (d ∷ []) c = refl
last-append (d ∷ e ∷ xs) c = last-append (e ∷ xs) c

pub first-append :
    (xs : Cells) (c d : Cell) → first ((xs ++ c ∷ []) ++ d ∷ []) ≡ first (xs ++ c ∷ [])
first-append [] c d = refl
first-append (e ∷ xs) c d = refl

-- The last node is cut off by a NULL in the node before it.
pub Linked-cut :
    (h : Heap) (xs : Cells) (c d : Cell)
    → Linked h ((xs ++ c ∷ []) ++ d ∷ [])
    → Linked (write h c.at (some (node_of c null))) (xs ++ c ∷ [])
unfolding write
Linked-cut h [] c d l = (l.0, refl, ground arith, tt)
Linked-cut h (e ∷ xs) c d l =
    let apart : (has e.at xs ≡ false) × ((e.at == c.at) ≡ false) =
      ground (arith, l.1, has-append e.at (xs ++ c ∷ []) (d ∷ []), has-append e.at xs (c ∷ [])) in
    (
      l.0,
      ground (arith, has-append e.at xs (c ∷ [])),
      ground (arith, first-append xs c d),
      Linked-cut h xs c d l.3,
    )

-- What precedes the last node does not hold its address.
pub not-has-last :
    (h : Heap) (xs : Cells) (c : Cell) → Linked h (xs ++ c ∷ []) → has c.at xs ≡ false
not-has-last h [] c l = refl
not-has-last h (d ∷ xs) c l = ground (arith, has-append d.at xs (c ∷ []), not-has-last h xs c l.3)

pub Linked-last : (h : Heap) (xs : Cells) (c : Cell) → Linked h (xs ++ c ∷ []) → Linked h (c ∷ [])
Linked-last h [] c l = l
Linked-last h (d ∷ xs) c l = Linked-last h xs c l.3

pub Linked-before_last :
    (h : Heap) (xs : Cells) (c d : Cell)
    → Linked h ((xs ++ c ∷ []) ++ d ∷ [])
    → Linked h (c ∷ d ∷ [])
Linked-before_last h [] c d l = l
Linked-before_last h (e ∷ xs) c d l = Linked-before_last h xs c d l.3

-- A list is empty, or ends in an element.
pub data EndView : Cells → Type 0 where
  empty_end : EndView []
  last_end : (xs : Cells) (c : Cell) → EndView (xs ++ c ∷ [])

view_cons : (c : Cell) {xs : Cells} → EndView xs → EndView (c ∷ xs)
view_cons c empty_end = last_end [] c
view_cons c (last_end xs d) = last_end (c ∷ xs) d

pub end_view : (xs : Cells) → EndView xs
end_view [] = empty_end
end_view (c ∷ xs) = view_cons c (end_view xs)
