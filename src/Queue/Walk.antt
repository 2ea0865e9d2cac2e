-- ===== src/Queue/Walk.antt =====
-- `Queue_size`, `Queue_get`, `Queue_isEmpty` and `Queue_getNextTail` of queue/queue.c.
use bmb.Base.{
  ℕ, zero, suc, ◌+◌, ◌≤◌, ◌<◌, ◌≡◌, ◌≢◌, refl, some, [], ◌∷◌, ◌++◌, arith, ◌==◌, if◌then◌else◌,
  length, length-append,
}
use bmb.Run.{ok, pure}
use bmb.World.{Ptr, null, Node, Heap, World, load, write}
use bmb.World.Chain.{
  Cell, Cells, node_of, first, last, Linked, last-append, EndView, empty_end, last_end,
}
use bmb.Queue.{
  Queue, node_get_next, size_loop, queue_size, get_loop, queue_get, queue_is_empty,
  queue_get_next_tail,
}

-- The queue's nodes are `xs`, from the root to the tail.
pub record IsQueue (h : Heap) (q : Queue) (xs : Cells) : Type 0 where
  pub root : q.root ≡ first xs
  pub tail : q.tail ≡ last xs
  pub linked : Linked h xs

-- The address at the index, NULL behind the end.
abbrev pub address : Cells → ℕ → Ptr
address [] i = null
address (c ∷ xs) zero = c.at
address (c ∷ xs) (suc i) = address xs i

pub load-node : (w : World) (p : Ptr) (n : Node) → p ≢ null → w.heap p ≡ some n → load p w ≡ ok n w
unfolding load
load-node w p n ne e = rw e (ground arith)

pub load-write :
    (w : World) (p : Ptr) (n : Node)
    → p ≢ null
    → load p (record w { heap = write w.heap p (some n) })
      ≡ ok n (record w { heap = write w.heap p (some n) })
load-write w p n ne =
    load-node (record w { heap = write w.heap p (some n) }) p n ne (unfold write in ground arith)

module _ (w : World) where
  pub get_next-first :
      (c : Cell) (xs : Cells) → Linked w.heap (c ∷ xs) → node_get_next c.at w ≡ ok (first xs) w
  unfolding node_get_next
  get_next-first c xs l = rw (load-node w c.at (node_of c (first xs)) l.0 l.2)

  size_loop-length :
      (rounds : ℕ) (c : Cell) (xs : Cells) (n : ℕ)
      → Linked w.heap (c ∷ xs)
      → length xs < rounds
      → size_loop rounds c.at n w ≡ ok (n + length xs) w
  unfolding size_loop
  size_loop-length zero c xs n l enough = absurd (omega arith)
  size_loop-length (suc k) c [] n l enough = rw (get_next-first c [] l) (ground arith)
  size_loop-length (suc k) c (d ∷ xs) n l enough =
      rw (get_next-first c (d ∷ xs) l) (ground (arith, l.3.0, size_loop-length k d xs (n + 1) l.3))

  size_of-first :
      (rounds : ℕ) (xs : Cells)
      → Linked w.heap xs
      → length xs ≤ rounds
      → (if first xs == null then pure 0 else size_loop rounds (first xs) 1) w ≡ ok (length xs) w
  size_of-first rounds [] l enough = refl
  size_of-first rounds (c ∷ xs) l enough =
      ground (arith, l.0, size_loop-length rounds c xs 1 l (omega arith))

  get_loop-address :
      (i : ℕ) (xs : Cells)
      → Linked w.heap xs
      → i < length xs
      → get_loop (first xs) i w ≡ ok (address xs i) w
  unfolding get_loop
  get_loop-address i [] l h = absurd (omega arith)
  get_loop-address zero (c ∷ xs) l h = refl
  get_loop-address (suc i) (c ∷ xs) l h =
      rw (get_next-first c xs l) (get_loop-address i xs l.3 (omega arith))

module _ {w : World} {q : Queue} {xs : Cells} (is : IsQueue w.heap q xs) where
  -- Given as many rounds as the queue has nodes, `Queue_size` counts the nodes, meets no dangling
  -- pointer and changes nothing.
  pub queue_size-length :
      (rounds : ℕ) → length xs ≤ rounds → queue_size rounds q w ≡ ok (length xs) w
  unfolding queue_size
  queue_size-length rounds enough = rw is.root (size_of-first w rounds xs is.linked enough)

  -- For an index in range, `Queue_get` gives the address of the node at it, counted from the root,
  -- and changes nothing.
  pub queue_get-address : (i : ℕ) → i < length xs → queue_get q i w ≡ ok (address xs i) w
  unfolding queue_get
  queue_get-address i h = rw is.root (get_loop-address w i xs is.linked h)

  pub queue_is_empty-length :
      (rounds : ℕ) → length xs ≤ rounds → queue_is_empty rounds q w ≡ ok (length xs == 0) w
  unfolding queue_is_empty
  queue_is_empty-length rounds enough = rw (queue_size-length rounds enough) (ground arith)

pub address_before_last :
    (xs : Cells) (c d : Cell) → address ((xs ++ c ∷ []) ++ d ∷ []) (length xs) ≡ c.at
address_before_last [] c d = refl
address_before_last (e ∷ xs) c d = address_before_last xs c d

-- On a queue with at least one node, given as many rounds as it has nodes, `Queue_getNextTail`
-- gives the address of the last node but one, or NULL if there is none.
pub queue_get_next_tail-last :
    (w : World) (q : Queue) (rounds : ℕ) {xs : Cells} (c : Cell)
    → EndView xs
    → IsQueue w.heap q (xs ++ c ∷ [])
    → length xs < rounds
    → queue_get_next_tail rounds q w ≡ ok (last xs) w
unfolding queue_get_next_tail
queue_get_next_tail-last w q rounds c empty_end is enough =
    rw (queue_size-length {w = w} is rounds (omega arith))
queue_get_next_tail-last w q rounds c (last_end xs d) is enough =
    let size : length ((xs ++ d ∷ []) ++ c ∷ []) ≡ suc (suc (length xs)) =
      omega (arith, length-append (xs ++ d ∷ []) (c ∷ []), length-append xs (d ∷ [])) in
    rw (queue_size-length {w = w} is rounds (omega (arith, length-append xs (d ∷ []))), size)
      (rw last-append (
        ground (
          arith,
          queue_get-address {w = w} is (length xs) (omega arith),
          address_before_last xs d c,
        )))
