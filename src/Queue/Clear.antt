-- ===== src/Queue/Clear.antt =====
-- `Queue_clear` of queue/queue.c.
use bmb.Base.{
  ℕ, ◌≤◌, ◌≡◌, ◌≢◌, ◌∙◌, refl, false, none, some, List, [], ◌∷◌, arith, ◌==◌, if◌then◌else◌, length,
}
use bmb.Run.{ok}
use bmb.Run.Returns
use bmb.Run.Returns.{Returns, returns}
use bmb.World.{Ptr, null, freed, Node, World, write}
use bmb.World.Chain.{Cell, Cells, node_of, first, has, Linked, frame}
use bmb.Queue.{
  Queue, node_clear_message, cleared, node_destruct, collect, destruct_all, clear_nonempty,
  queue_clear,
}
use bmb.Queue.Walk.{
  IsQueue, load-node, get_next-first, load-write, queue_size-length, queue_is_empty-length,
}

abbrev addresses : Cells → List Ptr
addresses [] = []
addresses (c ∷ xs) = c.at ∷ addresses xs

collect-addresses :
    (w : World) (c : Cell) (xs : Cells)
    → Linked w.heap (c ∷ xs)
    → collect (length (c ∷ xs)) c.at w ≡ ok (addresses (c ∷ xs)) w
unfolding collect
collect-addresses w c [] l = rw (get_next-first w c [] l)
collect-addresses w c (d ∷ xs) l =
    let nonnull : (d.at == null) ≡ false = ground (arith, l.3.0) in
    rw (get_next-first w c (d ∷ xs) l, nonnull, collect-addresses w d xs l.3)

pub destruct-Freed :
    (w : World) (c : Cell) (next : Ptr)
    → c.at ≢ null
    → w.heap c.at ≡ some (node_of c next)
    → Returns
        (λ _ w'.
          ((a : Ptr) → w'.heap a ≡ (if a == c.at then none else w.heap a)) × (w'.disk ≡ w.disk))
        (node_destruct c.at w)
unfolding node_destruct node_clear_message cleared
destruct-Freed w c next ne at =
    let n : Node = record { id = c.id; message = freed; next = next } in
    rw (load-node w c.at (node_of c next) ne at, load-write w c.at n ne)
      (returns {s = record w { heap = write (write w.heap c.at (some n)) c.at none }}
        (λ a. unfold write in ground arith, refl))

-- The nodes of `xs` are freed, and the rest of memory is as before.
abbrev pub Freed : Cells → World → World → Type 0
Freed xs w w' = ((a : Ptr) → w'.heap a ≡ (if has a xs then none else w.heap a)) × (w'.disk ≡ w.disk)

destruct_all-Freed :
    (w : World) (xs : Cells)
    → Linked w.heap xs
    → Returns (λ _. Freed xs w) (destruct_all (length xs) (addresses xs) w)
unfolding destruct_all
destruct_all-Freed w [] l = returns (λ a. refl, refl)
destruct_all-Freed w (c ∷ xs) l =
    Returns.bind (destruct-Freed w c (first xs) l.0 l.2) λ _ w1 (gone, same).
      Returns.mono
        (destruct_all-Freed w1 xs
          (frame w.heap w1.heap xs l.3 (λ a i. ground (arith, gone a, l.1))))
        λ _ w2 (rest, same2). (λ a. ground (arith, gone a, rest a), same2 ∙ same)

clear-cases :
    (w : World) (q : Queue) (xs : Cells) (rounds : ℕ)
    → IsQueue w.heap q xs
    → length xs ≤ rounds
    → Returns (λ _. Freed xs w) (queue_clear rounds q w)
unfolding queue_clear clear_nonempty
clear-cases w q [] rounds is enough =
    rw (queue_is_empty-length {w = w} is rounds enough) (returns (λ a. refl, refl))
clear-cases w q (c ∷ xs) rounds is enough =
    let full : (length (c ∷ xs) == 0) ≡ false = ground arith in
    rw
      (
        queue_is_empty-length {w = w} is rounds enough,
        full,
        queue_size-length {w = w} is rounds enough,
        is.root,
        collect-addresses w c xs is.linked,
      )
      (destruct_all-Freed w (c ∷ xs) is.linked)

-- Given as many rounds as the queue has nodes, clearing it frees each of its nodes, leaves the
-- rest of memory and the disk as they are, and meets no dangling pointer.
pub queue_clear-Freed :
    {w : World} {q : Queue} {xs : Cells} (rounds : ℕ)
    → IsQueue w.heap q xs
    → length xs ≤ rounds
    → Returns (λ _. Freed xs w) (queue_clear rounds q w)
queue_clear-Freed {w} {q} {xs} rounds is enough = clear-cases w q xs rounds is enough
