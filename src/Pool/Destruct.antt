-- ===== src/Pool/Destruct.antt =====
-- `queue_pool_destruct` of queue/queue_pool.c.
use bmb.Base.{
  ℕ, zero, suc, ◌≤◌, ◌≡◌, ◌≢◌, refl, ◌∙◌, true, false, some, none, List, [], ◌∷◌, arith, ◌==◌,
  get_elem?, length, if◌then◌else◌,
}
use bmb.Run.{crash}
use bmb.Run.Returns
use bmb.Run.Returns.{Returns, returns}
use bmb.World.{Ptr, World, Heap}
use bmb.World.Chain.{Cells, has, frame}
use bmb.Queue.{Queue}
use bmb.Queue.Walk.{IsQueue}
use bmb.Queue.Clear.{queue_clear-Freed}
use bmb.Pool.{
  QueuePool, ArrayMemory, unallocated, allocated, given_back, clear_all, free_array,
  queue_pool_destruct,
}

-- The chains of the queues, which share no node.
pub record Chains (h : Heap) (qs : List Queue) (cells : ℕ → Cells) : Type 0 where
  pub each : (i : ℕ) (q : Queue) → get_elem? qs i ≡ some q → IsQueue h q (cells i)
  pub apart :
      (i j : ℕ) → (a : Ptr) → (i == j) ≡ false → has a (cells i) ≡ true → has a (cells j) ≡ false

-- The nodes of the queues are freed, and the rest of memory is as before.
pub record AllFreed (n : ℕ) (cells : ℕ → Cells) (w w' : World) : Type 0 where
  pub gone : (i : ℕ) (a : Ptr) → suc i ≤ n → has a (cells i) ≡ true → w'.heap a ≡ none
  pub same : (a : Ptr) → ((i : ℕ) → suc i ≤ n → has a (cells i) ≡ false) → w'.heap a ≡ w.heap a
  pub disk : w'.disk ≡ w.disk

freed_first :
    {n : ℕ} (cells : ℕ → Cells) (w w1 w2 : World)
    → ((a : Ptr) → w1.heap a ≡ (if has a (cells 0) then none else w.heap a))
    → ((i j : ℕ) → (a : Ptr) → (i == j) ≡ false → has a (cells i) ≡ true → has a (cells j) ≡ false)
    → AllFreed n (λ i. cells (suc i)) w1 w2
    → (i : ℕ) (a : Ptr) → suc i ≤ suc n
    → has a (cells i) ≡ true
    → w2.heap a ≡ none
freed_first cells w w1 w2 freed apart f zero a lt there =
    f.same a (λ i less. apart 0 (suc i) a (ground arith) there) ∙ ground (arith, freed a)
freed_first cells w w1 w2 freed apart f (suc i) a lt there = f.gone i a (omega (arith, lt)) there

clear_all-AllFreed :
    (rounds : ℕ) (qs : List Queue) (cells : ℕ → Cells) (w : World)
    → Chains w.heap qs cells
    → ((i : ℕ) → length (cells i) ≤ rounds)
    → Returns (λ _ w'. AllFreed (length qs) cells w w') (clear_all rounds qs w)
unfolding clear_all
clear_all-AllFreed rounds [] cells w c enough = returns (record {
  gone = λ i a lt there. absurd (omega (arith, lt));
  same = λ a out. refl;
  disk = refl;
})
clear_all-AllFreed rounds (q ∷ qs) cells w c enough =
    Returns.bind (queue_clear-Freed {w = w} rounds (c.each 0 q refl) (enough 0))
      λ _ w1 (freed, still).
        Returns.mono
          (clear_all-AllFreed rounds qs (λ i. cells (suc i)) w1
            (record {
              each = λ i r at.
                  let k = c.each (suc i) r at in
                  record {
                    root = k.root;
                    tail = k.tail;
                    linked = frame w.heap w1.heap (cells (suc i)) k.linked (λ a there.
                        ground (arith, freed a, c.apart (suc i) 0 a (ground arith) there));
                  };
              apart = λ i j a ne there. c.apart (suc i) (suc j) a (ground arith) there;
            })
            (λ i. enough (suc i)))
          λ _ w2 f. record {
            gone = freed_first cells w w1 w2 freed c.apart f;
            same = λ a out.
                f.same a (λ i lt. out (suc i) (omega (arith, lt)))
                ∙ ground (arith, freed a, out 0 (omega arith));
            disk = f.disk ∙ still;
          }

free_array-kept :
    {P : World → Type 0} (m : ArrayMemory) (w : World)
    → m ≢ given_back
    → P w
    → Returns (λ _ w'. P w') (free_array m w)
unfolding free_array
free_array-kept unallocated w kept h = returns h
free_array-kept allocated w kept h = returns h
free_array-kept given_back w kept h = absurd (kept refl)

-- Given as many rounds as a queue has nodes, a pool of queues that share no node, whose array was
-- not given back, is destroyed without a dangling pointer: every node is freed once, and the rest of
-- memory and the disk are as before.
pub queue_pool_destruct-AllFreed :
    (rounds : ℕ) (p : QueuePool) (cells : ℕ → Cells) (w : World)
    → Chains w.heap p.pool cells
    → ((i : ℕ) → length (cells i) ≤ rounds)
    → p.memory ≢ given_back
    → Returns (λ _ w'. AllFreed (length p.pool) cells w w') (queue_pool_destruct rounds p w)
unfolding queue_pool_destruct
queue_pool_destruct-AllFreed rounds p cells w c enough kept =
    Returns.bind (clear_all-AllFreed rounds p.pool cells w c enough)
      λ _ w' f. free_array-kept p.memory w' kept f

-- An array that was given back is freed a second time.
pub queue_pool_destruct-given_back :
    (rounds : ℕ) (p : QueuePool) (cells : ℕ → Cells) (w : World)
    → Chains w.heap p.pool cells
    → ((i : ℕ) → length (cells i) ≤ rounds)
    → p.memory ≡ given_back
    → queue_pool_destruct rounds p w ≡ crash
unfolding queue_pool_destruct free_array
queue_pool_destruct-given_back rounds p cells w c enough gone =
    Returns.bind_crash (λ _. free_array p.memory)
      (clear_all-AllFreed rounds p.pool cells w c enough) λ _ w' f. rw gone
