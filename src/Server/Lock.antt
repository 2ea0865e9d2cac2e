-- ===== src/Server/Lock.antt =====
-- The lock of server/s_thread.c.
use mathlib.Core.Path.{subst}
use bmb.Base.{ℕ, ◌≡◌, ◌⊎◌, inl, inr, refl, sym, Bool, true, false, Option, none, some, arith}
use bmb.Base.Text.{CString}
use bmb.Run.{ok}
use bmb.World.{Ptr, World}
use bmb.Pool.{QueuePool}
use bmb.Reply.{Cjson}
use bmb.Http.Request.{Request}
use bmb.Http.Response.{Response, response_handle}
use bmb.Server.{
  Pc, opened, received, waiting, locked, handling, handled, unlocked, assembled, closed, System,
  Move, receive, parse, acquire, begin, finish, release, assemble, send, Step, step, Reach, start,
  later,
}

-- Between `pthread_mutex_lock` and `pthread_mutex_unlock`.
abbrev pub critical : Pc → Bool
critical (locked req) = true
critical (handling req w p) = true
critical (handled req res) = true
critical _ = false

-- What a step of thread `i` does to the lock.
abbrev Locking : ℕ → Option ℕ → Pc → Option ℕ → Pc → Type 0
Locking i l from l' to =
    ((critical from ≡ critical to) × (l' ≡ l))
    ⊎ ((critical from ≡ false) × (l ≡ none) × (critical to ≡ true) × (l' ≡ some i))
    ⊎ ((critical from ≡ true) × (critical to ≡ false) × (l' ≡ none))

module _ {room : ℕ → ℕ} {lib : Cjson} where
  Move-Locking :
      {i : ℕ} {w w' : World} {p p' : QueuePool} {l l' : Option ℕ} {from to : Pc}
      → Move room lib i w p l from w' p' l' to
      → Locking i l from l' to
  Move-Locking (receive buffer) = inl (refl, refl)
  Move-Locking (parse e) = inl (refl, refl)
  Move-Locking acquire = inr (inl (refl, refl, refl, refl))
  Move-Locking begin = inl (refl, refl)
  Move-Locking (finish now rounds fresh e) = inl (refl, refl)
  Move-Locking release = inr (inr (refl, refl, refl))
  Move-Locking (assemble e) = inl (refl, refl)
  Move-Locking send = inl (refl, refl)

-- A thread is between the calls exactly when it holds the lock.
pub record IsLocked (s : System) : Type 0 where
  pub holds : (i : ℕ) → critical (s.pc i) ≡ true → s.lock ≡ some i
  pub held : (i : ℕ) → s.lock ≡ some i → critical (s.pc i) ≡ true

-- Every request that is being handled is answered.
abbrev pub IsAnswered : (ℕ → ℕ) → Cjson → System → Type 0
IsAnswered room lib s =
    (j : ℕ) (req : Option Request) (w : World) (p : QueuePool)
    → s.pc j ≡ handling req w p
    → (res : Response) × (w' : World) × (p' : QueuePool) × (now : CString) × (rounds : ℕ)
      × (fresh : Ptr) × (response_handle room lib now rounds fresh p req w ≡ ok (res, p') w')

-- The thread can take a step.
abbrev pub CanMove : (ℕ → ℕ) → Cjson → System → ℕ → Type 0
CanMove room lib s j =
    (w : World) × (p : QueuePool) × (l : Option ℕ) × (to : Pc) × Move room lib j s.world s.pool
      s.lock (s.pc j) w p l to

-- The thread can take the free lock, or the one that holds it can go on.
abbrev pub GoesOn : (ℕ → ℕ) → Cjson → System → ℕ → Type 0
GoesOn room lib s i =
    ((s.lock ≡ none) × CanMove room lib s i) ⊎ ((j : ℕ) × (s.lock ≡ some j) × CanMove room lib s j)

module _ {room : ℕ → ℕ} {lib : Cjson} where
  Step-IsLocked : {s t : System} → Step room lib s t → IsLocked s → IsLocked t
  Step-IsLocked {s} (step i {l} {to} mv) k = record {
    holds = λ j c. ground (arith, Move-Locking mv, k.holds j, k.holds i);
    held = λ j e. ground (arith, Move-Locking mv, k.held j, k.held i, k.holds i);
  }

  pub Reach-IsLocked : {w : World} {p : QueuePool} {s : System} → Reach room lib w p s → IsLocked s
  Reach-IsLocked start = record { holds = λ i c. absurd (cc); held = λ i e. absurd (cc) }
  Reach-IsLocked (later r st) = Step-IsLocked st (Reach-IsLocked r)

  -- In every reachable state of any number of threads, at most one thread is between the calls that
  -- lock and unlock.
  pub mutual_exclusion :
      {w : World} {p : QueuePool} {s : System} (i j : ℕ)
      → Reach room lib w p s
      → critical (s.pc i) ≡ true
      → critical (s.pc j) ≡ true
      → i ≡ j
  mutual_exclusion i j r in_i in_j =
      ground (arith, (Reach-IsLocked r).holds i in_i, (Reach-IsLocked r).holds j in_j)

  CanMove-at :
      (s : System) (j : ℕ) (at : Pc) {w : World} {p : QueuePool} {l : Option ℕ} {to : Pc}
      → s.pc j ≡ at
      → Move room lib j s.world s.pool s.lock at w p l to
      → CanMove room lib s j
  CanMove-at s j at {w} {p} {l} {to} e mv =
      (w, p, l, to, subst (λ x. Move room lib j s.world s.pool s.lock x w p l to) (sym e) mv)

  -- The thread that holds the lock can take its next step, where its request is answered.
  holder-CanMove :
      (s : System) (j : ℕ) (at : Pc)
      → s.pc j ≡ at
      → critical at ≡ true
      → ((req : Option Request) (w : World) (p : QueuePool)
          → at ≡ handling req w p
          → (res : Response) × (w' : World) × (p' : QueuePool) × (now : CString) × (rounds : ℕ)
            × (fresh : Ptr) × (response_handle room lib now rounds fresh p req w ≡ ok (res, p') w'))
      → CanMove room lib s j
  holder-CanMove s j opened e c answers = absurd (cc)
  holder-CanMove s j (received b) e c answers = absurd (cc)
  holder-CanMove s j (waiting req) e c answers = absurd (cc)
  holder-CanMove s j (locked req) e c answers = CanMove-at s j (locked req) e begin
  holder-CanMove s j (handling req w p) e c answers =
      let (res, w', p', now, rounds, fresh, answered) = answers req w p refl in
      CanMove-at s j (handling req w p) e (finish now rounds fresh answered)
  holder-CanMove s j (handled req res) e c answers = CanMove-at s j (handled req res) e release
  holder-CanMove s j (unlocked req res) e c answers = absurd (cc)
  holder-CanMove s j (assembled req res text) e c answers = absurd (cc)
  holder-CanMove s j (closed req res text) e c answers = absurd (cc)

  waiting-cases :
      (s : System) (i : ℕ) (req : Option Request) (l : Option ℕ)
      → s.lock ≡ l
      → s.pc i ≡ waiting req
      → IsLocked s
      → IsAnswered room lib s
      → GoesOn room lib s i
  waiting-cases s i req none e at k answers = inl (
    e,
    CanMove-at s i (waiting req) at (
        subst
          (λ l. Move room lib i s.world s.pool l (waiting req) s.world s.pool (some i) (locked req))
          (sym e) acquire),
  )
  waiting-cases s i req (some j) e at k answers =
      inr (j, e, holder-CanMove s j (s.pc j) refl (k.held j e) (λ r w p here. answers j r w p here))

  -- In every reachable state in which a thread waits for the lock, either the lock is free and this
  -- thread can take it, or a thread holds it and can go on, provided that every request that is
  -- being handled is answered.
  pub no_deadlock :
      {w : World} {p : QueuePool} {s : System} (i : ℕ) (req : Option Request)
      → Reach room lib w p s
      → s.pc i ≡ waiting req
      → IsAnswered room lib s
      → GoesOn room lib s i
  no_deadlock {s} i req r at answers =
      waiting-cases s i req s.lock refl at (Reach-IsLocked r) answers
