-- ===== src/Server/Serial.antt =====
-- The order in which server/s_thread.c handles the requests of all threads.
use mathlib.Core.List.{Memᴰ}
use bmb.Base.{
  ℕ, ◌≡◌, ◌⊎◌, inl, inr, refl, sym, ◌∙◌, Bool, false, ◌||◌, Option, none, some, List, [], ◌∷◌, true,
  arith, ◌==◌, Bool-cases,
}
use bmb.Base.Text.{CString}
use bmb.Run.{ok}
use bmb.World.{Ptr, World}
use bmb.Pool.{QueuePool}
use bmb.Reply.{Cjson}
use bmb.Http.Request.{Request}
use bmb.Http.Response.{Response, response_handle}
use bmb.Server.{
  Pc, opened, received, waiting, locked, handling, handled, unlocked, assembled, closed, System,
  update, Move, receive, parse, acquire, begin, finish, release, assemble, send, Step, step, Reach,
  start, later,
}
use bmb.Server.Lock.{critical, IsLocked, Reach-IsLocked}

-- A request that a thread has handled, and its response.
pub record Call : Type 0 where
  pub thread : ℕ
  pub req : Option Request
  pub res : Response

-- The calls one after another, the last one first, from a state of the broker to another.
pub data Runs (room : ℕ → ℕ) (lib : Cjson) (w0 : World) (p0 : QueuePool)
    : List Call → World → QueuePool → Type 0 where
  none_yet : Runs room lib w0 p0 [] w0 p0
  then_call :
      {calls : List Call} {w w' : World} {p p' : QueuePool} {req : Option Request} {res : Response}
      (i : ℕ) (now : CString) (rounds : ℕ) (fresh : Ptr)
      → Runs room lib w0 p0 calls w p
      → response_handle room lib now rounds fresh p req w ≡ ok (res, p') w'
      → Runs room lib w0 p0 (record { thread = i; req = req; res = res } ∷ calls) w' p'

-- The response that a thread has got for its request.
abbrev pub answer : Pc → Option (Option Request × Response)
answer (handled req res) = some (req, res)
answer (unlocked req res) = some (req, res)
answer (assembled req res text) = some (req, res)
answer (closed req res text) = some (req, res)
answer _ = none

-- Every response that a thread has got is that of one of the calls.
abbrev pub AllCalled : System → List Call → Type 0
AllCalled s calls =
    (i : ℕ) (req : Option Request) (res : Response)
    → answer (s.pc i) ≡ some (req, res)
    → Memᴰ (record { thread = i; req = req; res = res }) calls

abbrev pub called : ℕ → List Call → Bool
called i [] = false
called i (c ∷ calls) = (i == c.thread) || called i calls

-- The broker as a thread found it that is handling its request.
abbrev snapshot : Pc → Option (World × QueuePool)
snapshot (handling req w p) = some (w, p)
snapshot _ = none

abbrev IsCurrent : World → QueuePool → Pc → Type 0
IsCurrent w p at = (snapshot at ≡ none) ⊎ (snapshot at ≡ some (w, p))

-- No thread has two calls.
abbrev pub Once : List Call → Type 0
Once [] = Unit
Once (c ∷ calls) = (called c.thread calls ≡ false) × Once calls

-- The calls lead from the first state of the broker to the one now, and are those of the threads
-- that have got a response.
pub record Serial (room : ℕ → ℕ) (lib : Cjson) (w0 : World) (p0 : QueuePool) (s : System)
    (calls : List Call) : Type 0 where
  pub runs : Runs room lib w0 p0 calls s.world s.pool
  pub all : AllCalled s calls
  pub unanswered : (i : ℕ) → answer (s.pc i) ≡ none → called i calls ≡ false
  pub once : Once calls
  -- A thread that is handling its request works on the broker as it is now.
  pub current : (i : ℕ) → IsCurrent s.world s.pool (s.pc i)

-- What a step does to the broker and to the thread's response: nothing, or one call.
abbrev Calling : (ℕ → ℕ) → Cjson → World → QueuePool → Pc → World → QueuePool → Pc → Type 0
Calling room lib w p from w' p' to =
    ((w' ≡ w) × (p' ≡ p) × (answer to ≡ answer from) × IsCurrent w p to)
    ⊎ ((req : Option Request) × (res : Response) × (now : CString) × (rounds : ℕ) × (fresh : Ptr)
        × (found : World) × (pool : QueuePool) × (snapshot from ≡ some (found, pool))
        × (response_handle room lib now rounds fresh pool req found ≡ ok (res, p') w')
        × (answer from ≡ none)
        × (answer to ≡ some (req, res))
        × (snapshot to ≡ none))

snapshot-critical : (at : Pc) {v : World × QueuePool} → snapshot at ≡ some v → critical at ≡ true
snapshot-critical opened e = absurd (cc)
snapshot-critical (received buffer) e = absurd (cc)
snapshot-critical (waiting req) e = absurd (cc)
snapshot-critical (locked req) e = absurd (cc)
snapshot-critical (handling req w p) e = refl
snapshot-critical (handled req res) e = absurd (cc)
snapshot-critical (unlocked req res) e = absurd (cc)
snapshot-critical (assembled req res text) e = absurd (cc)
snapshot-critical (closed req res text) e = absurd (cc)

-- At most one thread is handling a request.
snapshot-alone :
    {s : System} (i j : ℕ) {v u : World × QueuePool}
    → IsLocked s
    → snapshot (s.pc i) ≡ some v
    → snapshot (s.pc j) ≡ some u
    → (j == i) ≡ true
snapshot-alone {s} i j k e e' =
    ground
      (arith, k.holds i (snapshot-critical (s.pc i) e), k.holds j (snapshot-critical (s.pc j) e'))

IsCurrent-update :
    {w' : World} {p' : QueuePool} (i : ℕ) (pc : ℕ → Pc) (to : Pc) (j : ℕ)
    → IsCurrent w' p' to
    → ((j == i) ≡ false → IsCurrent w' p' (pc j))
    → IsCurrent w' p' (update pc i to j)
IsCurrent-update i pc to j here others = elim (Bool-cases (j == i)) [
  | inl e ↦ rw e here
  | inr e ↦ rw e (others e)
]

-- What a thread found that is handling its request is the broker as it is now.
found_current :
    {w found : World} {p pool : QueuePool} (from : Pc)
    → IsCurrent w p from
    → snapshot from ≡ some (found, pool)
    → (found ≡ w) × (pool ≡ p)
found_current from (inl is) at = absurd (cc)
found_current from (inr is) at = (cc, cc)

-- Where a thread is handling its request, no other one is.
IsCurrent-others :
    {w w' : World} {p p' : QueuePool} {s : System} (i j : ℕ) {v : World × QueuePool}
    → IsLocked s
    → snapshot (s.pc i) ≡ some v
    → IsCurrent w p (s.pc j)
    → (j == i) ≡ false
    → IsCurrent w' p' (s.pc j)
IsCurrent-others i j k e (inl is) apart = inl is
IsCurrent-others i j k e (inr is) apart = absurd (ground (arith, snapshot-alone i j k e is))

answer-update :
    (i : ℕ) (pc : ℕ → Pc) (to : Pc) (j : ℕ)
    → answer to ≡ answer (pc i)
    → answer (update pc i to j) ≡ answer (pc j)
answer-update i pc to j same = ground arith

-- The responses after a call of thread `i` are those of the earlier calls and its own.
new_call :
    (i : ℕ) (pc : ℕ → Pc) (to : Pc) (j : ℕ) (calls : List Call) (req : Option Request)
    (res : Response) (req' : Option Request) (res' : Response)
    → answer to ≡ some (req, res)
    → (answer (pc j) ≡ some (req', res')
        → Memᴰ (record { thread = j; req = req'; res = res' }) calls)
    → answer (update pc i to j) ≡ some (req', res')
    → Memᴰ
        (record { thread = j; req = req'; res = res' })
        (record { thread = i; req = req; res = res } ∷ calls)
new_call i pc to j calls req res req' res' after old e = elim (Bool-cases (j == i)) [
  | inl e1 ↦ Memᴰ.head (ground arith)
  | inr e1 ↦ Memᴰ.tail (old (ground arith))
]

module _ {room : ℕ → ℕ} {lib : Cjson} where
  Move-Calling :
      {i : ℕ} {w w' : World} {p p' : QueuePool} {l l' : Option ℕ} {from to : Pc}
      → Move room lib i w p l from w' p' l' to
      → Calling room lib w p from w' p' to
  Move-Calling (receive buffer) = inl (refl, refl, refl, inl refl)
  Move-Calling (parse e) = inl (refl, refl, refl, inl refl)
  Move-Calling acquire = inl (refl, refl, refl, inl refl)
  Move-Calling begin = inl (refl, refl, refl, inr refl)
  Move-Calling (finish {req} {res} {found} {pool} now rounds fresh e) =
      inr (req, res, now, rounds, fresh, found, pool, refl, e, refl, refl, refl)
  Move-Calling release = inl (refl, refl, refl, inl refl)
  Move-Calling (assemble e) = inl (refl, refl, refl, inl refl)
  Move-Calling send = inl (refl, refl, refl, inl refl)

  Step-Serial :
      {w0 : World} {p0 : QueuePool} {s t : System} {calls : List Call}
      → IsLocked s
      → Step room lib s t
      → Serial room lib w0 p0 s calls
      → (calls' : List Call) × Serial room lib w0 p0 t calls'
  Step-Serial {w0} {p0} {s} {calls} locks (step i {w} {p} {l} {to} mv) k = elim (Move-Calling mv) [
    | inl (sw, sp, same, is) ↦ (
      calls,
      record {
        runs = rw (sw, sp) k.runs;
        all = λ j req res e. k.all j req res (sym (answer-update i s.pc to j same) ∙ e);
        unanswered = λ j e. k.unanswered j (sym (answer-update i s.pc to j same) ∙ e);
        once = k.once;
        current = λ j. rw (sw, sp) (IsCurrent-update i s.pc to j is λ apart. k.current j);
      },
    )
    | inr (req, res, now, rounds, fresh, found, pool, at, e, before, after, ended) ↦
        let (same_world, same_pool) = found_current (s.pc i) (k.current i) at in
        (
          record { thread = i; req = req; res = res } ∷ calls,
          record {
            runs = then_call i now rounds fresh k.runs (rw (← same_world, ← same_pool) e);
            all = λ j req' res' e'.
                new_call i s.pc to j calls req res req' res' after (k.all j req' res') e';
            unanswered = λ j e'. ground (arith, k.unanswered j);
            once = (k.unanswered i before, k.once);
            current = λ j.
                IsCurrent-update i s.pc to j (inl ended)
                  λ apart. IsCurrent-others i j locks at (k.current j) apart;
          },
        )
  ]

  -- In every reachable state of any number of threads, the state of the broker is that after the
  -- requests were handled one after another, in some order, each by a thread of its own, and every
  -- response that a thread has got is the one that its request was given in that order.
  pub Reach-Serial :
      {w0 : World} {p0 : QueuePool} {s : System}
      → Reach room lib w0 p0 s
      → (calls : List Call) × Serial room lib w0 p0 s calls
  Reach-Serial start = (
    [],
    record {
      runs = none_yet;
      all = λ i req res e. absurd (cc);
      unanswered = λ i e. refl;
      once = tt;
      current = λ i. inl refl;
    },
  )
  Reach-Serial (later r st) = let (calls, k) = Reach-Serial r in Step-Serial (Reach-IsLocked r) st k
