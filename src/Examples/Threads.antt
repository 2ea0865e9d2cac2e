-- ===== src/Examples/Threads.antt =====
-- The theorems on threads at a concrete state: one thread holds the lock, one waits for it.
use bmb.Base.{ℕ, ◌+◌, ◌≡◌, refl, Option, none, some, List, [], ◌∷◌, arith}
use bmb.Base.Text.{CString, codes}
use bmb.Http.Request.Parse.{request_parse_nothing}
use bmb.Http.Response.{Response, status_line}
use bmb.Http.Response.Bounds.{five_headers}
use bmb.Http.Response.Answers.{IsMalloc, response_handle-empty}
use bmb.Server.{
  Pc, opened, received, waiting, locked, handling, handled, System, update, receive, parse, acquire,
  begin, finish, step, Reach, start, later,
}
use bmb.Server.Lock.{GoesOn, IsAnswered, mutual_exclusion, no_deadlock}
use bmb.Server.Serial.{Call, Serial, Reach-Serial}
use bmb.Examples.{lib, world, pool}

abbrev room : ℕ → ℕ
room n = n + 8

abbrev quiet : ℕ → Pc
quiet i = opened

abbrev in_state : Option ℕ → (ℕ → Pc) → System
in_state lock pc = record { world = world; pool = pool; lock = lock; pc = pc }

abbrev first_waits : ℕ → Pc
first_waits = update (update quiet 0 (received (0 ∷ []))) 0 (waiting none)

abbrev both_wait : ℕ → Pc
both_wait = update (update first_waits 1 (received (0 ∷ []))) 1 (waiting none)

first_reached : Reach room lib world pool (in_state none first_waits)
first_reached =
    later (later start (step 0 (receive (0 ∷ []))))
      (step 0 (parse (request_parse_nothing [] world)))

both_reached : Reach room lib world pool (in_state none both_wait)
both_reached =
    later (later first_reached (step 1 (receive (0 ∷ []))))
      (step 1 (parse (request_parse_nothing [] world)))

abbrev one_locked : ℕ → Pc
one_locked = update both_wait 1 (locked none)

abbrev one_handling : ℕ → Pc
one_handling = update one_locked 1 (handling none world pool)

abbrev contended : System
contended = in_state (some 1) one_handling

contended-Reach : Reach room lib world pool contended
contended-Reach = later (later both_reached (step 1 acquire)) (step 1 begin)

abbrev now : CString
now = codes "Thu Nov 26 07:00:00 2026"

room-IsMalloc : IsMalloc room
room-IsMalloc = (λ n. omega arith, omega arith)

abbrev refusal : Response
refusal = record {
  status = status_line 400;
  headers = five_headers now;
  body = codes "Empty request received.";
}

contended-IsAnswered : IsAnswered room lib contended
contended-IsAnswered j none w p e =
    (refusal, w, p, now, 2, 12, response_handle-empty room lib now room-IsMalloc 2 12 p w)
contended-IsAnswered j (some req) w p e = absurd (ground arith)

mutual_exclusion_example : ◌≡◌ {A = ℕ} 1 1
mutual_exclusion_example = mutual_exclusion 1 1 contended-Reach refl refl

no_deadlock_example : GoesOn room lib contended 0
no_deadlock_example = no_deadlock 0 none contended-Reach refl contended-IsAnswered

abbrev served : System
served = in_state (some 1) (update one_handling 1 (handled none refusal))

served-Reach : Reach room lib world pool served
served-Reach =
    later contended-Reach
      (step 1 (finish now 2 12 (response_handle-empty room lib now room-IsMalloc 2 12 pool world)))

Reach-Serial_example : (calls : List Call) × Serial room lib world pool served calls
Reach-Serial_example = Reach-Serial served-Reach
