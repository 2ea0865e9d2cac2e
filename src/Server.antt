-- ===== src/Server.antt =====
-- server/s_thread.c: one thread for each connection, and the lock around the broker. The threads run
-- one step at a time, in any order. Handling a request takes two steps, between which other threads
-- may step: what the thread works on is the broker as it found it, and what it leaves replaces the
-- broker as it is then.
pub mod Lock
pub mod Serial
pub mod Thread
pub mod History
pub mod Sockets
use bmb.Base.{ℕ, ◌≡◌, Bool, true, false, Option, none, some, List, ◌==◌, if◌then◌else◌}
use bmb.Base.Text.{CString}
use bmb.Run.{Cmd, ok, pure, ◌>>=◌}
use bmb.World.{Ptr, World}
use bmb.Pool.{QueuePool}
use bmb.Reply.{Cjson}
use bmb.Http.Request.{Request, request_parse}
use bmb.Http.Response.{Response, response_handle, response_assemble}

-- Where a thread of `broker_thread` stands, with its locals.
pub data Pc : Type 0 where
  opened : Pc
  received : List ℕ → Pc
  waiting : Option Request → Pc
  locked : Option Request → Pc
  handling : Option Request → World → QueuePool → Pc
  handled : Option Request → Response → Pc
  unlocked : Option Request → Response → Pc
  assembled : Option Request → Response → CString → Pc
  closed : Option Request → Response → CString → Pc

-- What the threads share, and where each one stands.
pub record System : Type 0 where
  pub world : World
  pub pool : QueuePool
  pub lock : Option ℕ
  pub pc : ℕ → Pc

abbrev pub update : (ℕ → Pc) → ℕ → Pc → ℕ → Pc
update f i a j = if j == i then a else f j

module _ (room : ℕ → ℕ) (lib : Cjson) where
  -- A step of thread `i`: from where it stands to where it goes, with what it does to the rest.
  -- The environment chooses the bytes that are received, the time, the address that `malloc`
  -- gives, and how long loops may run.
  pub data Move (i : ℕ) (w : World) (p : QueuePool)
      : Option ℕ → Pc → World → QueuePool → Option ℕ → Pc → Type 0 where
    receive : {l : Option ℕ} (buffer : List ℕ) → Move i w p l opened w p l (received buffer)
    parse :
        {l : Option ℕ} {buffer : List ℕ} {req : Option Request}
        → request_parse buffer w ≡ ok req w
        → Move i w p l (received buffer) w p l (waiting req)
    acquire : {req : Option Request} → Move i w p none (waiting req) w p (some i) (locked req)
    begin :
        {l : Option ℕ} {req : Option Request} → Move i w p l (locked req) w p l (handling req w p)
    finish :
        {l : Option ℕ} {req : Option Request} {res : Response} {found w' : World}
        {pool p' : QueuePool} (now : CString) (rounds : ℕ) (fresh : Ptr)
        → response_handle room lib now rounds fresh pool req found ≡ ok (res, p') w'
        → Move i w p l (handling req found pool) w' p' l (handled req res)
    release :
        {l : Option ℕ} {req : Option Request} {res : Response}
        → Move i w p l (handled req res) w p none (unlocked req res)
    assemble :
        {l : Option ℕ} {req : Option Request} {res : Response} {text : CString}
        → response_assemble room res w ≡ ok text w
        → Move i w p l (unlocked req res) w p l (assembled req res text)
    send :
        {l : Option ℕ} {req : Option Request} {res : Response} {text : CString}
        → Move i w p l (assembled req res text) w p l (closed req res text)

  pub data Step (s : System) : System → Type 0 where
    step :
        (i : ℕ) {w : World} {p : QueuePool} {l : Option ℕ} {to : Pc}
        → Move i s.world s.pool s.lock (s.pc i) w p l to
        → Step s (record { world = w; pool = p; lock = l; pc = update s.pc i to })

  -- Any number of connections, accepted with the broker in a state.
  abbrev pub init : World → QueuePool → System
  init w p = record { world = w; pool = p; lock = none; pc = λ i. opened }

  pub data Reach (w : World) (p : QueuePool) : System → Type 0 where
    start : Reach w p (init w p)
    later : {s t : System} → Reach w p s → Step s t → Reach w p t

  -- One connection from the received bytes to the sent text.
  pub broker_thread : CString → ℕ → Ptr → QueuePool → List ℕ → Cmd World (CString × QueuePool)
  broker_thread now rounds fresh p buffer = do
    req ← request_parse buffer
    (res, p') ← response_handle room lib now rounds fresh p req
    text ← response_assemble room res
    pure (text, p')
