-- ===== src/Server/Sockets.antt =====
-- server/server.c: the server's socket, its address, its broker and its count of requests.
use bmb.Base.{ℕ, ◌+◌, ◌%◌, ◌==◌, ◌^◌, Bool, true, false, Option, none, some, if◌then◌else◌}
use bmb.Base.Text.{CString, codes}
use bmb.Run.{Run, Cmd, ok, crash, exited, out_of_rounds}
use bmb.Run.Returns.{Returns, returns}
use bmb.Util.Decimal.{ℤ, pos, negsuc}
use bmb.World.{Ptr, World}
use bmb.Pool.{QueuePool}
use bmb.Broker.Init.{broker_init}

-- `struct sockaddr_in`; the port in the byte order of the machine.
pub record SocketAddress : Type 0 where
  pub internet : Bool
  pub port : ℕ
  pub host : CString

-- `Server`; `socket` is not set before `server_create_socket`. `request_counter` is the 32 bits of
-- the `int`.
pub record Server : Type 0 where
  pub socket : Option ℤ
  pub server_addr : SocketAddress
  pub broker : QueuePool
  pub request_counter : ℕ

-- What the destructor of the process finds when `exit` is called: the pointer `server` is NULL,
-- or points to memory in which the broker is not set, or to a server.
pub data Remains : Type 0 where
  no_server : World → Remains
  no_broker : Remains
  whole : Server → World → Remains

-- What a call of the main program does: as `Run`, but with what is left when it calls `exit`; what
-- is left when a request that is being handled ends the process is not followed.
pub data Outcome (A : Type 0) : Type 0 where
  goes_on : A → World → Outcome A
  exits : Remains → Outcome A
  exits_inside : Outcome A
  crashed : Outcome A
  stuck : Outcome A

abbrev pub Call : Type 0 → Type 0
Call A = World → Outcome A

module _ {A B : Type 0} where
  abbrev pub and_then : Outcome A → (A → Call B) → Outcome B
  and_then (goes_on a w) k = k a w
  and_then (exits r) k = exits r
  and_then exits_inside k = exits_inside
  and_then crashed k = crashed
  and_then stuck k = stuck

  infixl 5 ◌>>=◌
  abbrev pub ◌>>=◌ : Call A → (A → Call B) → Call B
  m >>= k = λ w. and_then (m w) k

  infixl 5 ◌>>◌
  abbrev pub ◌>>◌ : Call A → Call B → Call B
  m >> n = m >>= λ _. n

abbrev pub ended : {A : Type 0} → Outcome A → Run World A → Outcome A
ended e (ok a w) = goes_on a w
ended e crash = crashed
ended e exited = e
ended e out_of_rounds = stuck

-- A call of the broker, with what it is for the main program if it ends the process by itself.
abbrev pub inside : {A : Type 0} → Outcome A → Cmd World A → Call A
inside e m w = ended e (m w)

-- The calls of the operating system at startup.
pub record Sockets : Type 0 where
  pub socket : ℤ
  pub bind : Option ℤ → SocketAddress → ℤ
  pub listen : Option ℤ → ℕ → ℤ

abbrev pub is_negative : ℤ → Bool
is_negative (pos n) = false
is_negative (negsuc n) = true

abbrev pub is_zero : ℤ → Bool
is_zero (pos n) = n == 0
is_zero (negsuc n) = false

-- Total correctness of a call of the main program.
pub data GoesOn {A : Type 0} (P : A → World → Type 0) : Outcome A → Type 0 where
  went_on : {a : A} {w : World} → P a w → GoesOn P (goes_on a w)

module _ {A B : Type 0} {P : A → World → Type 0} {Q : B → World → Type 0} where
  pub then_on :
      {r : Outcome A} {k : A → Call B}
      → GoesOn P r
      → ((a : A) (w : World) → P a w → GoesOn Q (k a w))
      → GoesOn Q (and_then r k)
  then_on (went_on h) next = next _ _ h

pub weaken :
    {A : Type 0} {P Q : A → World → Type 0} {r : Outcome A}
    → GoesOn P r
    → ((a : A) (w : World) → P a w → Q a w)
    → GoesOn Q r
weaken (went_on h) less = went_on (less _ _ h)

pub inside-GoesOn :
    {A : Type 0} {P : A → World → Type 0} {r : Run World A} (e : Outcome A)
    → Returns P r
    → GoesOn P (ended e r)
inside-GoesOn e (returns h) = went_on h

abbrev pub server_port : ℕ
server_port = 8080

-- `s->error`
unfoldable pub server_error : {A : Type 0} → Server → Call A
server_error s w = exits (whole s w)

-- `broker_at` and `pool_at` are what `malloc` gives for the broker and its pool.
unfoldable pub server_init : Ptr → Ptr → (CString → ℕ → Ptr) → Call Server
server_init broker_at pool_at fresh = do
  p ← inside (exits no_broker) (broker_init broker_at pool_at fresh)
  goes_on (record {
    socket = none;
    server_addr = record { internet = true; port = server_port; host = codes "127.0.0.1" };
    broker = p;
    request_counter = 0;
  })

-- The result of `setsockopt` is not read.
unfoldable pub server_create_socket : Sockets → Server → Call (Bool × Server)
unfolding server_error
server_create_socket os s =
    let s' = record s { socket = some os.socket } in
    if is_negative os.socket then server_error s' else goes_on (true, s')

unfoldable pub server_bind : Sockets → Server → Call Bool
unfolding server_error
server_bind os s =
    if is_negative (os.bind s.socket s.server_addr) then server_error s else goes_on true

-- `fd` is what `accept` returns.
unfoldable pub server_accept : ℤ → Server → Call (ℤ × Server)
unfolding server_error
server_accept fd s =
    if is_negative fd
    then server_error s
    else goes_on (fd, record s { request_counter = (s.request_counter + 1) % 2 ^ 32 })
