-- ===== src/Server/History.antt =====
-- Connections that server/s_thread.c serves one after another, from received bytes to sent texts.
use mathlib.Core.Path.{ap₂}
use bmb.Base.{ℕ, suc, ◌^◌, ◌<◌, ◌≡◌, refl, ◌∙◌, ap, true, some, List, [], ◌∷◌, ◌++◌, arith, length}
use bmb.Base.Text.{CString, codes}
use bmb.Run.{Cmd, ok, pure, ◌>>=◌}
use bmb.Run.Returns
use bmb.Run.Returns.{Returns, returns}
use bmb.Disk.{Files}
use bmb.Disk.Table.{Assoc}
use bmb.World.{Ptr, World}
use bmb.World.Chain.{Cells}
use bmb.Pool.{QueuePool}
use bmb.Pool.Kept.{Contents}
use bmb.Reply.{Cjson, BrokerResponse}
use bmb.Broker.Dispatch.{broker_dispatch}
use bmb.Broker.Dispatch.Contents.{Command, Asks, address_of, is_new, after, IsProper}
use bmb.Broker.Dispatch.Holds.{Holds, IsFree, Stepped}
use bmb.Broker.Dispatch.Refines.{broker_dispatch-Answers, is_used, IsPlan, after_all, answer_all}
use bmb.Http.Request.{Request, request_parse}
use bmb.Http.Request.Query.{Query, query_text, IsQuery}
use bmb.Http.Request.Parse.{HasNoNul, parsed, request_parse-get, request_parse-post}
use bmb.Http.Response.{json_body, broker_request_of, response_get_response}
use bmb.Http.Response.Answers.{IsMalloc, reply}
use bmb.Server.{broker_thread}
use bmb.Server.Thread.{
  http_text, broker_thread-reply, asked_get, asked_post, broker_request_get, broker_request_post,
}

-- The bytes in the buffer, the text of the time, and the address that `malloc` gives.
pub record Connection : Type 0 where
  pub buffer : List ℕ
  pub now : CString
  pub fresh : Ptr

-- The bytes are a request that asks for what the command says.
pub record Carries (cmd : Command) (conn : Connection) : Type 0 where
  pub req : Request
  pub parses : (w : World) → request_parse conn.buffer w ≡ ok (some req) w
  pub asks : Asks cmd (broker_request_of req)
  pub short : length conn.now < 2 ^ 15
  pub address : conn.fresh ≡ address_of cmd

pub Carries-get :
    (q : Query) (after : CString) (junk : List ℕ) (now : CString) (cmd : Command)
    → IsQuery q
    → q.key ≡ codes "index"
    → q.start ≡ codes "GET " ++ after
    → HasNoNul (query_text q)
    → length (query_text q) < 2 ^ 16
    → Asks cmd (asked_get q)
    → length now < 2 ^ 15
    → Carries cmd (record { buffer = query_text q ++ 0 ∷ junk; now = now; fresh = address_of cmd })
Carries-get q after junk now cmd h key start text fits asks short = record {
  req = parsed (codes "GET") q;
  parses = λ w. request_parse-get q after junk w h key start text fits;
  asks = rw (broker_request_get q key) asks;
  short = short;
  address = refl;
}

pub Carries-post :
    (q : Query) (after : CString) (junk : List ℕ) (now : CString) (cmd : Command)
    → IsQuery q
    → q.key ≡ codes "data"
    → q.start ≡ codes "POST " ++ after
    → HasNoNul (query_text q)
    → length (query_text q) < 2 ^ 16
    → Asks cmd (asked_post q)
    → length now < 2 ^ 15
    → Carries cmd (record { buffer = query_text q ++ 0 ∷ junk; now = now; fresh = address_of cmd })
Carries-post q after junk now cmd h key start text fits asks short = record {
  req = parsed (codes "POST") q;
  parses = λ w. request_parse-post q after junk w h key start text fits;
  asks = rw (broker_request_post q key) asks;
  short = short;
  address = refl;
}

-- The commands that the connections carry.
abbrev pub AllCarry : List Command → List Connection → Type 0
AllCarry [] [] = Unit
AllCarry (cmd ∷ cmds) (conn ∷ conns) = Carries cmd conn × AllCarry cmds conns
AllCarry _ _ = ⊥

module _ (room : ℕ → ℕ) (lib : Cjson) where
  -- The text that is sent for a response of the broker.
  abbrev pub sent : CString → BrokerResponse → CString
  sent now res = http_text (reply now res.code (json_body lib res))

  unfoldable pub sent_all : List Connection → List BrokerResponse → List CString
  sent_all (conn ∷ conns) (res ∷ rs) = sent conn.now res ∷ sent_all conns rs
  sent_all _ _ = []

  -- The connections one after another.
  pub serve_all : ℕ → QueuePool → List Connection → Cmd World (List CString × QueuePool)
  serve_all rounds p [] = pure ([], p)
  serve_all rounds p (conn ∷ conns) = do
    (text, p') ← broker_thread room lib conn.now rounds conn.fresh p conn.buffer
    (rest, p'') ← serve_all rounds p' conns
    pure (text ∷ rest, p'')

  -- The texts are those of the map of queues, and the pool holds its contents.
  abbrev pub Served :
      List Command → List Connection → Contents → ℕ → List CString × QueuePool → World → Type 0
  Served cmds conns s rounds (texts, p') w' =
      (texts ≡ sent_all conns (answer_all lib cmds s))
      × ((dirs' : Assoc Files) × (cells' : ℕ → Cells) × Holds dirs' w' p' cells' (after_all cmds s)
            rounds 0)

module _ (room : ℕ → ℕ) (lib : Cjson) (m : IsMalloc room) where
  pub broker_thread-Stepped :
      (cmd : Command) (conn : Connection) {dirs : Assoc Files} {w : World} {p : QueuePool}
      {cells : ℕ → Cells} {s : Contents} {rounds n : ℕ}
      → Holds dirs w p cells s rounds (suc n)
      → Carries cmd conn
      → IsProper cmd
      → ((a : Ptr) → is_new a cmd ≡ true → IsFree a cells)
      → Returns
          (λ (text, p') w'.
            (res : BrokerResponse) × (text ≡ sent room lib conn.now res)
            × Stepped lib cmd cells s rounds n (res, p') w')
          (broker_thread room lib conn.now rounds conn.fresh p conn.buffer w)
  broker_thread-Stepped cmd conn {w} {p} {rounds} h c proper free =
      let routed : response_get_response lib rounds (address_of cmd) p c.req w
          ≡ broker_dispatch lib rounds (address_of cmd) p (broker_request_of c.req) w =
        unfold response_get_response in refl in
      rw c.address (
        broker_thread-reply room lib conn.now m c.short rounds (address_of cmd) p conn.buffer c.req
          w (c.parses w) routed
          (broker_dispatch-Answers lib cmd (broker_request_of c.req) h c.asks proper free))

  -- Where memory is allocated as by glibc: any history of connections, each of which sends a
  -- request to produce, consume, create or remove a queue, or to read it, on a pool and a disk that
  -- agree and with the conditions of `dispatch_all-Refined`, those on names included, is served to its end; the texts that are
  -- sent are those of the answers of a finite map from names to first-in first-out queues of texts,
  -- and the pool then holds the contents of that map, in memory and on the disk.
  pub serve_all-Served :
      (cmds : List Command) (conns : List Connection) {dirs : Assoc Files} {w : World}
      {p : QueuePool} {cells : ℕ → Cells} {s : Contents} {rounds : ℕ}
      → Holds dirs w p cells s rounds (length cmds)
      → AllCarry cmds conns
      → IsPlan cmds
      → ((a : Ptr) → is_used a cmds ≡ true → IsFree a cells)
      → Returns (Served room lib cmds conns s rounds) (serve_all room lib rounds p conns w)
  unfolding serve_all sent_all answer_all after_all
  serve_all-Served [] [] {dirs} {p} {cells} h carry plan free =
      returns {a = ([], p)} (refl, (dirs, cells, h))
  serve_all-Served [] (conn ∷ conns) h carry plan free = absurd carry
  serve_all-Served (cmd ∷ cmds) [] h carry plan free = absurd carry
  serve_all-Served (cmd ∷ cmds) (conn ∷ conns) h carry plan free =
      Returns.bind
        (broker_thread-Stepped cmd conn h carry.0 plan.0 (λ a new. free a (ground arith)))
        λ (text, p') w' (res, shown, (told, dirs', cells', h', still)).
          Returns.bind
            (serve_all-Served cmds conns h' carry.1 plan.2
              (λ a used. still a (ground (arith, plan.1 a)) (free a (ground arith))))
            λ (rest, p'') w'' (later, held).
              returns (ap₂ ◌∷◌ (shown ∙ ap (sent room lib conn.now) told) later, held)
