-- ===== src/Examples/Sessions.antt =====
-- The theorem on a history of connections at concrete bytes.
use bmb.Base.{refl, none, List, [], ◌∷◌, ◌++◌, arith}
use bmb.Base.Text.{codes}
use bmb.Run.Returns.{Returns}
use bmb.Util.Url.{url_decode}
use bmb.Persist.Requests.{calm}
use bmb.World.{World}
use bmb.Pool.{queue_pool_init}
use bmb.Pool.Kept.{nothing}
use bmb.Broker.Dispatch.Contents.{Command, create, produce_to, consume_from, address_of}
use bmb.Broker.Dispatch.Refines.{IsPlan, Holds-init}
use bmb.Http.Request.{is_space}
use bmb.Http.Request.Query.{Query, query_text, IsQuery}
use bmb.Http.Request.Parse.{HasNoNul}
use bmb.Server.History.{
  Connection, AllCarry, Carries-get, Carries-post, Served, serve_all, serve_all-Served,
}
use bmb.Examples.{lib, name}
use bmb.Examples.Connections.{
  consume_query, consume_query-IsQuery, consume_query-HasNoNul, produce_query,
  produce_query-IsQuery, produce_query-HasNoNul, junk, room, room-IsMalloc, now,
}

-- `POST / HTTP/1.1` with `type=addQueue&queue=x&data=mail`
abbrev pub create_query : Query
create_query = record {
  start = codes "POST / HTTP/1.1";
  sep = 10;
  kind = codes "addQueue";
  name = codes "x";
  key = codes "data";
  value = name;
  stop = 10;
  rest = [];
}

create_query-IsQuery : IsQuery create_query
create_query-IsQuery = record {
  start = ground arith;
  sep = refl;
  kind = unfold is_space in ground arith;
  name = unfold is_space in ground arith;
  value = unfold is_space in ground arith;
  stop = unfold is_space in refl;
}

create_query-HasNoNul : HasNoNul (query_text create_query)
create_query-HasNoNul = ground arith

abbrev pub connection : Query → Command → Connection
connection q cmd = record { buffer = query_text q ++ 0 ∷ junk; now = now; fresh = address_of cmd }

abbrev pub commands : List Command
commands = create name ∷ produce_to name 12 (codes "new") ∷ consume_from name ∷ []

abbrev pub connections : List Connection
connections =
    connection create_query (create name)
    ∷ connection produce_query (produce_to name 12 (codes "new"))
    ∷ connection consume_query (consume_from name)
    ∷ []

pub connections-AllCarry : AllCarry commands connections
connections-AllCarry = (
  Carries-post create_query (codes "/ HTTP/1.1") junk now (create name) create_query-IsQuery refl
      refl create_query-HasNoNul (omega arith) (refl, refl) (omega arith),
  (
    Carries-post produce_query (codes "/ HTTP/1.1") junk now (produce_to name 12 (codes "new"))
        produce_query-IsQuery refl refl produce_query-HasNoNul (omega arith) (refl, refl, refl)
        (omega arith),
    (
      Carries-get consume_query (codes "/") junk now (consume_from name) consume_query-IsQuery refl
          refl consume_query-HasNoNul (omega arith) (refl, refl) (omega arith),
      tt,
    ),
  ),
)

pub commands-IsPlan : IsPlan commands
unfolding url_decode
commands-IsPlan = (
  ((refl, refl), omega arith),
  λ a new. absurd (cc),
  (
    ((refl, refl), tt, λ e. absurd (omega arith), tt),
    λ a new. refl,
    ((refl, refl), λ a new. refl, tt),
  ),
)

abbrev bare_world : World
bare_world = record { heap = λ a. none; disk = calm [] }

serve_all-Served_example :
    Returns
      (Served room lib commands connections nothing 3)
      (serve_all room lib 3 queue_pool_init connections bare_world)
serve_all-Served_example =
    serve_all-Served room lib room-IsMalloc commands connections
      (Holds-init bare_world 3 3 refl (omega arith) (omega arith)) connections-AllCarry
      commands-IsPlan (λ a used i. refl)
