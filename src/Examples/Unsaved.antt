-- ===== src/Examples/Unsaved.antt =====
-- The theorem on a message that cannot be saved at the concrete queue.
use bmb.Base.{◌≡◌, refl, true, none, some, [], ◌∷◌, false, arith}
use bmb.Base.Text.{codes}
use bmb.Run.Returns.{Returns}
use bmb.Persist.Requests.Failing.{failing}
use bmb.Queue.Failing.{in_world}
use bmb.Queue.Fresh.{new_node}
use bmb.Reply.{create_response}
use bmb.Broker.{produce}
use bmb.Broker.Produce.{PutAt}
use bmb.Broker.History.{produce_request}
use bmb.Broker.Unsaved.{produce_unsaved}
use bmb.Examples.{lib, two_cells, dirs, world, mail, pool, mail-IsKept}

produce_unsaved_example :
    Returns
      (λ (res, p') w'.
        (res ≡ create_response lib true 200 (some (codes "Message produced.")) none none)
        × PutAt pool p' 0 mail
        × (w'.heap 12 ≡ some (new_node 3 (codes "new")))
        × (w'.disk ≡ failing dirs []))
      (produce lib 12 pool 0
        (produce_request (codes "new"))
        (in_world world.heap dirs (false ∷ false ∷ false ∷ false ∷ true ∷ [])))
produce_unsaved_example =
    produce_unsaved mail two_cells mail-IsKept.directory mail-IsKept.short (omega arith) world.heap
      [] lib 12 pool 0 (produce_request (codes "new")) (codes "new") refl refl refl
      (λ e. absurd (omega arith))
