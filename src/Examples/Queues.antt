-- ===== src/Examples/Queues.antt =====
-- The theorems on queues and the pool at the concrete queues.
use bmb.Base.{◌≡◌, refl, true, some, [], ◌∷◌, arith}
use bmb.Base.Text.{codes}
use bmb.Run.{crash}
use bmb.Run.Returns.{Returns}
use bmb.Disk.{Files}
use bmb.Disk.Table.{Assoc}
use bmb.Persist.Requests.{Leaves}
use bmb.World.{null}
use bmb.World.Chain.{Cell, node_of, SameOutside}
use bmb.Queue.{queue_add, queue_poll, queue_clear}
use bmb.Queue.Kept.{IsKept, log_of}
use bmb.Queue.Add.{queue_add-IsKept}
use bmb.Queue.Poll.{queue_poll-IsKept}
use bmb.Queue.Clear.{Freed, queue_clear-Freed}
use bmb.Pool.{queue_pool_destruct, remove_at}
use bmb.Pool.Removal.{queue_pool_destruct-remove_at}
use bmb.Examples.{
  older, newer, two_cells, name, dirs, new_node, world, mail, pool, mail-IsQueue, mail-IsKept,
}

abbrev third : Cell
third = record { at = 12; id = 3; message = codes "new" }

queue_add-IsKept_example :
    (dirs' : Assoc Files) × Returns
      (λ (done, q') w'.
        (done ≡ true)
        × (q'.name ≡ name)
        × IsKept dirs' w' q' (third ∷ two_cells)
        × SameOutside (third ∷ []) world.heap w'.heap)
      (queue_add mail 12 world)
    × Leaves dirs name (log_of (third ∷ two_cells)) dirs'
queue_add-IsKept_example =
    queue_add-IsKept third new_node mail-IsKept (λ e. absurd (omega arith)) refl refl refl refl refl
      (omega arith)

queue_poll-IsKept_example :
    (dirs' : Assoc Files) × Returns
      (λ (p, q') w'.
        (p ≡ 5)
        × (q'.name ≡ name)
        × IsKept dirs' w' q' (newer ∷ [])
        × (w'.heap 5 ≡ some (node_of older null))
        × SameOutside (newer ∷ []) world.heap w'.heap)
      (queue_poll 2 mail world)
    × Leaves dirs name (log_of (newer ∷ [])) dirs'
queue_poll-IsKept_example = queue_poll-IsKept (newer ∷ []) older 2 mail-IsKept (omega arith)

queue_clear-Freed_example : Returns (λ _. Freed two_cells world) (queue_clear 2 mail world)
queue_clear-Freed_example = queue_clear-Freed 2 mail-IsQueue (omega arith)

queue_pool_destruct-remove_at_example :
    Returns (λ (gone, p') w'. queue_pool_destruct 2 p' w' ≡ crash) (remove_at 2 pool (some 0) world)
queue_pool_destruct-remove_at_example =
    queue_pool_destruct-remove_at world mail 2 mail-IsQueue (omega arith)
