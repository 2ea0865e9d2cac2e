-- ===== src/Examples/Blocks.antt =====
-- The theorem on the memory of a thread at a concrete request.
use bmb.Base.{ℕ, suc, ◌+◌, List, [], ◌∷◌}
use bmb.Base.Text.{CString, codes}
use bmb.Run.Returns
use bmb.Run.Returns.{Returns}
use bmb.World.{Ptr}
use bmb.Run.{Cmd}
use bmb.Util.Mem.{Memory, mem_free}

-- One more than all addresses in use together.
abbrev sum : List Ptr → ℕ
sum [] = 0
sum (p ∷ l) = p + sum l

abbrev malloc : List Ptr → Ptr
malloc l = suc (sum l)

-- The node that the broker consumes, before and after.
abbrev node_kept : Memory
node_kept = record { live = 9 ∷ []; allocated = 1; freed = 0 }

abbrev node_freed : Memory
node_freed = record { live = []; allocated = 1; freed = 1 }

free_node : Cmd Memory (Unit {0})
free_node = mem_free 9

-- The arguments of the thread and its connection.
abbrev two_blocks : Memory
two_blocks = record { live = 3 ∷ 2 ∷ 9 ∷ []; allocated = 3; freed = 0 }

abbrev received_text : CString
received_text = codes "GET /?type=consume&queue=mail HTTP/1.1"
