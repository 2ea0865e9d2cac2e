-- ===== src/Examples.antt =====
-- Concrete queues, on which the theorems are applied.
pub mod Queues
pub mod Restarted
pub mod Stored
pub mod Served
pub mod Pools
pub mod Revived
pub mod Sessions
pub mod Processes
pub mod Unsaved
pub mod Blocks
pub mod Connections
pub mod Converted
pub mod Threads
use mathlib.Core.List.{Permᴰ}
use bmb.Base.{
  ℕ, ◌≡◌, refl, true, false, Option, none, some, List, [], ◌∷◌, arith, ◌==◌, if◌then◌else◌,
}
use bmb.Base.Text.{CString, codes, str_eq}
use bmb.Disk.{Files}
use bmb.Disk.Table.{Assoc, find}
use bmb.Persist.Store.{Log, files_of}
use bmb.Persist.Requests.{HasQueue, calm}
use bmb.World.{null, text, Node, Heap, World}
use bmb.World.Chain.{Cell, Cells}
use bmb.Queue.{Queue}
use bmb.Queue.Walk.{IsQueue}
use bmb.Queue.Kept.{IsKept}
use bmb.Pool.{QueuePool, allocated}
use bmb.Reply.{Cjson}

-- cJSON always gets memory, and prints everything as one text.
abbrev pub lib : Cjson
lib = record { creates = λ j. true; print = λ j. some (codes "{}") }

abbrev pub older : Cell
older = record { at = 5; id = 1; message = codes "hi" }

abbrev pub newer : Cell
newer = record { at = 9; id = 2; message = codes "a b" }

-- The root is the newest node.
abbrev pub two_cells : Cells
two_cells = newer ∷ older ∷ []

abbrev pub two_log : Log
two_log = (1, codes "hi") ∷ (2, codes "a b") ∷ []

abbrev pub name : CString
name = codes "mail"

abbrev pub dirs : Assoc Files
dirs = (name, files_of two_log) ∷ []

abbrev pub older_node : Node
older_node = record { id = 1; message = text (codes "hi"); next = null }

abbrev pub newer_node : Node
newer_node = record { id = 2; message = text (codes "a b"); next = 5 }

abbrev pub new_node : Node
new_node = record { id = 3; message = text (codes "new"); next = null }

-- The queue's two nodes, and a third one that is not linked yet.
abbrev pub heap : Heap
heap a =
    if a == 5
    then some older_node
    else if a == 9
    then some newer_node
    else if a == 12
    then some new_node
    else none

abbrev pub world : World
world = record { heap = heap; disk = calm dirs }

abbrev pub mail : Queue
mail = record { name = name; root = 9; tail = 5; persist = true }

abbrev pub pool : QueuePool
pool = record { pool = mail ∷ []; memory = allocated }

pub mail-IsQueue : IsQueue heap mail two_cells
mail-IsQueue = record {
  root = refl;
  tail = refl;
  linked = (λ e. absurd (omega arith), refl, refl, (λ e. absurd (omega arith), refl, refl, tt));
}

found-mail : find name dirs ≡ some (files_of two_log)
unfolding find str_eq
found-mail = refl

pub dirs-HasQueue : HasQueue dirs name two_log
dirs-HasQueue = record {
  files = files_of two_log;
  found = found-mail;
  stored = Permᴰ.cons refl (Permᴰ.cons refl Permᴰ.nil);
  is_log = (omega arith, omega arith, (omega arith, omega arith, tt));
}

pub mail-IsKept : IsKept dirs world mail two_cells
mail-IsKept = record {
  queue = mail-IsQueue;
  saved = refl;
  disk = refl;
  directory = dirs-HasQueue;
  short = omega arith;
}
