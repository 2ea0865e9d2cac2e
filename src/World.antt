-- ===== src/World.antt =====
-- The memory that holds nodes, and the disk.
pub mod Chain
use bmb.Base.{ℕ, Option, none, some, ◌==◌, if◌then◌else◌}
use bmb.Base.Text.{CString}
use bmb.Run.{Run, ok, crash, exited, out_of_rounds, Cmd, pure, crashes, ◌>>=◌, ◌>>◌}
use bmb.Disk.{Disk}

abbrev pub Ptr : Type 0
Ptr = ℕ

abbrev pub null : Ptr
null = 0

-- `char *message` of a node: NULL, a text of its own, or freed memory.
pub data Message : Type 0 where
  no_message : Message
  text : CString → Message
  freed : Message

-- `struct node`
pub record Node : Type 0 where
  pub id : ℕ
  pub message : Message
  pub next : Ptr

abbrev pub Heap : Type 0
Heap = Ptr → Option Node

pub record World : Type 0 where
  pub heap : Heap
  pub disk : Disk

unfoldable pub write : Heap → Ptr → Option Node → Heap
write h p c a = if a == p then c else h a

-- `none` gives the address back.
abbrev pub store : Ptr → Option Node → Cmd World (Unit {0})
store p c w = ok tt (record w { heap = write w.heap p c })

-- What the cell of an address holds; NULL and a freed address cannot be read.
abbrev pub cell : Option Node → Cmd World Node
cell none = crashes
cell (some n) = pure n

unfoldable pub load : Ptr → Cmd World Node
load p w = if p == null then crash else cell (w.heap p) w

abbrev pub after_disk : {A : Type 0} → Heap → Run Disk A → Run World A
after_disk h (ok a d) = ok a (record { heap = h; disk = d })
after_disk h crash = crash
after_disk h exited = exited
after_disk h out_of_rounds = out_of_rounds

-- A call that only the disk sees.
abbrev pub on_disk : {A : Type 0} → Cmd Disk A → Cmd World A
on_disk m w = after_disk w.heap (m w.disk)
