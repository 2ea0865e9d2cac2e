-- ===== src/Queue/Fresh.antt =====
-- `Node_new` and `Node_setMessage` of queue/queue_node.c on a new node, and other queues.
use bmb.Base.{ℕ, ◌≡◌, ◌≢◌, ◌∙◌, true, false, some, arith, ◌==◌, leb, length}
use bmb.Base.Text.{CString, str_eq}
use bmb.Run.{ok}
use bmb.Disk.{Files}
use bmb.Disk.Table.{Assoc}
use bmb.World.{Ptr, null, no_message, text, Node, Heap, World, write}
use bmb.World.Chain.{Cells, has, SameOutside, frame}
use bmb.Queue.{Queue, mem_alloc, cleared, node_new, node_clear_message, node_set_message}
use bmb.Queue.Walk.{load-write}
use bmb.Queue.Kept.{IsKept}
use bmb.Persist.Requests.{SameOthers, HasQueue-same, calm}

-- A queue that agrees with its directory still does when only other nodes change.
pub IsKept-frame :
    {dirs : Assoc Files} {w : World} {q : Queue} {xs : Cells} (w' : World)
    → IsKept dirs w q xs
    → ((a : Ptr) → has a xs ≡ true → w'.heap a ≡ w.heap a)
    → w'.disk ≡ w.disk
    → IsKept dirs w' q xs
IsKept-frame {w} {xs} w' k same still = record {
  queue = record {
    root = k.queue.root;
    tail = k.queue.tail;
    linked = frame w.heap w'.heap xs k.queue.linked same;
  };
  saved = k.saved;
  disk = still ∙ k.disk;
  directory = k.directory;
  short = k.short;
}

abbrev pub blank : ℕ → Node
blank id = record { id = id; message = no_message; next = null }

pub node_new-blank :
    (w : World) (p : Ptr) (id : ℕ)
    → p ≢ null
    → node_new p id w ≡ ok p (record w { heap = write w.heap p (some (blank id)) })
unfolding node_new mem_alloc
node_new-blank w p id ne = let nonnull : (p == null) ≡ false = ground arith in rw nonnull

abbrev pub new_node : ℕ → CString → Node
new_node id m = record { id = id; message = text m; next = null }

-- The memory after a node was made at `p`.
pub with_node : Heap → Ptr → ℕ → CString → Heap
with_node h p id m =
    write (write (write h p (some (blank id))) p (some (blank id))) p (some (new_node id m))

pub with_node_self :
    (h : Heap) (p : Ptr) (id : ℕ) (m : CString) → with_node h p id m p ≡ some (new_node id m)
unfolding with_node write
with_node_self h p id m = ground arith

pub with_node-ne :
    (h : Heap) (p a : Ptr) (id : ℕ) (m : CString) → (a == p) ≡ false → with_node h p id m a ≡ h a
unfolding with_node write
with_node-ne h p a id m ne = ground arith

pub node_set_message-blank :
    (w : World) (p : Ptr) (id : ℕ) (m : CString)
    → p ≢ null
    → node_set_message p m (length m) (record w { heap = write w.heap p (some (blank id)) })
      ≡ ok tt (record w { heap = with_node w.heap p id m })
unfolding node_set_message node_clear_message cleared with_node
node_set_message-blank w p id m ne =
    let fits : leb (length m) (length m) ≡ true = ground arith in
    rw (
      load-write w p (blank id) ne,
      fits,
      load-write (record w { heap = write w.heap p (some (blank id)) }) p (blank id) ne,
    )

-- Another queue, with a name and nodes of its own, agrees with its directory as before, and
-- directories of other names are as before.
abbrev pub KeepsOthers : Cells → CString → Assoc Files → World → Assoc Files → World → Type 0
KeepsOthers touched name dirs w dirs' w' =
    ((r : Queue) (ys : Cells)
      → str_eq name r.name ≡ false
      → ((a : Ptr) → has a ys ≡ true → has a touched ≡ false)
      → IsKept dirs w r ys
      → IsKept dirs' w' r ys)
    × SameOthers name dirs dirs'

pub KeepsOthers-of :
    {dirs dirs' : Assoc Files} {w w' : World} (touched : Cells) (name : CString)
    → SameOutside touched w.heap w'.heap
    → SameOthers name dirs dirs'
    → w'.disk ≡ calm dirs'
    → KeepsOthers touched name dirs w dirs' w'
KeepsOthers-of {w} {w'} touched name same others calmed = (
  λ r ys ne apart k. record {
    queue = record {
      root = k.queue.root;
      tail = k.queue.tail;
      linked = frame w.heap w'.heap ys k.queue.linked (λ a i. same a (apart a i));
    };
    saved = k.saved;
    disk = calmed;
    directory = HasQueue-same (others r.name ne) k.directory;
    short = k.short;
  },
  others,
)
