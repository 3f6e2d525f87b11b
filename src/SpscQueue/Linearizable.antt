-- ===== src/SpscQueue/Linearizable.antt =====
-- The single-producer queue as its clients see it: `waitfree_spsc_queue` of
-- cpp/concurrency/concurrent_data_structure/spsc_queue_unbounded.cpp under every interleaving of the
-- two threads.
use cs_learning_notes.Base.{ℕ, ◌≡◌, refl, none, some, List, [], ◌++◌, arith}
use cs_learning_notes.Chain.{Cell, Chain, values}
use cs_learning_notes.Interleaving.{Reach, System, Sound, Reach-Sound, Replays}
use cs_learning_notes.Containers.{Event, Fifo, Fifo-order, entered, left}
use cs_learning_notes.QueueNode.{Node, Points, null, blank}
use cs_learning_notes.SpscQueue.{
  Memory, Pc, Move, init, idle, push_construct, push_link, pop_advance, pop_take, pop_destroy,
  pop_delete,
}
use cs_learning_notes.SpscQueue.Invariant.{Global, Local, Pair}
use cs_learning_notes.SpscQueue.Steps.{keep, head_cell}

-- A reachable state of the queue with the trace that led there.
abbrev pub Reaches : {A : Type 0} → List (Event A) → System (Memory A) (Pc A) → Type 0
Reaches = Reach Move init idle

pub init-Global : {A : Type 0} → Global [] (init {A = A})
init-Global = record { chain = refl; distinct = tt; dummy = tt; no_null = refl }

pub init-Local : {A : Type 0} (i : ℕ) → Local [] (init {A = A}) i idle
init-Local i = record { role = tt; own = tt; tail = λ e. refl; popping = tt }

module _ {A : Type 0} {tr : List (Event A)} {s : System (Memory A) (Pc A)} where
  sound : Reaches tr s → Sound values Fifo Global Local Pair [] tr s
  sound r =
      Reach-Sound values Fifo Global Local Pair Move init idle [] init-Global init-Local (λ i j. tt)
        keep r

  -- After any interleaving the nodes from `head` to `tail` hold what an abstract queue holds after
  -- the same operations, done one at a time in the order of their events.
  pub spsc_linearizable :
      Reaches tr s
      → (cs : List (Cell A)) × Replays Fifo [] tr (values cs)
        × Chain (Points s.mem.nodes) s.mem.head cs s.mem.tail
  spsc_linearizable r = let h = sound r in (h.x, h.replays, h.global.chain)

  -- What was taken so far, followed by what is in the nodes, is what was put, in its order: no item
  -- is lost, taken twice or overtaken.
  pub spsc_in_order :
      Reaches tr s
      → (cs : List (Cell A)) × (entered tr ≡ left tr ++ values cs)
        × Chain (Points s.mem.nodes) s.mem.head cs s.mem.tail
  spsc_in_order r = let (cs, h, c) = spsc_linearizable r in (cs, Fifo-order tr (values cs) h, c)

-- What a thread needs at its next access: nodes that are allocated, raw storage to construct in,
-- and a living object to read or to destroy. What `pop` reads is the item that left the queue.
abbrev pub Defined : {A : Type 0} → Memory A → Pc A → Type 0
Defined m (push_construct x p t) = m.nodes t ≡ some blank
Defined {A} m (push_link x p t) = (n : Node A) × (m.nodes t ≡ some n)
Defined {A} m pop_advance = (n : Node A) × (x : A) × (m.nodes m.head ≡ some n) × (n.item ≡ some x)
Defined {A} m (pop_take a n x) = (k : Node A) × (m.nodes a ≡ some k) × (k.item ≡ some x)
Defined {A} m (pop_destroy a n y) =
    (k : Node A) × (z : A) × (m.nodes a ≡ some k) × (k.item ≡ some z)
Defined {A} m (pop_delete a n y) = (k : Node A) × (m.nodes a ≡ some k) × (k.item ≡ none)
Defined m _ = Unit {0}

Local-Defined :
    {A : Type 0} (cs : List (Cell A)) (m : Memory A) (i : ℕ) (p : Pc A)
    → Global cs m
    → Local cs m i p
    → Defined m p
Local-Defined cs m i (push_construct x p t) g l = ground (arith, l.tail l.role)
Local-Defined cs m i (push_link x p t) g l =
    (record { item = some x; next = null }, ground (arith, l.tail l.role))
Local-Defined cs m i pop_advance g l =
    let (x, r, ds, e, h, c) = head_cell cs m i g l.popping in (_, x, h, refl)
Local-Defined cs m i (pop_take a n x) g l = (n, l.own.0, l.popping)
Local-Defined cs m i (pop_destroy a n y) g l = (n, y, l.own.0, l.popping)
Local-Defined cs m i (pop_delete a n y) g l = (n, l.own.0, l.popping)
Local-Defined cs m i idle g l = tt
Local-Defined cs m i _ g l = tt

-- In no interleaving does a thread touch a node that is not allocated, construct over a living item,
-- or read, destroy or give away an item that does not live, and `pop` reads the item of its event.
pub spsc_no_fault :
    {A : Type 0} {tr : List (Event A)} {s : System (Memory A) (Pc A)}
    → Reaches tr s
    → (i : ℕ) → Defined s.mem (s.pc i)
spsc_no_fault {s} r i = let h = sound r in Local-Defined h.x s.mem i (s.pc i) h.global (h.local i)
