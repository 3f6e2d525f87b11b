-- ===== src/LockedQueue/Linearizable.antt =====
-- The lock-based queue as its clients see it: `threadsafe_queue` of
-- cpp/concurrency/concurrent_data_structure/threadsafe_queue.cpp under every interleaving.
use cs_learning_notes.Base.{ℕ, ◌≡◌, refl, none, some, List, [], ◌++◌}
use cs_learning_notes.Chain.{Cell, Chain, values}
use cs_learning_notes.Interleaving.{Reach, System, Sound, Reach-Sound, Replays}
use cs_learning_notes.Containers.{Event, Fifo, Fifo-order, entered, left}
use cs_learning_notes.QueueNode.{Node, Points, blank}
use cs_learning_notes.LockedQueue.{
  Memory, Pc, Move, init, push_emplace, push_link, advance, take, destroy, delete, idle,
}
use cs_learning_notes.LockedQueue.Invariant.{Global, Local, Pair}
use cs_learning_notes.LockedQueue.Frames.{head_cell}
use cs_learning_notes.LockedQueue.Steps.{keep}

abbrev pub Reaches : {A : Type 0} → List (Event A) → System (Memory A) (Pc A) → Type 0
Reaches = Reach Move init idle

pub init-Global : {A : Type 0} → Global [] (init {A = A})
init-Global = record {
  chain = refl;
  distinct = tt;
  dummy = tt;
  no_null = refl;
  tail_live = (blank, refl);
  quiet_tail = λ e. refl;
}

pub init-Local : {A : Type 0} (i : ℕ) → Local [] (init {A = A}) i idle
init-Local i = record {
  own = tt;
  head_lock = tt;
  tail_lock = tt;
  head_held = λ e. cc;
  tail_held = λ e. cc;
  tail = tt;
  popping = tt;
}

module _ {A : Type 0} {tr : List (Event A)} {s : System (Memory A) (Pc A)} where
  pub sound : Reaches tr s → Sound values Fifo Global Local Pair [] tr s
  sound r =
      Reach-Sound values Fifo Global Local Pair Move init idle [] init-Global init-Local (λ i j. tt)
        keep r

  -- After any interleaving of any number of threads the nodes from `head` to `tail` hold what an
  -- abstract queue holds after the same operations, done one at a time in the order of their events.
  pub locked_linearizable :
      Reaches tr s
      → (cs : List (Cell A)) × Replays Fifo [] tr (values cs)
        × Chain (Points s.mem.nodes) s.mem.head cs s.mem.tail
  locked_linearizable r = let h = sound r in (h.x, h.replays, h.global.chain)

  -- What was popped so far, followed by what is in the nodes, is what was pushed, in its order.
  pub locked_in_order :
      Reaches tr s
      → (cs : List (Cell A)) × (entered tr ≡ left tr ++ values cs)
        × Chain (Points s.mem.nodes) s.mem.head cs s.mem.tail
  locked_in_order r = let (cs, h, c) = locked_linearizable r in (cs, Fifo-order tr (values cs) h, c)

-- What a thread needs at its next access: nodes that are allocated, raw storage to construct in, and a
-- living object to read or to destroy. What the pops read is the item that left the queue.
abbrev pub Defined : {A : Type 0} → Memory A → Pc A → Type 0
Defined m (push_emplace x p) = m.nodes m.tail ≡ some blank
Defined {A} m (push_link x p) = (n : Node A) × (m.nodes m.tail ≡ some n)
Defined {A} m advance = (n : Node A) × (x : A) × (m.nodes m.head ≡ some n) × (n.item ≡ some x)
Defined {A} m (take a n x) = (k : Node A) × (m.nodes a ≡ some k) × (k.item ≡ some x)
Defined {A} m (destroy a n y) = (k : Node A) × (z : A) × (m.nodes a ≡ some k) × (k.item ≡ some z)
Defined {A} m (delete a n y) = (k : Node A) × (m.nodes a ≡ some k) × (k.item ≡ none)
Defined m _ = Unit {0}

Local-Defined :
    {A : Type 0} (cs : List (Cell A)) (m : Memory A) (i : ℕ) (p : Pc A)
    → Global cs m
    → Local cs m i p
    → Defined m p
Local-Defined cs m i (push_emplace x p) g l = l.tail
Local-Defined cs m i (push_link x p) g l = (_, l.tail)
Local-Defined cs m i advance g l =
    let (x, r, ds, e, h, c) = head_cell cs m i g l.popping in (_, x, h, refl)
Local-Defined cs m i (take a n x) g l = (n, l.own.0, l.popping)
Local-Defined cs m i (destroy a n y) g l = (n, y, l.own.0, l.popping)
Local-Defined cs m i (delete a n y) g l = (n, l.own.0, l.popping)
Local-Defined cs m i idle g l = tt
Local-Defined cs m i _ g l = tt

-- In no interleaving does a thread touch a node that is not allocated, construct over a living item,
-- or read, destroy or give away an item that does not live, and a pop reads the item of its event.
pub locked_no_fault :
    {A : Type 0} {tr : List (Event A)} {s : System (Memory A) (Pc A)}
    → Reaches tr s
    → (i : ℕ) → Defined s.mem (s.pc i)
locked_no_fault {s} r i = let h = sound r in Local-Defined h.x s.mem i (s.pc i) h.global (h.local i)
