-- ===== src/MpmcQueue/Linearizable.antt =====
-- The multi-producer queue as its clients see it, under every interleaving.
use cs_learning_notes.Base.{
  ℕ, ◌≡◌, refl, ◌≢◌, ◌⊎◌, inl, inr, none, some, List, [], ◌++◌, arith, update, true, Option-cases,
}
use cs_learning_notes.Chain.{Cell, Chain, values}
use cs_learning_notes.Interleaving.{Reach, System, Sound, Reach-Sound, Replays}
use cs_learning_notes.Containers.{Event, Fifo, entered, left, Fifo-order}
use cs_learning_notes.MpmcQueue.{
  Node, Memory, Pc, Move, init, null, blank, idle, push_data, own_next, own_tail, help_next,
  help_tail, pop_next, pop_cas, pop_take,
}
use cs_learning_notes.MpmcQueue.Roles.{unused, last, past, shown}
use cs_learning_notes.MpmcQueue.Invariant.{View, items, Global, Local, Pair, Points}
use cs_learning_notes.MpmcQueue.Steps.{keep}
use cs_learning_notes.MpmcQueue.Ends.{head-queued}

abbrev pub Reaches : {A : Type 0} → List (Event A) → System (Memory A) (Pc A) → Type 0
Reaches = Reach Move init idle

abbrev pub dummy : {A : Type 0} → View A
dummy = record { queue = []; role = update (λ _. unused) 1 last }

module _ {A : Type 0} where
  pub init-Global : Global {A = A} dummy init
  init-Global = record {
    chain = refl;
    in_queue = tt;
    distinct = tt;
    tail_node = (blank, refl, inl refl);
    tail_role = refl;
    one_tail = λ a e. ground arith;
    full = λ a e. absurd (ground arith);
    free = λ a e. ground arith;
    no_null = refl;
  }

  pub init-Local : (i : ℕ) → Local {A = A} dummy init i idle
  init-Local i = record { makes = tt; visits = tt; fills = tt; links = tt; pops = tt; takes = tt }

module _ {A : Type 0} {tr : List (Event A)} {s : System (Memory A) (Pc A)} where
  pub sound : Reaches tr s → Sound items Fifo Global Local Pair dummy tr s
  sound r =
      Reach-Sound items Fifo Global Local Pair Move init idle dummy init-Global init-Local
        (λ i j. record { nothing = tt }) keep r

  -- After any interleaving of any number of threads the nodes from `head` to `tail` hold what an abstract
  -- queue holds after the same operations, done one at a time in the order of their events.
  pub mpmc_linearizable :
      Reaches tr s
      → (cs : List (Cell A)) × Replays Fifo [] tr (values cs)
        × Chain (Points s.mem.nodes) s.mem.head cs s.mem.tail
  mpmc_linearizable r = let h = sound r in (h.x.queue, h.replays, h.global.chain)

  -- What was popped so far, followed by what is in the nodes, is what was pushed, in its order.
  pub mpmc_in_order :
      Reaches tr s
      → (cs : List (Cell A)) × (entered tr ≡ left tr ++ values cs)
        × Chain (Points s.mem.nodes) s.mem.head cs s.mem.tail
  mpmc_in_order r =
      let h = sound r in (h.x.queue, Fifo-order tr (values h.x.queue) h.replays, h.global.chain)

-- What a thread needs at its next access: `old_tail`, `old_head` and the node behind it are nodes, the
-- node that a thread is about to set `tail` to is the one behind `old_tail`, and the item that `pop` returns
-- is the one that left the queue at its event.
abbrev pub Defined : {A : Type 0} → Memory A → Pc A → Type 0
Defined {A} m (push_data x p t) = (n : Node A) × (m.nodes t ≡ some n)
Defined {A} m (own_next p t) = (n : Node A) × (m.nodes t ≡ some n) × (n.item ≢ none)
Defined {A} m (help_next x p t) = (n : Node A) × (m.nodes t ≡ some n) × (n.item ≢ none)
Defined {A} m (own_tail t q) = (n : Node A) × (m.nodes t ≡ some n) × (n.next ≡ q) × (q ≢ null)
Defined {A} m (help_tail x p t q) = (n : Node A) × (m.nodes t ≡ some n) × (n.next ≡ q) × (q ≢ null)
Defined {A} m (pop_next a) = (n : Node A) × (m.nodes a ≡ some n)
Defined {A} m (pop_cas a b) = (n : Node A) × (m.nodes a ≡ some n) × (n.next ≡ b) × (b ≢ null)
Defined {A} m (pop_take a x) = (n : Node A) × (m.nodes a ≡ some n) × (n.item ≡ some x)
Defined m _ = Unit {0}

pub node_there :
    {A : Type 0} (x : View A) (m : Memory A) (t : ℕ)
    → Global x m
    → shown (x.role t) ≡ true
    → (n : Node A) × (m.nodes t ≡ some n)
node_there x m t g s = elim (Option-cases (m.nodes t)) [
  | inl e ↦ absurd (ground (arith, g.free t))
  | inr h ↦ h
]

pub was_head :
    {A : Type 0} (x : View A) (m : Memory A) (i a : ℕ)
    → Global x m
    → (x.role a ≡ past) ⊎ ((a ≡ m.head) × (m.head ≢ m.tail))
    → shown (x.role a) ≡ true
was_head x m i a g (inl r) = ground arith
was_head x m i a g (inr h) = ground (arith, head-queued x m i g h.1)

Local-Defined :
    {A : Type 0} (x : View A) (m : Memory A) (i : ℕ) (p : Pc A)
    → Global x m
    → Local x m i p
    → Defined m p
Local-Defined x m i (push_data y p t) g l = node_there x m t g l.visits
Local-Defined x m i (own_next p t) g l = l.fills
Local-Defined x m i (help_next y p t) g l = l.fills
Local-Defined x m i (own_tail t q) g l = l.links
Local-Defined x m i (help_tail y p t q) g l = l.links
Local-Defined x m i (pop_next a) g l = node_there x m a g (was_head x m i a g l.pops)
Local-Defined x m i (pop_cas a b) g l = l.links
Local-Defined x m i (pop_take a y) g l = l.takes
Local-Defined x m i idle g l = tt
Local-Defined x m i _ g l = tt

-- No thread follows a null pointer or one to no node, `tail` is set to the node behind it and to no other, and
-- `pop` returns the item of its event.
pub mpmc_no_fault :
    {A : Type 0} {tr : List (Event A)} {s : System (Memory A) (Pc A)}
    → Reaches tr s
    → (i : ℕ) → Defined s.mem (s.pc i)
mpmc_no_fault {s} r i = let h = sound r in Local-Defined h.x s.mem i (s.pc i) h.global (h.local i)
