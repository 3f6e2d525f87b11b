-- ===== src/LeakyStack/Linearizable.antt =====
-- The leaking stack as its clients see it: `lockfree_stack` of
-- cpp/concurrency/concurrent_data_structure/lockfree_stack_memory_leak.cpp under every interleaving.
use cs_learning_notes.Base.{ℕ, ◌≡◌, refl, some, List, []}
use cs_learning_notes.Chain.{Cell, Chain, values}
use cs_learning_notes.Interleaving.{Reach, System, Sound, Reach-Sound, Replays}
use cs_learning_notes.Containers.{Event, Lifo}
use cs_learning_notes.StackNode.{Node, Points, null}
use cs_learning_notes.LeakyStack.{
  Memory, Pc, Move, init, idle, push_cas, pop_next, pop_cas, pop_take,
}
use cs_learning_notes.LeakyStack.Invariant.{Global, Local, Pair}
use cs_learning_notes.LeakyStack.Steps.{keep}

abbrev pub Reaches : {A : Type 0} → List (Event A) → System (Memory A) (Pc A) → Type 0
Reaches = Reach Move init idle

module _ {A : Type 0} {tr : List (Event A)} {s : System (Memory A) (Pc A)} where
  sound : Reaches tr s → Sound values Lifo Global Local Pair [] tr s
  sound r =
      Reach-Sound values Lifo Global Local Pair Move init idle []
        (record { chain = refl; distinct = tt; no_null = refl })
        (λ i. record { own = tt; knows = tt }) (λ i j. record { apart = tt; unseen = tt }) keep r

  -- After any interleaving of any number of threads the nodes from `head` on hold what an abstract
  -- stack holds after the same operations, done one at a time in the order of their events.
  pub leaky_linearizable :
      Reaches tr s
      → (cs : List (Cell A)) × Replays Lifo [] tr (values cs)
        × Chain (Points s.mem.nodes) s.mem.head cs null
  leaky_linearizable r = let h = sound r in (h.x, h.replays, h.global.chain)

-- What a thread needs at its next access: the node that it reads or writes is allocated, and the item
-- that `pop` returns is the one that left the stack at its event.
abbrev pub Defined : {A : Type 0} → Memory A → Pc A → Type 0
Defined {A} m (push_cas x p e) = m.nodes p ≡ some (record { data_ = x; next = e })
Defined {A} m (pop_next a) = (n : Node A) × (m.nodes a ≡ some n)
Defined {A} m (pop_cas a n) = m.nodes a ≡ some n
Defined {A} m (pop_take a x) = (n : Node A) × (m.nodes a ≡ some n) × (n.data_ ≡ x)
Defined m _ = Unit {0}

Local-Defined :
    {A : Type 0} (cs : List (Cell A)) (m : Memory A) (i : ℕ) (p : Pc A)
    → Local cs m i p
    → Defined m p
Local-Defined cs m i (push_cas x p e) l = l.own.0
Local-Defined cs m i (pop_next a) l = l.knows
Local-Defined cs m i (pop_cas a n) l = l.knows
Local-Defined cs m i (pop_take a x) l = l.knows
Local-Defined cs m i idle l = tt
Local-Defined cs m i _ l = tt

-- No thread reads or writes a node that is not allocated, in particular not `old_head->next` after
-- another thread has popped `old_head`, and `pop` returns the item of its event.
pub leaky_no_fault :
    {A : Type 0} {tr : List (Event A)} {s : System (Memory A) (Pc A)}
    → Reaches tr s
    → (i : ℕ) → Defined s.mem (s.pc i)
leaky_no_fault {s} r i = let h = sound r in Local-Defined h.x s.mem i (s.pc i) (h.local i)
