-- ===== src/SpscQueue/Destructor.antt =====
-- `~waitfree_spsc_queue` of cpp/concurrency/concurrent_data_structure/spsc_queue_unbounded.cpp, which runs
-- when no thread is in the queue: `while (pop()); delete head;`.
use cs_learning_notes.Base.{
  ℕ, ◌<◌, ◌≡◌, refl, sym, ◌∙◌, ◌≢◌, subst, ap, Option, none, some, List, [], length, update, ◌==◌,
  if◌then◌else◌, arith,
}
use cs_learning_notes.Base.Cmd.{Cmd, pure, ◌>>=◌, ◌>>◌, defined, collect}
use cs_learning_notes.Chain.{values}
use cs_learning_notes.Interleaving.{System, Replays}
use cs_learning_notes.Containers.{Event, Fifo}
use cs_learning_notes.QueueNode.{Node, blank, Points, delete-Free}
use cs_learning_notes.QueueNode.Draining.{drained, Takes, update_twice}
use cs_learning_notes.SpscQueue.{Memory, Pc, producer, idle}
use cs_learning_notes.SpscQueue.Invariant.{Tail}
use cs_learning_notes.SpscQueue.Linearizable.{Reaches}
use cs_learning_notes.SpscQueue.Steps.Unreached.{spsc-Unreached}

-- `delete` of the node at `a`
delete_node : {A : Type 0} → ℕ → Cmd (Memory A) (Unit {0})
delete_node a m = elim (m.nodes a) [
  | none ↦ none
  | some n ↦ some (tt, record m { nodes = update m.nodes a none })
]

-- `pop` when the queue is not empty
pop_item : {A : Type 0} → Cmd (Memory A) (Option A)
unfolding delete_node
pop_item m =
    (do
      n ← defined (m.nodes m.head)
      x ← defined n.item
      (λ m'. some (
        tt,
        record m' {
          head = n.next;
          nodes = update m'.nodes m.head (some (record n { item = none }));
        },
      ))
      delete_node m.head
      pure (some x))
      m

-- `pop`, with no other thread in the queue
pop : {A : Type 0} → Cmd (Memory A) (Option A)
unfolding pop_item
pop m = if m.head == m.tail then some (none, m) else pop_item m

-- The destructor, with fuel for so many calls of `pop`; the items that it destroys are those popped.
unfoldable pub destruct : {A : Type 0} → ℕ → Cmd (Memory A) (List A)
unfolding pop delete_node
destruct fuel = do items ← collect fuel pop; (λ m. delete_node m.head m); pure items

pop_end : {A : Type 0} (m : Memory A) → m.head ≡ m.tail → pop m ≡ some (none, m)
unfolding pop
pop_end m e = ground arith

module _ {A : Type 0} where
  pop-Takes :
      (m : Memory A) (x : A) (r : ℕ)
      → m.head ≢ m.tail
      → Points m.nodes m.head x r
      → (m' : Memory A) × (pop m ≡ some (some x, m'))
        × (m'.tail ≡ m.tail)
        × Takes m.nodes m.head r m'.nodes m'.head
  unfolding pop
  pop-Takes m x r ne e = (
    record m {
      head = r;
      nodes = update (update m.nodes m.head (some (record { item = none; next = r }))) m.head none;
    },
    ground arith,
    refl,
    record { next = refl; freed = update_twice m.nodes m.head _ },
  )

  blank_tail : (m : Memory A) (p : Pc A) → p ≡ idle → Tail m p → m.nodes m.tail ≡ some blank
  blank_tail m p e h = subst (λ q. Tail m q) e h

destruct-runs :
    {A : Type 0} (fuel : ℕ) (m m' : Memory A) (items : List A) {n : Node A}
    → collect fuel pop m ≡ some (items, m')
    → m'.nodes m'.head ≡ some n
    → destruct fuel m ≡ some (items, record m' { nodes = update m'.nodes m'.head none })
unfolding destruct
destruct-runs fuel m m' items e h = ground arith

-- When both threads are outside of every operation, the destructor, given fuel for one call of `pop`
-- more than there are items, destroys the items that an abstract queue holds after the same
-- operations, oldest first, and leaves no node allocated.
pub spsc_destruct_frees :
    {A : Type 0} {tr : List (Event A)} {s : System (Memory A) (Pc A)}
    → Reaches tr s
    → ((i : ℕ) → s.pc i ≡ idle)
    → (items : List A) × Replays Fifo [] tr items
      × ((fuel : ℕ)
          → length items < fuel
          → (m : Memory A) × (destruct fuel s.mem ≡ some (items, m)) × ((a : ℕ) → m.nodes a ≡ none))
spsc_destruct_frees {A} {s} r quiet =
    let (h, unreached) = spsc-Unreached r in
    (
      values h.x,
      h.replays,
      λ fuel enough.
          let d =
            drained (λ (m : Memory A). m.head) (λ m. m.tail) (λ m. m.nodes) pop pop_end pop-Takes
              h.x s.mem fuel enough h.global.distinct h.global.dummy h.global.chain in
          let last : d.end.nodes d.end.head ≡ some blank =
            ap d.end.nodes d.ends
            ∙ d.same s.mem.tail h.global.dummy
            ∙ blank_tail s.mem (s.pc producer) (quiet producer) ((h.local producer).tail refl) in
          (
            record (d.end) { nodes = update d.end.nodes d.end.head none },
            destruct-runs fuel s.mem d.end (values h.x) d.runs last,
            λ a. delete-Free d.end.nodes a d.end.head (λ ne.
                d.freed a (λ o. unreached a o (λ z. ne (z ∙ sym d.ends)) (λ j. rw (quiet j) tt))),
          ),
    )
