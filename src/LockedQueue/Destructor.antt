-- ===== src/LockedQueue/Destructor.antt =====
-- `~threadsafe_queue` of cpp/concurrency/concurrent_data_structure/threadsafe_queue.cpp, which runs when no
-- thread is in the queue.
use cs_learning_notes.Base.{
  ℕ, ◌<◌, ◌≡◌, refl, sym, ◌∙◌, ◌≢◌, ap, Option, none, some, List, [], length, update, ◌==◌,
  if◌then◌else◌, arith,
}
use cs_learning_notes.Base.Cmd.{Cmd, pure, ◌>>=◌, ◌>>◌, defined, collect}
use cs_learning_notes.Chain.{values}
use cs_learning_notes.Interleaving.{System, Replays}
use cs_learning_notes.Containers.{Event, Fifo}
use cs_learning_notes.QueueNode.{Node, Points, delete-Free}
use cs_learning_notes.QueueNode.Draining.{drained, Takes, update_twice}
use cs_learning_notes.LockedQueue.{Memory, Pc, idle}
use cs_learning_notes.LockedQueue.Linearizable.{Reaches}
use cs_learning_notes.LockedQueue.Steps.Unreached.{locked-Unreached}

-- `delete head`
delete_head : {A : Type 0} → Cmd (Memory A) (Unit {0})
delete_head m = elim (m.nodes m.head) [
  | none ↦ none
  | some n ↦ some (tt, record m { nodes = update m.nodes m.head none })
]

-- The body of the loop; its result is the item that it destroys.
body : {A : Type 0} → Cmd (Memory A) (Option A)
unfolding delete_head
body m =
    (do
      n ← defined (m.nodes m.head)
      x ← defined n.item
      (λ m'.
          some (tt, record m' { nodes = update m'.nodes m.head (some (record n { item = none })) }))
      delete_head
      (λ m'. some (tt, record m' { head = n.next }))
      pure (some x))
      m

-- One round of the loop
round : {A : Type 0} → Cmd (Memory A) (Option A)
unfolding body
round m = if m.head == m.tail then some (none, m) else body m

-- The destructor, with fuel for so many tests of the loop; its result are the items that it destroys.
unfoldable pub destruct : {A : Type 0} → ℕ → Cmd (Memory A) (List A)
unfolding round delete_head
destruct fuel = do items ← collect fuel round; delete_head; pure items

round_end : {A : Type 0} (m : Memory A) → m.head ≡ m.tail → round m ≡ some (none, m)
unfolding round
round_end m e = ground arith

round-Takes :
    {A : Type 0} (m : Memory A) (x : A) (r : ℕ)
    → m.head ≢ m.tail
    → Points m.nodes m.head x r
    → (m' : Memory A) × (round m ≡ some (some x, m'))
      × (m'.tail ≡ m.tail)
      × Takes m.nodes m.head r m'.nodes m'.head
unfolding round
round-Takes m x r ne e = (
  record m {
    head = r;
    nodes = update (update m.nodes m.head (some (record { item = none; next = r }))) m.head none;
  },
  ground arith,
  refl,
  record { next = refl; freed = update_twice m.nodes m.head _ },
)

destruct-runs :
    {A : Type 0} (fuel : ℕ) (m m' : Memory A) (items : List A) {n : Node A}
    → collect fuel round m ≡ some (items, m')
    → m'.nodes m'.head ≡ some n
    → destruct fuel m ≡ some (items, record m' { nodes = update m'.nodes m'.head none })
unfolding destruct
destruct-runs fuel m m' items e h = ground arith

-- When all threads are outside of every operation, the destructor, given fuel for one test more than there
-- are items, destroys the items that an abstract queue holds after the same operations, oldest
-- first, and leaves no node allocated.
pub locked_destruct_frees :
    {A : Type 0} {tr : List (Event A)} {s : System (Memory A) (Pc A)}
    → Reaches tr s
    → ((i : ℕ) → s.pc i ≡ idle)
    → (items : List A) × Replays Fifo [] tr items
      × ((fuel : ℕ)
          → length items < fuel
          → (m : Memory A) × (destruct fuel s.mem ≡ some (items, m)) × ((a : ℕ) → m.nodes a ≡ none))
locked_destruct_frees {A} {s} r quiet =
    let (h, unreached) = locked-Unreached r in
    (
      values h.x,
      h.replays,
      λ fuel enough.
          let d =
            drained (λ (m : Memory A). m.head) (λ m. m.tail) (λ m. m.nodes) round round_end
              round-Takes h.x s.mem fuel enough h.global.distinct h.global.dummy h.global.chain in
          let (n, live) = h.global.tail_live in
          let last : d.end.nodes d.end.head ≡ some n =
            ap d.end.nodes d.ends ∙ d.same s.mem.tail h.global.dummy ∙ live in
          (
            record (d.end) { nodes = update d.end.nodes d.end.head none },
            destruct-runs fuel s.mem d.end (values h.x) d.runs last,
            λ a. delete-Free d.end.nodes a d.end.head (λ ne.
                d.freed a (λ o. unreached a o (λ z. ne (z ∙ sym d.ends)) (λ j. rw (quiet j) tt))),
          ),
    )
