-- ===== src/MpmcQueue/Destructor.antt =====
-- `~lockfree_queue` of cpp/concurrency/concurrent_data_structure/mpmc_queue_ref_count.cpp, which runs when no
-- thread is in the queue: `while (pop());`.
use cs_learning_notes.Base.{
  ℕ, zero, suc, ◌<◌, ◌≡◌, refl, sym, ◌∙◌, ◌≢◌, inl, inr, subst, Option, none, some, List, [], ◌∷◌,
  length, ◌==◌, if◌then◌else◌, arith,
}
use cs_learning_notes.Base.Cmd.{Cmd, pure, ◌>>=◌, ◌>>◌, defined, collect}
use cs_learning_notes.Chain.{Cell, Chain, Outside, values}
use cs_learning_notes.Interleaving.{System, Replays}
use cs_learning_notes.Containers.{Event, Fifo}
use cs_learning_notes.MpmcQueue.{Memory, Pc, blank, idle}
use cs_learning_notes.MpmcQueue.Invariant.{View, Global, Points}
use cs_learning_notes.MpmcQueue.Ends.{off_tail}
use cs_learning_notes.MpmcQueue.Pushes.{end_state}
use cs_learning_notes.MpmcQueue.Alone.{is_blank}
use cs_learning_notes.MpmcQueue.Linearizable.{Reaches}
use cs_learning_notes.MpmcQueue.Owners.{HasOwner, mpmc-HasOwner}

-- `pop` when the queue is not empty and no other thread is in it: its compare-exchange succeeds at once.
pop_item : {A : Type 0} → Cmd (Memory A) (Option A)
pop_item m =
    (do n ← defined (m.nodes m.head); (λ m'. some (tt, record m' { head = n.next })); pure n.item) m

-- `pop`, with no other thread in the queue; `none` is the null pointer.
pop : {A : Type 0} → Cmd (Memory A) (Option A)
unfolding pop_item
pop m = if m.head == m.tail then some (none, m) else pop_item m

-- The destructor, with fuel for so many calls of `pop`; the items that it destroys are those popped.
unfoldable pub destruct : {A : Type 0} → ℕ → Cmd (Memory A) (List A)
unfolding pop
destruct fuel = collect fuel pop

pop_end : {A : Type 0} (m : Memory A) → m.head ≡ m.tail → pop m ≡ some (none, m)
unfolding pop
pop_end m e = ground arith

pop_more :
    {A : Type 0} (m : Memory A) (x : A) (r : ℕ)
    → m.head ≢ m.tail
    → Points m.nodes m.head x r
    → pop m ≡ some (some x, record m { head = r })
unfolding pop pop_item
pop_more m x r ne e = ground arith

-- The loop takes the chain `cs` off the queue.
collect-pop :
    {A : Type 0} (cs : List (Cell A)) (m : Memory A) (fuel : ℕ)
    → length (values cs) < fuel
    → Outside m.tail cs
    → Chain (Points m.nodes) m.head cs m.tail
    → collect fuel pop m ≡ some (values cs, record m { head = m.tail })
unfolding collect
collect-pop cs m zero h o c = absurd (omega arith)
collect-pop [] m (suc fuel) h o c =
    rw (pop_end m c, collect) (λ i. some ([], record m { head = c i }))
collect-pop ((b, x) ∷ cs) m (suc fuel) h o c =
    rw
      (
        pop_more m x c.1 (λ z. o.0 (sym z ∙ c.0))
            (subst (λ a. Points m.nodes a x c.1) (sym c.0) c.2),
        collect,
        collect-pop cs (record m { head = c.1 }) fuel (omega arith) o.1 c.3,
      )
      refl

-- The last node of a queue that no thread is in is blank.
blank_end :
    {A : Type 0} (x : View A) (m : Memory A) (pc : ℕ → Pc A)
    → Global x m
    → HasOwner m pc
    → ((i : ℕ) → pc i ≡ idle)
    → m.nodes m.tail ≡ some blank
blank_end x m pc g h quiet =
    let (n, e, s) = end_state x m 0 g in
    elim (h n e) [
      | inl no_item ↦ is_blank 0 m n no_item e s
      | inr (j, o) ↦ absurd (ground (arith, quiet j))
    ]

-- When all threads are outside of every operation, the destructor, given fuel for one call of `pop` more
-- than there are items, destroys the items that an abstract queue holds after the same operations,
-- oldest first, and leaves one node between `head` and `tail`, without item and without `next`.
pub mpmc_destruct_empties :
    {A : Type 0} {tr : List (Event A)} {s : System (Memory A) (Pc A)}
    → Reaches tr s
    → ((i : ℕ) → s.pc i ≡ idle)
    → (items : List A) × Replays Fifo [] tr items
      × ((fuel : ℕ)
          → length items < fuel
          → (m : Memory A) × (destruct fuel s.mem ≡ some (items, m))
            × (m.head ≡ m.tail)
            × (m.nodes m.head ≡ some blank))
unfolding destruct
mpmc_destruct_empties {s} r quiet =
    let (h, owner) = mpmc-HasOwner r in
    (
      values h.x.queue,
      h.replays,
      λ fuel enough. (
        record (s.mem) { head = s.mem.tail },
        collect-pop h.x.queue s.mem fuel enough (off_tail h.x s.mem 0 h.global) h.global.chain,
        refl,
        blank_end h.x s.mem s.pc h.global owner quiet,
      ),
    )
