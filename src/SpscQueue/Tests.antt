-- ===== src/SpscQueue/Tests.antt =====
-- The single-producer queue run at concrete schedules.
use cs_learning_notes.Base.{ℕ, ◌<◌, ◌≤◌, ◌≢◌, ◌≡◌, refl, none, some, length, List, [], ◌∷◌, arith}
use cs_learning_notes.Chain.{Cell, Chain, values}
use cs_learning_notes.Interleaving.{System, Run, begin, go, Replays}
use cs_learning_notes.Interleaving.Continuations.{CanStep, stay, own, free}
use cs_learning_notes.Containers.{Fifo, put, took}
use cs_learning_notes.QueueNode.{Points}
use cs_learning_notes.SpscQueue.{
  Move, init, producer, consumer, idle, push_new, load_tail, construct, link, store_tail, pop_begin,
  load_more, advance, take, Pc, Memory,
}
use cs_learning_notes.SpscQueue.Linearizable.{Defined, spsc_linearizable, spsc_no_fault}
use cs_learning_notes.SpscQueue.WaitFree.{StaysIn, wait_free}
use cs_learning_notes.SpscQueue.Destructor.{destruct, spsc_destruct_frees}

abbrev IntRun : Type 0
IntRun = Run (Move {A = ℕ}) init idle

-- The producer has put 7.
abbrev one_put : IntRun
one_put =
    let r : IntRun = go begin producer (push_new {p = 2} 7 refl refl (omega arith)) in
    let r : IntRun = go r producer load_tail in
    let r : IntRun = go r producer (construct refl) in
    let r : IntRun = go r producer (link refl) in go r producer store_tail

-- It begins to put 8, and the consumer has taken 7 out of the chain.
abbrev crossing : IntRun
crossing =
    let r : IntRun = go one_put producer (push_new {p = 3} 8 refl refl (omega arith)) in
    let r : IntRun = go r producer load_tail in
    let r : IntRun = go r consumer (pop_begin refl) in
    let r : IntRun = go r consumer (load_more (omega arith)) in go r consumer (advance refl refl)

crossing_trace : crossing.trace ≡ took 7 ∷ put 7 ∷ []
crossing_trace = refl

spsc_linearizable_example :
    (cs : List (Cell ℕ)) × Replays Fifo [] one_put.trace (values cs)
    × Chain (Points one_put.last.mem.nodes) one_put.last.mem.head cs one_put.last.mem.tail
spsc_linearizable_example = spsc_linearizable one_put.reach

spsc_no_fault_example : Defined crossing.last.mem (crossing.last.pc consumer)
spsc_no_fault_example = spsc_no_fault crossing.reach consumer

-- Then the producer writes the item, while the consumer reads its own.
abbrev further : System (Memory ℕ) (Pc ℕ)
further =
    let r : IntRun = go crossing producer (construct refl) in (go r consumer (take refl refl)).last

going_on : StaysIn producer crossing.last 1 further
going_on = free (own stay (λ e. cc) (construct refl)) consumer (λ e. omega arith) (take refl refl)

wait_free_example :
    (1 ≤ 6) × (further.pc producer ≢ idle → CanStep Move producer further.mem (further.pc producer))
wait_free_example = wait_free crossing.reach producer going_on

one_put_idle : (i : ℕ) → one_put.last.pc i ≡ idle
one_put_idle i = ground arith

spsc_destruct_frees_example :
    (items : List ℕ) × Replays Fifo [] one_put.trace items
    × ((fuel : ℕ)
        → length items < fuel
        → (m : Memory ℕ) × (destruct fuel one_put.last.mem ≡ some (items, m))
          × ((a : ℕ) → m.nodes a ≡ none))
spsc_destruct_frees_example = spsc_destruct_frees one_put.reach one_put_idle
