-- ===== src/MpmcQueue/Tests.antt =====
-- The multi-producer queue run at a concrete schedule.
use cs_learning_notes.Base.{ℕ, ◌≡◌, ◌≢◌, refl, ◌<◌, ◌≤◌, none, length, some, List, [], ◌∷◌, arith}
use cs_learning_notes.Base.Cmd.{collect}
use cs_learning_notes.Chain.{Cell, Chain, values}
use cs_learning_notes.Interleaving.{System, Run, begin, go, Replays}
use cs_learning_notes.Interleaving.Continuations.{CanStep, stay, own}
use cs_learning_notes.Containers.{Fifo, put, took}
use cs_learning_notes.MpmcQueue.{
  Move, init, idle, null, push_new, load_tail, data_win, data_fail, own_next_fail, own_tail_win,
  help_next_win, help_allocate, pop_begin, load_head, test_more, load_next, pop_win, help_tail_fail,
  own_next_win, take, leave, Memory, Pc, blank,
}
use cs_learning_notes.MpmcQueue.Invariant.{Points}
use cs_learning_notes.MpmcQueue.Destructor.{destruct, mpmc_destruct_empties}
use cs_learning_notes.MpmcQueue.Bound.{RunsAlone, mpmc_alone_ends}
use cs_learning_notes.MpmcQueue.Linearizable.{Defined, mpmc_linearizable, mpmc_no_fault}

abbrev IntRun : Type 0
IntRun = Run (Move {A = ℕ}) init idle

two_new : ◌≢◌ {A = ℕ} 2 null
two_new = omega arith

three_new : ◌≢◌ {A = ℕ} 3 null
three_new = omega arith

four_new : ◌≢◌ {A = ℕ} 4 null
four_new = omega arith

one_three : ◌≢◌ {A = ℕ} 1 3
one_three = omega arith

-- Thread 0 pushes 7 and thread 1 pushes 8: 1 finds the tail claimed and hands its node on, which 0 sets
-- `tail` to; 1 goes on with another node. Thread 2 pops 7.
abbrev helped : IntRun
helped =
    let r : IntRun = go begin 0 (push_new 7 2 refl two_new) in
    let r : IntRun = go r 1 (push_new 8 3 refl three_new) in
    let r : IntRun = go r 0 load_tail in
    let r : IntRun = go r 1 load_tail in
    let r : IntRun = go r 0 (data_win refl refl) in
    let r : IntRun = go r 1 (data_fail refl refl) in
    let r : IntRun = go r 1 (help_next_win refl refl) in
    let r : IntRun = go r 0 (own_next_fail refl three_new) in
    let r : IntRun = go r 0 (own_tail_win refl refl refl) in
    let r : IntRun = go r 1 (help_allocate 4 refl four_new) in
    let r : IntRun = go r 2 pop_begin in
    let r : IntRun = go r 2 load_head in
    let r : IntRun = go r 2 (test_more one_three) in
    let r : IntRun = go r 2 (load_next refl) in go r 2 (pop_win refl refl refl)

-- The two go on until no thread is in the queue, with 8 in it.
abbrev at_rest : IntRun
at_rest =
    let r : IntRun = go helped 1 (help_tail_fail (omega arith)) in
    let r : IntRun = go r 1 load_tail in
    let r : IntRun = go r 1 (data_win refl refl) in
    let r : IntRun = go r 1 (own_next_win refl refl) in
    let r : IntRun = go r 1 (own_tail_win refl refl refl) in
    let r : IntRun = go r 2 (take refl refl) in go r 2 leave

all_idle : (i : ℕ) → at_rest.last.pc i ≡ idle
all_idle i = ground arith

destroyed : (m : Memory ℕ) × (destruct 2 at_rest.last.mem ≡ some (8 ∷ [], m))
unfolding destruct collect
destroyed = (_, refl)

mpmc_destruct_empties_example :
    (items : List ℕ) × Replays Fifo [] at_rest.trace items
    × ((fuel : ℕ)
        → length items < fuel
        → (m : Memory ℕ) × (destruct fuel at_rest.last.mem ≡ some (items, m))
          × (m.head ≡ m.tail)
          × (m.nodes m.head ≡ some blank))
mpmc_destruct_empties_example = mpmc_destruct_empties at_rest.reach all_idle

helped_trace : helped.trace ≡ took 7 ∷ put 7 ∷ []
helped_trace = refl

mpmc_linearizable_example :
    (cs : List (Cell ℕ)) × Replays Fifo [] helped.trace (values cs)
    × Chain (Points helped.last.mem.nodes) helped.last.mem.head cs helped.last.mem.tail
mpmc_linearizable_example = mpmc_linearizable helped.reach

mpmc_no_fault_example : Defined helped.last.mem (helped.last.pc 2)
mpmc_no_fault_example = mpmc_no_fault helped.reach 2

-- Thread 1 tries again alone, and loads the tail.
abbrev alone : System (Memory ℕ) (Pc ℕ)
alone = (go helped 1 (help_tail_fail (omega arith))).last

going_on : RunsAlone 1 helped.last 1 alone
going_on = own stay (λ e. cc) (help_tail_fail (omega arith))

mpmc_alone_ends_example :
    (1 ≤ 12)
    × ((b c : ℕ)
        → alone.mem.nodes b ≡ none
        → b ≢ null
        → alone.mem.nodes c ≡ none
        → c ≢ null
        → b ≢ c
        → alone.pc 1 ≢ idle
        → CanStep Move 1 alone.mem (alone.pc 1))
mpmc_alone_ends_example = mpmc_alone_ends helped.reach 1 going_on
