-- ===== src/SplitStack/Tests.antt =====
-- The stack with split counts run at concrete schedules.
use cs_learning_notes.Base.{
  ℕ, suc, ◌+◌, ◌%◌, ◌<◌, ◌≤◌, ◌≡◌, ◌≢◌, refl, some, List, [], ◌∷◌, length, arith, ltb, true,
}
use cs_learning_notes.Chain.{Cell, Chain, Outside, values}
use cs_learning_notes.Interleaving.{Run, begin, go, Replays}
use cs_learning_notes.Interleaving.Continuations.{CanStep}
use cs_learning_notes.Containers.{Lifo, put, took, empty}
use cs_learning_notes.SplitStack.{
  CountedNodePtr, Node, Move, init, idle, null, int_max, int_size, negative, push_begin, push_head,
  allocate, push_win, pop_begin, pop_head, acquire_fail, acquire_node, load_next, pop_win, pop_fail,
  emplace, merge_more, release_last, delete_released, acquire_null, leave,
}
use cs_learning_notes.SplitStack.Roles.{occurrences}
use cs_learning_notes.SplitStack.Invariant.{held, share}
use cs_learning_notes.SplitStack.Linearizable.{
  Points, Defined, split_linearizable, split_no_leak, split_no_fault,
}
use cs_learning_notes.SplitStack.Counts.{split_counts}
use cs_learning_notes.SplitStack.NullCount.{null_with, Bottom, empties, null_counts}
use cs_learning_notes.SplitStack.Overflow.{limit_reached, empty_pops_overflow}

abbrev IntRun : Type 0
IntRun = Run (Move {A = ℕ}) init idle

no_null : ◌≢◌ {A = ℕ} 1 null
no_null = omega arith

small : (k : ℕ) → ltb k 10 ≡ true → k < int_max
small k h = ground arith

abbrev node_with : ℕ → CountedNodePtr
node_with c = record { external_count = c; ptr = 1 }

counts_differ : node_with 2 ≢ node_with 1
counts_differ = λ e. absurd (ground arith)

popped : null_with 1 ≢ node_with 2
popped = λ e. absurd (ground arith)

others_left : ◌≢◌ {A = ℕ} 0 (negative 1)
others_left = omega arith

-- Thread 0 pushes 7, and threads 1 and 2 take its node up.
abbrev shared : IntRun
shared =
    let r : IntRun = go begin 0 (push_begin 7) in
    let r : IntRun = go r 0 push_head in
    let r : IntRun = go r 0 (allocate 1 refl no_null) in
    let r : IntRun = go r 0 (push_win refl) in
    let r : IntRun = go r 1 pop_begin in
    let r : IntRun = go r 1 pop_head in
    let r : IntRun = go r 2 pop_begin in
    let r : IntRun = go r 2 pop_head in
    let r : IntRun = go r 1 (acquire_node refl (small 1 refl) no_null) in
    let r : IntRun = go r 2 (acquire_fail counts_differ) in
    let r : IntRun = go r 2 (acquire_node refl (small 2 refl) no_null) in go r 2 (load_next refl)

shared_head : shared.last.mem.head ≡ node_with 3
shared_head = refl

-- Thread 2 pops the node, and thread 1, which holds it too, deletes it.
abbrev finished : IntRun
finished =
    let r : IntRun = go shared 2 (pop_win refl refl) in
    let r : IntRun = go r 1 (load_next refl) in
    let r : IntRun = go r 1 (pop_fail popped) in
    let r : IntRun = go r 2 (emplace refl) in
    let r : IntRun = go r 2 (merge_more refl others_left) in
    let r : IntRun = go r 2 leave in
    let r : IntRun = go r 1 (release_last refl refl) in
    let r : IntRun = go r 1 (delete_released refl) in
    let r : IntRun = go r 1 (acquire_null refl (small 1 refl) refl) in go r 1 leave

finished_trace : finished.trace ≡ empty ∷ took 7 ∷ put 7 ∷ []
finished_trace = refl

all_idle : (i : ℕ) → finished.last.pc i ≡ idle
all_idle i = ground arith

split_linearizable_example :
    (cs : List (Cell ℕ)) × Replays Lifo [] finished.trace (values cs)
    × Chain (Points finished.last.mem.nodes) finished.last.mem.head.ptr cs null
split_linearizable_example = split_linearizable finished.reach

split_no_leak_example :
    (cs : List (Cell ℕ)) × Chain (Points finished.last.mem.nodes) finished.last.mem.head.ptr cs null
    × ((a : ℕ) (n : Node ℕ) → finished.last.mem.nodes a ≡ some n → ¬ Outside a cs)
split_no_leak_example = split_no_leak finished.reach all_idle

split_no_fault_example : Defined shared.last.mem (shared.last.pc 2)
split_no_fault_example = split_no_fault shared.reach 2

split_counts_example :
    (holders : List ℕ) × ((i : ℕ) → occurrences i holders ≡ share (held (shared.last.pc i)) 1)
    × ((shared.last.mem.internal_count 1 + 3) % int_size ≡ suc (length holders))
    × (length holders < 3)
    × (3 ≤ int_max)
split_counts_example = split_counts shared.reach no_null

null_counts_example : Bottom finished.last.mem (suc (empties finished.trace))
null_counts_example = null_counts finished.reach

empty_pops_overflow_example : ¬ CanStep Move 0 limit_reached.state.mem (limit_reached.state.pc 0)
empty_pops_overflow_example =
    empty_pops_overflow limit_reached.reach limit_reached.count limit_reached.null_head 0
      limit_reached.ready
