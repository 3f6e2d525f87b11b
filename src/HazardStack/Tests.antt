-- ===== src/HazardStack/Tests.antt =====
-- The hazard-pointer stack run at a concrete schedule.
use cs_learning_notes.Base.{ℕ, ◌<◌, ◌≤◌, ◌≡◌, ◌≢◌, refl, List, [], ◌∷◌, arith, ltb, true}
use cs_learning_notes.Chain.{Cell, Chain, values}
use cs_learning_notes.Interleaving.{Run, begin, go, Replays}
use cs_learning_notes.Containers.{Lifo, put, took}
use cs_learning_notes.StackNode.{Points, null}
use cs_learning_notes.HazardStack.{
  Move, init, idle, max_hazard_pointers, push_begin, push_head, allocate, push_win, pop_begin,
  pop_head, no_hazard, claim_free, claim_taken, store_hazard, same_node, load_next, pop_win,
  clear_node, emplace,
}
use cs_learning_notes.HazardStack.Linearizable.{
  Defined, hazard_linearizable, hazard_no_fault, hazard_protects,
}

abbrev IntRun : Type 0
IntRun = Run (Move {A = ℕ}) init idle

no_null : ◌≢◌ {A = ℕ} 1 null
no_null = omega arith

below : (k : ℕ) → ltb k 2 ≡ true → k < max_hazard_pointers
below k h = ground arith

-- Thread 0 pushes 7, and threads 1 and 2 pop it across each other: 2 has popped it and looks for it among
-- the hazard pointers, while 1 is before its compare-exchange.
abbrev crossing : IntRun
crossing =
    let r : IntRun = go begin 0 (push_begin 7) in
    let r : IntRun = go r 0 push_head in
    let r : IntRun = go r 0 (allocate 1 refl no_null) in
    let r : IntRun = go r 0 (push_win refl) in
    let r : IntRun = go r 1 pop_begin in
    let r : IntRun = go r 1 pop_head in
    let r : IntRun = go r 1 (no_hazard refl) in
    let r : IntRun = go r 1 (claim_free (below 0 refl) refl) in
    let r : IntRun = go r 1 store_hazard in
    let r : IntRun = go r 1 (same_node refl no_null) in
    let r : IntRun = go r 1 (load_next refl) in
    let r : IntRun = go r 2 pop_begin in
    let r : IntRun = go r 2 pop_head in
    let r : IntRun = go r 2 (no_hazard refl) in
    let r : IntRun = go r 2 (claim_taken (below 0 refl) refl) in
    let r : IntRun = go r 2 (claim_free (below 1 refl) refl) in
    let r : IntRun = go r 2 store_hazard in
    let r : IntRun = go r 2 (same_node refl no_null) in
    let r : IntRun = go r 2 (load_next refl) in
    let r : IntRun = go r 2 (pop_win refl) in
    let r : IntRun = go r 2 clear_node in go r 2 (emplace refl)

crossing_trace : crossing.trace ≡ took 7 ∷ put 7 ∷ []
crossing_trace = refl

hazard_linearizable_example :
    (cs : List (Cell ℕ)) × Replays Lifo [] crossing.trace (values cs)
    × Chain (Points crossing.last.mem.nodes) crossing.last.mem.head cs null
hazard_linearizable_example = hazard_linearizable crossing.reach

hazard_no_fault_example : Defined crossing.last.mem 2 (crossing.last.pc 2)
hazard_no_fault_example = hazard_no_fault crossing.reach 2

hazard_protects_example : (0 ≤ 0) × (0 < max_hazard_pointers) × (crossing.last.mem.ptrs 0 ≡ 1)
hazard_protects_example = hazard_protects crossing.reach 1 2 0 1 0 (omega arith) refl refl
