-- ===== src/LockedQueue/Tests.antt =====
-- The lock-based queue run at concrete schedules.
use cs_learning_notes.Base.{
  ℕ, ◌<◌, none, some, length, ◌≡◌, refl, ◌≢◌, true, List, [], ◌∷◌, arith, ◌==◌, if◌then◌else◌,
}
use cs_learning_notes.Chain.{Cell, Chain, values}
use cs_learning_notes.Interleaving.{System, Run, begin, go, Replays}
use cs_learning_notes.Containers.{Fifo, put, took}
use cs_learning_notes.QueueNode.{Points}
use cs_learning_notes.LockedQueue.{
  Memory, Pc, notify_nobody, trying, Move, init, idle, sleeping, push_new, lock_tail_push, emplace,
  link, swing, unlock_tail_push, pop_begin, lock_head, lock_tail, read_more, unlock_tail, find_more,
  step_head,
}
use cs_learning_notes.LockedQueue.Linearizable.{
  Reaches, Defined, locked_linearizable, locked_no_fault,
}
use cs_learning_notes.LockedQueue.Progress.{active, CanMove, no_deadlock}
use cs_learning_notes.LockedQueue.Wakeup.{wakeup_lost}
use cs_learning_notes.LockedQueue.Destructor.{destruct, locked_destruct_frees}

abbrev IntRun : Type 0
IntRun = Run (Move {A = ℕ}) init idle

abbrev one_put : IntRun
one_put =
    let r : IntRun = go begin 0 (push_new 2 7 refl (omega arith)) in
    let r : IntRun = go r 0 (lock_tail_push refl) in
    let r : IntRun = go r 0 (emplace refl) in
    let r : IntRun = go r 0 (link refl) in let r : IntRun = go r 0 swing in go r 0 unlock_tail_push

-- Thread 1 has taken 7 out of the chain, while thread 2 waits for the mutex of the head.
abbrev crossing : IntRun
crossing =
    let r : IntRun = go one_put 1 (pop_begin trying) in
    let r : IntRun = go r 2 (pop_begin trying) in
    let r : IntRun = go r 1 (lock_head refl) in
    let r : IntRun = go r 1 (lock_tail refl) in
    let r : IntRun = go r 1 (read_more (λ e. omega arith)) in
    let r : IntRun = go r 1 unlock_tail in
    let r : IntRun = go r 1 (find_more (omega arith)) in go r 1 (step_head refl refl)

crossing_trace : crossing.trace ≡ took 7 ∷ put 7 ∷ []
crossing_trace = refl

locked_linearizable_example :
    (cs : List (Cell ℕ)) × Replays Fifo [] one_put.trace (values cs)
    × Chain (Points one_put.last.mem.nodes) one_put.last.mem.head cs one_put.last.mem.tail
locked_linearizable_example = locked_linearizable one_put.reach

locked_no_fault_example : Defined crossing.last.mem (crossing.last.pc 1)
locked_no_fault_example = locked_no_fault crossing.reach 1

no_deadlock_example :
    (j : ℕ) × (active (crossing.last.pc j) ≡ true)
    × CanMove j crossing.last.mem (crossing.last.pc j)
no_deadlock_example = no_deadlock crossing.reach 2 refl

wakeup_lost_example :
    (s : System (Memory ℕ) (Pc ℕ)) × Reaches (put 7 ∷ []) s
    × (s.mem.head ≢ s.mem.tail)
    × (s.mem.asleep ≡ 0 ∷ [])
    × ((j : ℕ) → s.pc j ≡ (if 0 == j then sleeping else idle))
wakeup_lost_example = wakeup_lost 7

abbrev quiet_put : IntRun
quiet_put = go one_put 0 (notify_nobody refl)

quiet_put_idle : (i : ℕ) → quiet_put.last.pc i ≡ idle
quiet_put_idle i = ground arith

locked_destruct_frees_example :
    (items : List ℕ) × Replays Fifo [] quiet_put.trace items
    × ((fuel : ℕ)
        → length items < fuel
        → (m : Memory ℕ) × (destruct fuel quiet_put.last.mem ≡ some (items, m))
          × ((a : ℕ) → m.nodes a ≡ none))
locked_destruct_frees_example = locked_destruct_frees quiet_put.reach quiet_put_idle
