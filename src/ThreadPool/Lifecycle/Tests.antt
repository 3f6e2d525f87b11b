-- ===== src/ThreadPool/Lifecycle/Tests.antt =====
-- A pool of two workers run at concrete schedules.
use cs_learning_notes.Base.{
  ℕ, ◌+◌, ◌≡◌, ◌≢◌, ◌≤◌, refl, true, false, Option, List, [], ◌∷◌, ◌++◌, length, arith,
}
use mathlib.Core.List.{Perm}
use cs_learning_notes.Interleaving.{System, Run, begin, go, Replays}
use cs_learning_notes.ThreadPool.{submit}
use cs_learning_notes.ThreadPool.Deque.{try_pop, push}
use cs_learning_notes.ThreadPool.Tasks.{waiting}
use cs_learning_notes.ThreadPool.Lifecycle.{
  Memory, Event, Pc, Move, init, outside, own_pop, freeing_tasks, submitted, started, construct,
  spawn, constructed, submit_shared, enter, go_on, own_empty, shared_task, submit_own,
  begin_destroy, request_stop, task_done, stop_seen, ended,
}
use cs_learning_notes.ThreadPool.Lifecycle.Bags.{Bag, all_submitted, all_started, all_dropped}
use cs_learning_notes.ThreadPool.Lifecycle.Outcome.{Reaches, pool_conserves}
use cs_learning_notes.ThreadPool.Lifecycle.Stopping.{waits}
use cs_learning_notes.ThreadPool.Lifecycle.Bound.{CanGoOn, GoesOn, worker_stops}
use cs_learning_notes.Interleaving.Continuations.{stay, own, free}
use cs_learning_notes.ThreadPool.Lifecycle.Dangling.{destructor_dangles}

abbrev PoolRun : Type 0
PoolRun = Run (Move {A = ℕ} 2) (init 2) outside

-- Two workers are made, and the task 5 is submitted.
abbrev submitted_5 : PoolRun
unfolding submit
submitted_5 =
    let r : PoolRun = go begin 2 (construct refl) in
    let r : PoolRun = go r 2 (spawn (omega arith)) in
    let r : PoolRun = go r 2 (spawn (omega arith)) in
    let r : PoolRun = go r 2 (constructed (omega arith)) in go r 2 (submit_shared 5 refl refl)

-- Worker 0 runs it, and it submits the task 6, to the queue of the worker.
abbrev running_5 : PoolRun
unfolding submit push try_pop
running_5 =
    let r : PoolRun = go submitted_5 0 (enter (omega arith)) in
    let r : PoolRun = go r 0 (go_on refl) in
    let r : PoolRun = go r 0 (own_empty refl refl refl) in
    let r : PoolRun = go r 0 (shared_task refl refl) in go r 0 (submit_own 6 refl refl)

-- The workers are requested to stop.
abbrev asked : PoolRun
unfolding submit push try_pop
asked =
    let r : PoolRun = go running_5 2 begin_destroy in
    let r : PoolRun = go r 2 (request_stop (omega arith)) in go r 2 (request_stop (omega arith))

running_5_trace : running_5.trace ≡ submitted 6 ∷ started 5 ∷ submitted 5 ∷ []
unfolding submit push try_pop
running_5_trace = refl

pool_conserves_example :
    Replays Bag [] running_5.trace (waiting running_5.last.mem.pool)
    × Perm (all_submitted running_5.trace) (
        all_started running_5.trace
        ++ all_dropped running_5.trace
        ++ waiting running_5.last.mem.pool)
pool_conserves_example = pool_conserves running_5.reach

-- The task of worker 0 submits 7 and returns, and the worker sees the request.
abbrev stopped : PoolRun
unfolding submit push try_pop
stopped =
    let r : PoolRun = go asked 0 (submit_own 7 refl refl) in
    let r : PoolRun = go r 0 task_done in go r 0 (stop_seen refl)

going_on : GoesOn 2 0 asked.last 2 stopped.last
unfolding submit push try_pop
going_on =
    own (own (free stay 0 (λ e. refl) (submit_own 7 refl refl)) refl task_done) tt (stop_seen refl)

worker_stops_example :
    (2 ≤ 2 + 4 + length (waits (asked.last.pc 0)))
    × (stopped.last.mem.queues_live ≡ true
        → stopped.last.mem.tasks_live ≡ true
        → stopped.last.pc 0 ≢ ended
        → CanGoOn 2 0 stopped.last.mem (stopped.last.pc 0))
unfolding submit push try_pop
worker_stops_example = worker_stops asked.reach 0 (omega arith) (λ e. cc) refl going_on

destructor_dangles_example :
    (tr : List (Event ℕ)) × (s : System (Memory ℕ) (Pc ℕ)) × Reaches 2 tr s
    × (s.pc 2 ≡ freeing_tasks)
    × (s.mem.finished 1 ≡ false)
    × (s.pc 1 ≡ own_pop [])
    × ((e : Option (Event ℕ)) (m : Memory ℕ) (p : Pc ℕ) → ¬ Move 2 1 s.mem (s.pc 1) e m p)
destructor_dangles_example = destructor_dangles 2 1 (omega arith)
