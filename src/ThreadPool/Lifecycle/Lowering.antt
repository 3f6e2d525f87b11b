-- ===== src/ThreadPool/Lifecycle/Lowering.antt =====
-- `worker` of cpp/concurrency/thread_pool/thread_pool.cpp after a stop request: each step of it leaves fewer.
use cs_learning_notes.Base.{
  ℕ, ◌+◌, ◌-◌, ◌<◌, ◌≤◌, ◌≡◌, ◌≢◌, refl, sym, ◌∙◌, ap, true, Option, List, [], ◌∷◌, length, arith,
}
use cs_learning_notes.ThreadPool.Lifecycle.{
  Memory, Event, Pc, Move, back, outside, testing, own_pop, shared_pop, counting, stealing, running,
  construct, spawn, constructed, submit_shared, enter, stop_seen, go_on, own_task, own_empty,
  shared_task, shared_empty, count_queues, steal_task, steal_next, yield, submit_own, run_another,
  task_done, begin_destroy, request_stop, all_requested, free_queues, free_tasks, join, all_joined,
}
use cs_learning_notes.ThreadPool.Lifecycle.Invariant.{Role}
use cs_learning_notes.ThreadPool.Lifecycle.Stopping.{waits}

-- The steps that a worker has left at most, when it is requested to stop and its tasks return.
abbrev pub steps_left : {A : Type 0} → ℕ → Pc A → ℕ
steps_left workers testing = 1
steps_left workers (own_pop calls) = workers + 4 + length calls
steps_left workers (shared_pop calls) = workers + 3 + length calls
steps_left workers (counting calls) = workers + 2 + length calls
steps_left workers (stealing k n calls) = n - k + 2 + length calls
steps_left workers (running task calls) = 2 + length calls
steps_left workers _ = 0

-- A task that runs returns.
abbrev pub Returns : {A : Type 0} → Pc A → Pc A → Type 0
Returns (running task calls) p' = p' ≡ back calls
Returns p p' = Unit {0}

back_left :
    {A : Type 0} (workers : ℕ) (calls : List A) → steps_left workers (back calls) ≤ 1 + length calls
back_left workers [] = omega arith
back_left workers (task ∷ calls) = omega arith

back_inside : {A : Type 0} (calls : List A) → back calls ≢ outside
back_inside [] e = cc
back_inside (task ∷ calls) e = cc

module _ {A : Type 0} (workers i : ℕ) where
  -- A request stays.
  pub stops-kept :
      (j : ℕ) (m : Memory A) (p : Pc A) (e : Option (Event A)) (m' : Memory A) (p' : Pc A)
      → Move workers j m p e m' p'
      → m.stops i ≡ true
      → m'.stops i ≡ true
  stops-kept j m p e m' p' (construct r) h = h
  stops-kept j m p e m' p' (spawn lt) h = h
  stops-kept j m p e m' p' (constructed le) h = h
  stops-kept j m p e m' p' (submit_shared task live s) h = h
  stops-kept j m p e m' p' (enter lt) h = h
  stops-kept j m p e m' p' (stop_seen s) h = h
  stops-kept j m p e m' p' (go_on s) h = h
  stops-kept j m p e m' p' (own_task live f t) h = h
  stops-kept j m p e m' p' (own_empty live f t) h = h
  stops-kept j m p e m' p' (shared_task live f) h = h
  stops-kept j m p e m' p' (shared_empty live f) h = h
  stops-kept j m p e m' p' (count_queues live) h = h
  stops-kept j m p e m' p' (steal_task lt live f t) h = h
  stops-kept j m p e m' p' (steal_next lt live f t) h = h
  stops-kept j m p e m' p' (yield le) h = h
  stops-kept j m p e m' p' (submit_own task live s) h = h
  stops-kept j m p e m' p' run_another h = h
  stops-kept j m p e m' p' task_done h = h
  stops-kept j m p e m' p' begin_destroy h = h
  stops-kept j m p e m' p' (request_stop {k} lt) h = ground arith
  stops-kept j m p e m' p' (all_requested le) h = h
  stops-kept j m p e m' p' free_queues h = h
  stops-kept j m p e m' p' free_tasks h = h
  stops-kept j m p e m' p' (join lt f) h = h
  stops-kept j m p e m' p' (all_joined le) h = h

  -- What a step of the worker is to do.
  abbrev Lowers : Pc A → Pc A → Type 0
  Lowers p p' = (p' ≢ outside) × (steps_left workers p' < steps_left workers p)

  return-Lowers :
      (task : A) (calls : List A) (p' : Pc A) → p' ≡ back calls → Lowers (running task calls) p'
  return-Lowers task calls p' e = (
    λ z. back_inside calls (sym e ∙ z),
    omega (arith, ap (steps_left workers) e, back_left workers calls),
  )

  pub Move-Lowers :
      (m : Memory A) (p : Pc A) (e : Option (Event A)) (m' : Memory A) (p' : Pc A)
      → Move workers i m p e m' p'
      → i < workers
      → (m.queues_live ≡ true → length m.pool.local_queues ≡ workers)
      → Role workers m.pool.threads i p
      → m.stops i ≡ true
      → p ≢ outside
      → Returns p p'
      → Lowers p p'
  Move-Lowers m p e m' p' (construct r) lt q l asked ne t = absurd (ne refl)
  Move-Lowers m p e m' p' (spawn h) lt q l asked ne t = absurd (omega (arith, l.0))
  Move-Lowers m p e m' p' (constructed h) lt q l asked ne t = absurd (omega (arith, l.0))
  Move-Lowers m p e m' p' (submit_shared task live s) lt q l asked ne t =
      absurd (omega (arith, l.0))
  Move-Lowers m p e m' p' (enter h) lt q l asked ne t = absurd (ne refl)
  Move-Lowers m p e m' p' (stop_seen s) lt q l asked ne t = ((λ z. cc), omega arith)
  Move-Lowers m p e m' p' (go_on s) lt q l asked ne t = absurd (ground arith)
  Move-Lowers m p e m' p' (own_task live f h) lt q l asked ne t = ((λ z. cc), omega arith)
  Move-Lowers m p e m' p' (own_empty live f h) lt q l asked ne t = ((λ z. cc), omega arith)
  Move-Lowers m p e m' p' (shared_task live f) lt q l asked ne t = ((λ z. cc), omega arith)
  Move-Lowers m p e m' p' (shared_empty live f) lt q l asked ne t = ((λ z. cc), omega arith)
  Move-Lowers m p e m' p' (count_queues live) lt q l asked ne t = ((λ z. cc), omega (arith, q live))
  Move-Lowers m p e m' p' (steal_task h live f s) lt q l asked ne t = ((λ z. cc), omega arith)
  Move-Lowers m p e m' p' (steal_next h live f s) lt q l asked ne t = ((λ z. cc), omega arith)
  Move-Lowers m p e m' p' (yield {calls} h) lt q l asked ne t =
      (back_inside calls, omega (arith, back_left workers calls))
  Move-Lowers m p e m' p' (submit_own {running_task} {calls} task live s) lt q l asked ne t =
      return-Lowers running_task calls p' t
  Move-Lowers m p e m' p' (run_another {task} {calls}) lt q l asked ne t =
      return-Lowers task calls p' t
  Move-Lowers m p e m' p' (task_done {task} {calls}) lt q l asked ne t =
      return-Lowers task calls p' t
  Move-Lowers m p e m' p' begin_destroy lt q l asked ne t = absurd (omega (arith, l.0))
  Move-Lowers m p e m' p' (request_stop h) lt q l asked ne t = absurd (omega (arith, l.0))
  Move-Lowers m p e m' p' (all_requested h) lt q l asked ne t = absurd (omega (arith, l.0))
  Move-Lowers m p e m' p' free_queues lt q l asked ne t = absurd (omega (arith, l.0))
  Move-Lowers m p e m' p' free_tasks lt q l asked ne t = absurd (omega (arith, l.0))
  Move-Lowers m p e m' p' (join h f) lt q l asked ne t = absurd (omega (arith, l.0))
  Move-Lowers m p e m' p' (all_joined h) lt q l asked ne t = absurd (omega (arith, l.0))

  pub few_left :
      (p : Pc A) (threads : ℕ)
      → i < workers
      → Role workers threads i p
      → steps_left workers p ≤ workers + 4 + length (waits p)
  few_left testing threads lt l = omega arith
  few_left (own_pop calls) threads lt l = omega arith
  few_left (shared_pop calls) threads lt l = omega arith
  few_left (counting calls) threads lt l = omega arith
  few_left (stealing k n calls) threads lt l = omega (arith, l.1)
  few_left (running task calls) threads lt l = omega arith
  few_left outside threads lt l = omega arith
  few_left _ threads lt l = omega arith
