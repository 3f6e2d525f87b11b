-- ===== src/ThreadPool/Lifecycle/Stopping.antt =====
-- `worker` of cpp/concurrency/thread_pool/thread_pool.cpp after a stop request: a way to the end of its
-- loop.
use cs_learning_notes.Base.{
  ℕ, zero, suc, ◌+◌, ◌-◌, ◌%◌, ◌<◌, ◌≤◌, ◌≡◌, ◌≢◌, refl, true, Option, none, some, List, [], ◌∷◌,
  ◌⊎◌, inl, inr, length, get_elem?-lt, arith, dec_lt,
}
use cs_learning_notes.Interleaving.{Solo, done, alone}
use cs_learning_notes.ThreadPool.{u32}
use cs_learning_notes.ThreadPool.Deque.{try_pop, try_steal}
use cs_learning_notes.ThreadPool.Lifecycle.{
  Memory, Event, Pc, Move, back, outside, testing, own_pop, shared_pop, counting, stealing, running,
  ended, stop_seen, own_task, own_empty, shared_task, shared_empty, count_queues, steal_task,
  steal_next, yield, task_done,
}
use cs_learning_notes.ThreadPool.Lifecycle.Invariant.{Global, Role}

-- What a try gives: no task, or one, and the queue after it.
abbrev Tried : {A : Type 0} → Option A × List A → Type 0
Tried {A} r =
    ((q' : List A) × (r ≡ (none, q'))) ⊎ ((task : A) × (q' : List A) × (r ≡ (some task, q')))

tried : {A : Type 0} (r : Option A × List A) → Tried r
tried (none, q') = inl (q', refl)
tried (some task, q') = inr (task, q', refl)

module _ {A : Type 0} (workers i : ℕ) where
  -- Thread `i`, when it runs alone, can end after `b` steps at most.
  abbrev pub Ends : ℕ → Memory A → Pc A → Type 0
  Ends b m p = (k : ℕ) × Solo (Move workers) ended i m p k × (k ≤ b)

  then :
      {b : ℕ} {m m' : Memory A} {p p' : Pc A} {e : Option (Event A)}
      → Move workers i m p e m' p'
      → Ends b m' p'
      → Ends (suc b) m p
  then mv (k, s, h) = (suc k, alone mv s, omega arith)

  sooner : (b : ℕ) {c : ℕ} {m : Memory A} {p : Pc A} → b ≤ c → Ends b m p → Ends c m p
  sooner b h (k, s, h') = (k, s, omega arith)

  -- The tasks that wait for others end, and the loop of the worker sees the request.
  unwind :
      (calls : List A) (m : Memory A) → m.stops i ≡ true → Ends (length calls + 1) m (back calls)
  unwind [] m h = (1, alone (stop_seen h) done, omega arith)
  unwind (task ∷ calls) m h =
      sooner (suc (length calls + 1)) (omega arith) (then task_done (unwind calls m h))

  run_out :
      (task : A) (calls : List A) (m : Memory A)
      → m.stops i ≡ true
      → Ends (length calls + 2) m (running task calls)
  run_out task calls m h =
      sooner (suc (length calls + 1)) (omega arith) (then task_done (unwind calls m h))

  from_yield :
      (k n : ℕ) (calls : List A) (m : Memory A)
      → n ≤ k
      → m.stops i ≡ true
      → Ends (length calls + 2) m (stealing k n calls)
  from_yield k n calls m h asked =
      sooner (suc (length calls + 1)) (omega arith) (then (yield h) (unwind calls m asked))

  from_stealing :
      (rounds k n : ℕ) (calls : List A) (m : Memory A)
      → n ≤ k + rounds
      → n < length m.pool.local_queues
      → m.queues_live ≡ true
      → m.stops i ≡ true
      → Ends (rounds + 2 + length calls) m (stealing k n calls)
  from_stealing zero k n calls m all h live asked =
      sooner (length calls + 2) (omega arith) (from_yield k n calls m (omega arith) asked)
  from_stealing (suc rounds) k n calls m all h live asked =
      let j : ℕ = u32 (i + k + 1) % n in
      elim (dec_lt k n) [
        | no over ↦
            sooner (length calls + 2) (omega arith) (from_yield k n calls m (omega arith) asked)
        | yes lt ↦
            let (q, e) = get_elem?-lt m.pool.local_queues j (omega arith) in
            elim (tried (try_steal q)) [
              | inl (q', t) ↦ sooner (suc (rounds + 2 + length calls)) (omega arith) (
                  then (steal_next lt live e t)
                    (from_stealing rounds (suc k) n calls m (omega arith) h live asked))
              | inr (task, q', t) ↦
                  sooner (suc (length calls + 2)) (omega arith)
                    (then (steal_task lt live e t) (run_out task calls _ asked))
            ]
      ]

  from_counting :
      (calls : List A) (m : Memory A)
      → 0 < length m.pool.local_queues
      → m.queues_live ≡ true
      → m.stops i ≡ true
      → Ends (length m.pool.local_queues + 2 + length calls) m (counting calls)
  from_counting calls m h live asked =
      let n : ℕ = length m.pool.local_queues - 1 in
      sooner (suc (n + 2 + length calls)) (omega arith) (
        then (count_queues live)
          (from_stealing n 0 n calls m (omega arith) (omega arith) live asked))

  from_shared :
      (ts calls : List A) (m : Memory A)
      → m.pool.tasks ≡ ts
      → 0 < length m.pool.local_queues
      → m.queues_live ≡ true
      → m.tasks_live ≡ true
      → m.stops i ≡ true
      → Ends (length m.pool.local_queues + 3 + length calls) m (shared_pop calls)
  from_shared [] calls m e h live live' asked =
      sooner (suc (length m.pool.local_queues + 2 + length calls)) (omega arith)
        (then (shared_empty live' e) (from_counting calls m h live asked))
  from_shared (task ∷ ts) calls m e h live live' asked =
      sooner (suc (length calls + 2)) (omega arith)
        (then (shared_task live' e) (run_out task calls _ asked))

  from_own :
      (calls : List A) (m : Memory A)
      → i < length m.pool.local_queues
      → m.queues_live ≡ true
      → m.tasks_live ≡ true
      → m.stops i ≡ true
      → Ends (length m.pool.local_queues + 4 + length calls) m (own_pop calls)
  from_own calls m h live live' asked =
      let (q, e) = get_elem?-lt m.pool.local_queues i h in
      elim (tried (try_pop q)) [
        | inl (q', t) ↦ sooner (suc (length m.pool.local_queues + 3 + length calls)) (omega arith) (
            then (own_empty live e t)
              (from_shared m.pool.tasks calls m refl (omega arith) live live' asked))
        | inr (task, q', t) ↦
            sooner (suc (length calls + 2)) (omega arith)
              (then (own_task live e t) (run_out task calls _ asked))
      ]

-- The tasks of a worker that wait in a `runPendingTask` of their own.
abbrev pub waits : {A : Type 0} → Pc A → List A
waits (own_pop calls) = calls
waits (shared_pop calls) = calls
waits (counting calls) = calls
waits (stealing k n calls) = calls
waits (running task calls) = calls
waits _ = []

pub Role-Ends :
    {A : Type 0} (workers i : ℕ) (bag : List A) (m : Memory A) (p : Pc A)
    → i < workers
    → p ≢ outside
    → m.queues_live ≡ true
    → m.tasks_live ≡ true
    → m.stops i ≡ true
    → Global workers bag m
    → Role workers m.pool.threads i p
    → Ends workers i (workers + 4 + length (waits p)) m p
Role-Ends workers i bag m outside lt ne live live' asked g l = absurd (ne refl)
Role-Ends workers i bag m testing lt ne live live' asked g l =
    sooner workers i 1 (omega arith) (unwind workers i [] m asked)
Role-Ends workers i bag m (own_pop calls) lt ne live live' asked g l =
    sooner workers i (length m.pool.local_queues + 4 + length calls) (omega (arith, g.queues live))
      (from_own workers i calls m (omega (arith, g.queues live)) live live' asked)
Role-Ends workers i bag m (shared_pop calls) lt ne live live' asked g l =
    sooner workers i (length m.pool.local_queues + 3 + length calls) (omega (arith, g.queues live))
      (from_shared workers i m.pool.tasks calls m refl (omega (arith, g.queues live)) live live'
        asked)
Role-Ends workers i bag m (counting calls) lt ne live live' asked g l =
    sooner workers i (length m.pool.local_queues + 2 + length calls) (omega (arith, g.queues live))
      (from_counting workers i calls m (omega (arith, g.queues live)) live asked)
Role-Ends workers i bag m (stealing k n calls) lt ne live live' asked g l =
    sooner workers i (n + 2 + length calls) (omega (arith, l.1)) (
      from_stealing workers i n k n calls m (omega arith) (omega (arith, l.1, g.queues live)) live
        asked)
Role-Ends workers i bag m (running task calls) lt ne live live' asked g l =
    sooner workers i (length calls + 2) (omega arith) (run_out workers i task calls m asked)
Role-Ends workers i bag m ended lt ne live live' asked g l = (0, done, omega arith)
Role-Ends workers i bag m _ lt ne live live' asked g l = absurd (omega (arith, l.0))
