-- ===== src/ThreadPool/Lifecycle.antt =====
-- cpp/concurrency/thread_pool/thread_pool.cpp: the life of a `ThreadPool`, from its constructor to the
-- end of its destructor, with the loops of its workers, one call on a queue at a time. The workers are
-- the threads below `workers`, and the thread `workers` is the one that made the pool, so each thread
-- is the `index` that it has.
pub mod Bags
pub mod Invariant
pub mod Steps
pub mod Outcome
pub mod Dangling
pub mod Stopping
pub mod Lowering
pub mod Bound
mod Tests
use cs_learning_notes.Base.{
  ℕ, suc, ◌+◌, ◌-◌, ◌%◌, ◌<◌, ◌≤◌, ◌≡◌, Bool, true, false, Option, none, some, List, [], ◌∷◌, ◌++◌,
  length, get_elem?, set, replicate, update,
}
use mathlib.Core.List.{flatten}
use cs_learning_notes.ThreadPool.{Pool, u32, submit}
use cs_learning_notes.ThreadPool.Deque.{try_pop, try_steal}

-- The pool and which of its members live, the `stop_requested` of the workers, and which have ended.
pub record Memory (A : Type 0) : Type 0 where
  pub pool : Pool A
  pub queues_live : Bool
  pub tasks_live : Bool
  pub stops : ℕ → Bool
  pub finished : ℕ → Bool

-- The members are constructed before the body of the constructor; there is no thread yet.
abbrev pub init : {A : Type 0} → ℕ → Memory A
init workers = record {
  pool = record { threads = 0; tasks = []; local_queues = replicate workers [] };
  queues_live = true;
  tasks_live = true;
  stops = λ _. false;
  finished = λ _. false;
}

-- A task enters the pool, a thread begins to run it, or it is destroyed with its queue.
pub data Event (A : Type 0) : Type 0 where
  submitted : A → Event A
  started : A → Event A
  dropped : List A → Event A

-- Where a thread stands. A worker is in `worker`, in `runPendingTask`, or in a task; `calls` are the
-- tasks that it runs and that wait in a `runPendingTask` of their own, the innermost first.
pub data Pc (A : Type 0) : Type 0 where
  outside : Pc A
  testing : Pc A
  own_pop : (calls : List A) → Pc A
  shared_pop : (calls : List A) → Pc A
  counting : (calls : List A) → Pc A
  stealing : (k n : ℕ) (calls : List A) → Pc A
  running : (task : A) (calls : List A) → Pc A
  ended : Pc A
  spawning : (k : ℕ) → Pc A
  using_pool : Pc A
  stopping : (k : ℕ) → Pc A
  freeing_queues : Pc A
  freeing_tasks : Pc A
  joining : (k : ℕ) → Pc A
  gone : Pc A

-- Where `runPendingTask` returns to: the loop of the worker, or the task that called it.
abbrev pub back : {A : Type 0} → List A → Pc A
back [] = testing
back (task ∷ calls) = running task calls

-- One step of thread `i`. What a task does in between is its own; it may submit another task and call
-- `runPendingTask`. To use a member that does not live is no step.
pub data Move {A : Type 0} (workers i : ℕ) (m : Memory A)
    : Pc A → Option (Event A) → Memory A → Pc A → Type 0 where
  construct : i ≡ workers → Move workers i m outside none m (spawning 0)
  spawn :
      {k : ℕ}
      → k < workers
      → Move workers i m
          (spawning k)
          none
          (record m { pool = record (m.pool) { threads = suc m.pool.threads } })
          (spawning (suc k))
  constructed : {k : ℕ} → workers ≤ k → Move workers i m (spawning k) none m using_pool
  submit_shared :
      {p : Pool A} (task : A)
      → m.tasks_live ≡ true
      → submit i task m.pool ≡ some p
      → Move workers i m using_pool (some (submitted task)) (record m { pool = p }) using_pool
  enter : i < m.pool.threads → Move workers i m outside none m testing
  stop_seen :
      m.stops i ≡ true
      → Move workers i m testing none (record m { finished = update m.finished i true }) ended
  go_on : m.stops i ≡ false → Move workers i m testing none m (own_pop [])
  own_task :
      {calls q q' : List A} {task : A}
      → m.queues_live ≡ true
      → get_elem? m.pool.local_queues i ≡ some q
      → try_pop q ≡ (some task, q')
      → Move workers i m
          (own_pop calls)
          (some (started task))
          (record m { pool = record (m.pool) { local_queues = set m.pool.local_queues i q' } })
          (running task calls)
  own_empty :
      {calls q q' : List A}
      → m.queues_live ≡ true
      → get_elem? m.pool.local_queues i ≡ some q
      → try_pop q ≡ (none, q')
      → Move workers i m (own_pop calls) none m (shared_pop calls)
  shared_task :
      {calls ts : List A} {task : A}
      → m.tasks_live ≡ true
      → m.pool.tasks ≡ task ∷ ts
      → Move workers i m
          (shared_pop calls)
          (some (started task))
          (record m { pool = record (m.pool) { tasks = ts } })
          (running task calls)
  shared_empty :
      {calls : List A}
      → m.tasks_live ≡ true
      → m.pool.tasks ≡ []
      → Move workers i m (shared_pop calls) none m (counting calls)
  count_queues :
      {calls : List A}
      → m.queues_live ≡ true
      → Move workers i m (counting calls) none m (stealing 0 (length m.pool.local_queues - 1) calls)
  steal_task :
      {k n : ℕ} {calls q q' : List A} {task : A}
      → k < n
      → m.queues_live ≡ true
      → get_elem? m.pool.local_queues (u32 (i + k + 1) % n) ≡ some q
      → try_steal q ≡ (some task, q')
      → Move workers i m
          (stealing k n calls)
          (some (started task))
          (record m {
            pool = record (m.pool) {
              local_queues = set m.pool.local_queues (u32 (i + k + 1) % n) q';
            };
          })
          (running task calls)
  steal_next :
      {k n : ℕ} {calls q q' : List A}
      → k < n
      → m.queues_live ≡ true
      → get_elem? m.pool.local_queues (u32 (i + k + 1) % n) ≡ some q
      → try_steal q ≡ (none, q')
      → Move workers i m (stealing k n calls) none m (stealing (suc k) n calls)
  yield :
      {k n : ℕ} {calls : List A} → n ≤ k → Move workers i m (stealing k n calls) none m (back calls)
  submit_own :
      {running_task : A} {calls : List A} {p : Pool A} (task : A)
      → m.queues_live ≡ true
      → submit i task m.pool ≡ some p
      → Move workers i m
          (running running_task calls)
          (some (submitted task))
          (record m { pool = p })
          (running running_task calls)
  run_another :
      {task : A} {calls : List A}
      → Move workers i m (running task calls) none m (own_pop (task ∷ calls))
  task_done :
      {task : A} {calls : List A} → Move workers i m (running task calls) none m (back calls)
  begin_destroy : Move workers i m using_pool none m (stopping 0)
  request_stop :
      {k : ℕ}
      → k < m.pool.threads
      → Move workers i m
          (stopping k)
          none
          (record m { stops = update m.stops k true })
          (stopping (suc k))
  all_requested : {k : ℕ} → m.pool.threads ≤ k → Move workers i m (stopping k) none m freeing_queues
  free_queues :
      Move workers i m freeing_queues
        (some (dropped (flatten m.pool.local_queues)))
        (record m { pool = record (m.pool) { local_queues = [] }; queues_live = false })
        freeing_tasks
  free_tasks :
      Move workers i m freeing_tasks
        (some (dropped m.pool.tasks))
        (record m { pool = record (m.pool) { tasks = [] }; tasks_live = false })
        (joining 0)
  join :
      {k : ℕ}
      → k < m.pool.threads
      → m.finished k ≡ true
      → Move workers i m (joining k) none m (joining (suc k))
  all_joined : {k : ℕ} → m.pool.threads ≤ k → Move workers i m (joining k) none m gone
