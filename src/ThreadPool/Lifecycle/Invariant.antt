-- ===== src/ThreadPool/Lifecycle/Invariant.antt =====
-- What holds in every reachable state of a pool.
use cs_learning_notes.Base.{ℕ, ◌-◌, ◌<◌, ◌≤◌, ◌≡◌, true, List, length}
use cs_learning_notes.ThreadPool.Tasks.{waiting}
use cs_learning_notes.ThreadPool.Lifecycle.{
  Memory, Pc, outside, testing, own_pop, shared_pop, counting, stealing, running, ended, spawning,
}

-- `bag` are the tasks that wait.
pub record Global {A : Type 0} (workers : ℕ) (bag : List A) (m : Memory A) : Type 0 where
  pub holds : bag ≡ waiting m.pool
  pub queues : m.queues_live ≡ true → length m.pool.local_queues ≡ workers
  pub room : m.pool.threads ≤ workers

-- What a thread knows, given how many workers there are by now: a worker that it is one of them, and
-- the maker of the pool how many they are.
abbrev pub Role : {A : Type 0} → ℕ → ℕ → ℕ → Pc A → Type 0
Role workers threads i outside = i ≡ workers → threads ≡ 0
Role workers threads i testing = i < threads
Role workers threads i (own_pop calls) = i < threads
Role workers threads i (shared_pop calls) = i < threads
Role workers threads i (counting calls) = i < threads
Role workers threads i (stealing k n calls) = (i < threads) × (n ≡ workers - 1)
Role workers threads i (running task calls) = i < threads
Role workers threads i ended = i < threads
Role workers threads i (spawning k) = (i ≡ workers) × (k ≡ threads)
Role workers threads i _ = (i ≡ workers) × (threads ≡ workers)

abbrev pub Local : {A : Type 0} → ℕ → List A → Memory A → ℕ → Pc A → Type 0
Local workers bag m i p = Role workers m.pool.threads i p

-- Of each other the threads need to know nothing.
abbrev pub Pair : {A : Type 0} → ℕ → Pc A → ℕ → Pc A → Type 0
Pair i p j q = Unit {0}
