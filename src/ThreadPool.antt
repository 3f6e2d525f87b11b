-- ===== src/ThreadPool.antt =====
-- cpp/concurrency/thread_pool/thread_pool.cpp: `ThreadPool`, its queues, and how a thread finds its next
-- task. Each call on a queue holds the mutex of that queue throughout, so it is one step, and a queue
-- is the list of its tasks; `thread_safe_queue` is a queue in the order of arrival.
pub mod Deque
pub mod Lifecycle
pub mod Steal
pub mod Tasks
mod Tests
use cs_learning_notes.Base.{
  ℕ, zero, suc, ◌+◌, ◌-◌, ◌%◌, ◌^◌, ◌≡◌, Option, none, some, List, [], ◌∷◌, ◌++◌, length, get_elem?,
  set, replicate, ◌==◌, if◌then◌else◌,
}
use Deque.{push, try_pop, try_steal}

-- `threads.size()`, `tasks` and `localQueues`.
pub record Pool {ℓ} (A : Type ℓ) : Type ℓ where
  pub threads : ℕ
  pub tasks : List A
  pub local_queues : List (List A)

abbrev pub u32 : ℕ → ℕ
u32 n = n % 2 ^ 32

module _ {ℓ} {A : Type ℓ} where
  -- The constructor, when its loop is through.
  abbrev pub init : ℕ → Pool A
  init n = record { threads = n; tasks = []; local_queues = replicate n [] }

  -- One round of the loop of `tryStealTask`, on what stands in `localQueues` at `j`, before the rest of
  -- the loop; `none` is an access outside of `localQueues`.
  abbrev pub steal_round :
      Option (List A)
      → ℕ
      → List (List A)
      → Option (Option A × List (List A))
      → Option (Option A × List (List A))
  unfolding try_steal
  steal_round none j qs rest = none
  steal_round (some q) j qs rest =
      let (r, q') = try_steal q in
      elim r [ none ↦ rest | some task ↦ some (some task, set qs j q') ]

  -- The loop of `tryStealTask` with `rounds` rounds left, from `i` on: the task and the queues after it.
  unfoldable pub steal_loop : ℕ → ℕ → ℕ → ℕ → List (List A) → Option (Option A × List (List A))
  steal_loop zero index i n qs = some (none, qs)
  steal_loop (suc rounds) index i n qs =
      let rest = steal_loop rounds index (suc i) n qs in
      let j : ℕ = u32 (index + i + 1) % n in steal_round (get_elem? qs j) j qs rest

  -- `tryStealTask`; of `unsigned n = localQueues.size() - 1` no wrap is modelled, since a pool without
  -- threads has no queue to call it from.
  unfoldable pub try_steal_task : ℕ → List (List A) → Option (Option A × List (List A))
  unfolding steal_loop
  try_steal_task index qs = let n : ℕ = length qs - 1 in steal_loop n index 0 n qs

  -- `submit` of a worker, on what stands in `localQueues` at its index
  abbrev pub submit_own : Option (List A) → ℕ → A → Pool A → Option (Pool A)
  unfolding push
  submit_own none index task p = none
  submit_own (some q) index task p =
      some (record p { local_queues = set p.local_queues index (push task q) })

  -- `submit`: the thread `index` is the one that made the pool, or a worker. `none` is an access
  -- outside of `localQueues`.
  unfoldable pub submit : ℕ → A → Pool A → Option (Pool A)
  submit index task p =
      if index == p.threads
      then some (record p { tasks = p.tasks ++ task ∷ [] })
      else submit_own (get_elem? p.local_queues index) index task p

  -- `tasks.try_pop()` on the list of the tasks
  abbrev global_try_pop : List A → Option A × List A
  global_try_pop [] = (none, [])
  global_try_pop (task ∷ q) = (some task, q)

  -- The pool after a call of `tryStealTask`
  abbrev pub with_queues : Pool A → Option (Option A × List (List A)) → Option (Option A × Pool A)
  with_queues p none = none
  with_queues p (some (r, qs)) = some (r, record p { local_queues = qs })

  -- The third try of `runPendingTask`
  abbrev pub run_stolen : ℕ → Pool A → Option (Option A × Pool A)
  run_stolen index p = with_queues p (try_steal_task index p.local_queues)

  -- The second try of `runPendingTask`, and the third
  abbrev pub run_shared : ℕ → Pool A → Option (Option A × Pool A)
  run_shared index p =
      let (shared, ts) = global_try_pop p.tasks in
      elim shared [
        | none ↦ run_stolen index p
        | some task ↦ some (some task, record p { tasks = ts })
      ]

  -- The three tries, on what stands in `localQueues` at `index`
  abbrev pub run_own : Option (List A) → ℕ → Pool A → Option (Option A × Pool A)
  unfolding try_pop
  run_own none index p = none
  run_own (some q) index p =
      let (own, q') = try_pop q in
      elim own [
        | none ↦ run_shared index p
        | some task ↦ some (some task, record p { local_queues = set p.local_queues index q' })
      ]

  -- `runPendingTask` by the thread `index`: the task it runs, and the pool when it runs it. `none` is an
  -- access outside of `localQueues`.
  unfoldable pub run_pending : ℕ → Pool A → Option (Option A × Pool A)
  run_pending index p = run_own (get_elem? p.local_queues index) index p
