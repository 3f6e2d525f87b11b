-- ===== src/ThreadPool/Tests.antt =====
-- The pool of threads run on concrete queues.
use cs_learning_notes.Base.{ℕ, ◌≡◌, refl, none, some, [], ◌∷◌}
use cs_learning_notes.ThreadPool.{Pool, init, try_steal_task, submit, run_pending}
use cs_learning_notes.ThreadPool.Deque.{try_pop, try_steal}
use cs_learning_notes.ThreadPool.Steal.{Spares, last_never_stolen}

-- Two workers, a task in the queue of the second.
abbrev two_workers : Pool ℕ
two_workers = record { threads = 2; tasks = []; local_queues = [] ∷ (7 ∷ []) ∷ [] }

submit_made :
    submit {A = ℕ} 2 5 (init 2)
    ≡ some (record { threads = 2; tasks = 5 ∷ []; local_queues = [] ∷ [] ∷ [] })
unfolding submit
submit_made = refl

steals_nothing : run_pending 0 two_workers ≡ some (none, two_workers)
unfolding run_pending try_steal_task try_steal try_pop
steals_nothing = refl

last_never_stolen_example :
    Spares {A = ℕ} (try_steal_task 0 ([] ∷ (7 ∷ []) ∷ [])) ([] ∷ []) (7 ∷ [])
last_never_stolen_example = last_never_stolen 0 ([] ∷ []) (7 ∷ [])
