-- ===== src/ThreadPool/Tasks.antt =====
-- What becomes of the tasks of the pool.
use cs_learning_notes.Base.{
  false, ℕ, zero, suc, ◌+◌, ◌-◌, ◌%◌, ◌<◌, ◌≤◌, ◌≡◌, refl, sym, ap, subst, Option, none, some, List,
  [], ◌∷◌, ◌++◌, length, length-set, get_elem?, set, get_elem?-lt, ◌==◌, if◌then◌else◌, ℕ_discrete,
  true, arith,
}
use mathlib.Core.List.{flatten, Perm, perm_middle, perm_append_singleton}
use mathlib.Core.List.Perm
use cs_learning_notes.ThreadPool.{
  Pool, u32, steal_round, submit_own, run_stolen, with_queues, run_shared, run_own, steal_loop,
  try_steal_task, submit, run_pending,
}
use cs_learning_notes.ThreadPool.Deque.{push, try_pop, try_steal, back, pop_back, back-append}

module _ {ℓ} {A : Type ℓ} where
  -- The tasks that wait in the pool.
  abbrev pub waiting : Pool A → List A
  waiting p = p.tasks ++ flatten p.local_queues

  -- The tasks before, what was taken, and the tasks after.
  abbrev pub Taken : List A → Option A → List A → Type ℓ
  Taken before none after = Perm before after
  Taken before (some task) after = Perm before (task ∷ after)

  pub flatten-take :
      (qs : List (List A)) (j : ℕ) {q q' : List A} {task : A}
      → get_elem? qs j ≡ some q
      → Perm q (task ∷ q')
      → Perm (flatten qs) (task ∷ flatten (set qs j q'))
  unfolding flatten
  flatten-take [] j e h = absurd (ground arith)
  flatten-take (q₀ ∷ qs) zero {q} {q'} {task} e h =
      let same : q ≡ q₀ = ground arith in
      Perm.append_right (flatten qs) (subst (λ l. Perm l (task ∷ q')) same h)
  flatten-take (q₀ ∷ qs) (suc j) e h =
      Perm.trans (Perm.append_left q₀ (flatten-take qs j e h)) (perm_middle q₀ _)

  flatten-put :
      (qs : List (List A)) (j : ℕ) {q : List A} {task : A}
      → get_elem? qs j ≡ some q
      → Perm (task ∷ flatten qs) (flatten (set qs j (task ∷ q)))
  unfolding flatten
  flatten-put [] j e = absurd (ground arith)
  flatten-put (q₀ ∷ qs) zero {q} {task} e =
      let same : q ≡ q₀ = ground arith in
      Perm.cons task (subst (λ l. Perm (l ++ flatten qs) (q ++ flatten qs)) same (Perm.refl _))
  flatten-put (q₀ ∷ qs) (suc j) e =
      Perm.trans (Perm.symm (perm_middle q₀ _)) (Perm.append_left q₀ (flatten-put qs j e))

  pub last_first : (task : A) (q : List A) → Perm (task ∷ q) (back task q ∷ pop_back task q)
  last_first task q =
      subst (λ l. Perm l (back task q ∷ pop_back task q)) (sym (back-append task q))
        (perm_append_singleton (back task q) (pop_back task q))

  -- What a call of one of the operations on the queues gives.
  abbrev Gives : Option (Option A × List (List A)) → List (List A) → Type ℓ
  Gives result qs =
      (r : Option A) × (qs' : List (List A)) × (result ≡ some (r, qs'))
      × Taken (flatten qs) r (flatten qs')
      × (length qs' ≡ length qs)

  steal_round-Gives :
      (q : List A) (j : ℕ) (qs : List (List A)) {rest : Option (Option A × List (List A))}
      → get_elem? qs j ≡ some q
      → Gives rest qs
      → Gives (steal_round (some q) j qs rest) qs
  unfolding try_steal
  steal_round-Gives [] j qs e h = h
  steal_round-Gives (task ∷ q) j qs e h = (
    some (back task q),
    set qs j (pop_back task q),
    refl,
    flatten-take qs j e (last_first task q),
    length-set qs j _,
  )

  steal_loop-Gives :
      (rounds index i n : ℕ) (qs : List (List A))
      → rounds ≤ n
      → n < length qs
      → Gives (steal_loop rounds index i n qs) qs
  unfolding steal_loop
  steal_loop-Gives zero index i n qs hr h = (none, qs, refl, Perm.refl _, refl)
  steal_loop-Gives (suc rounds) index i n qs hr h =
      let ih = steal_loop-Gives rounds index (suc i) n qs (omega arith) h in
      let j : ℕ = u32 (index + i + 1) % n in
      let rest = steal_loop rounds index (suc i) n qs in
      let (q, e) = get_elem?-lt qs j (omega arith) in
      subst (λ o. Gives (steal_round o j qs rest) qs) (sym e) (steal_round-Gives q j qs e ih)

  -- What a call of `runPendingTask` gives.
  abbrev pub Conserves : Option (Option A × Pool A) → Pool A → Type ℓ
  Conserves result p =
      (r : Option A) × (p' : Pool A) × (result ≡ some (r, p'))
      × Taken (waiting p) r (waiting p')
      × (length p'.local_queues ≡ length p.local_queues)

  -- Taking from the back part of a list is taking from the list.
  Taken-append_left :
      (ts before after : List A) (r : Option A)
      → Taken before r after
      → Taken (ts ++ before) r (ts ++ after)
  Taken-append_left ts before after none h = Perm.append_left ts h
  Taken-append_left ts before after (some task) h =
      Perm.trans (Perm.append_left ts h) (perm_middle ts _)

  run_stolen-Conserves :
      (index : ℕ) (p : Pool A) → 0 < length p.local_queues → Conserves (run_stolen index p) p
  unfolding try_steal_task
  run_stolen-Conserves index p h =
      let n : ℕ = length p.local_queues - 1 in
      let (r, qs', e, taken, same) =
        steal_loop-Gives n index 0 n p.local_queues (omega arith) (omega arith) in
      (
        r,
        record p { local_queues = qs' },
        ap (with_queues p) e,
        Taken-append_left p.tasks _ _ r taken,
        same,
      )

  run_shared-Conserves :
      (index n : ℕ) (ts : List A) (qs : List (List A))
      → 0 < length qs
      → let p : Pool A = record { threads = n; tasks = ts; local_queues = qs } in
        Conserves (run_shared index p) p
  run_shared-Conserves index n [] qs h =
      run_stolen-Conserves index (record { threads = n; tasks = []; local_queues = qs }) h
  run_shared-Conserves index n (task ∷ ts) qs h =
      (some task, record { threads = n; tasks = ts; local_queues = qs }, refl, Perm.refl _, refl)

  run_own-Conserves :
      (q : List A) (index : ℕ) (p : Pool A)
      → get_elem? p.local_queues index ≡ some q
      → 0 < length p.local_queues
      → Conserves (run_own (some q) index p) p
  unfolding try_pop
  run_own-Conserves [] index p e h = run_shared-Conserves index p.threads p.tasks p.local_queues h
  run_own-Conserves (task ∷ q) index p e h =
      let qs = p.local_queues in
      (
        some task,
        record p { local_queues = set qs index q },
        refl,
        Taken-append_left p.tasks _ _ (some task) (flatten-take qs index e (Perm.refl _)),
        length-set qs index q,
      )

  -- A thread with a queue of its own finds a task or none, never outside of the queues, and the tasks
  -- that waited are the task it runs and those that wait then.
  pub run_pending-Conserves :
      (index : ℕ) (p : Pool A) → index < length p.local_queues → Conserves (run_pending index p) p
  unfolding run_pending
  run_pending-Conserves index p h =
      let (q, e) = get_elem?-lt p.local_queues index h in
      subst (λ o. Conserves (run_own o index p) p) (sym e)
        (run_own-Conserves q index p e (omega arith))

  -- The task is added to those that wait, and no queue is.
  abbrev pub Adds : A → Option (Pool A) → Pool A → Type ℓ
  Adds task result p =
      (p' : Pool A) × (result ≡ some p')
      × Perm (task ∷ waiting p) (waiting p')
      × (length p'.local_queues ≡ length p.local_queues)
      × (p'.threads ≡ p.threads)

  submit_own-Adds :
      (q : List A) (index : ℕ) (task : A) (p : Pool A)
      → get_elem? p.local_queues index ≡ some q
      → Adds task (submit_own (some q) index task p) p
  unfolding push
  submit_own-Adds q index task p e =
      let qs = p.local_queues in
      (
        record p { local_queues = set qs index (task ∷ q) },
        refl,
        Perm.trans (Perm.symm (perm_middle p.tasks _))
            (Perm.append_left p.tasks (flatten-put qs index e)),
        length-set qs index _,
        refl,
      )

  submit_shared-Adds :
      (task : A) (p : Pool A) → Adds task (some (record p { tasks = p.tasks ++ task ∷ [] })) p
  submit_shared-Adds task p = (
    record p { tasks = p.tasks ++ task ∷ [] },
    refl,
    Perm.append_right (flatten p.local_queues) (Perm.symm (perm_append_singleton task p.tasks)),
    refl,
    refl,
  )

  -- The maker of the pool puts the task in the queue that all share.
  pub submit_maker-Adds :
      (index : ℕ) (task : A) (p : Pool A) → index ≡ p.threads → Adds task (submit index task p) p
  unfolding submit
  submit_maker-Adds index task p h =
      let shared = some (record p { tasks = p.tasks ++ task ∷ [] }) in
      let own = submit_own (get_elem? p.local_queues index) index task p in
      let maker : (index == p.threads) ≡ true = ground arith in
      subst (λ b. Adds task (if b then shared else own) p) (sym maker) (submit_shared-Adds task p)

  -- A worker puts the task in its own queue.
  pub submit_worker-Adds :
      (index : ℕ) (task : A) (p : Pool A)
      → index < p.threads
      → index < length p.local_queues
      → Adds task (submit index task p) p
  unfolding submit
  submit_worker-Adds index task p h below =
      let shared = some (record p { tasks = p.tasks ++ task ∷ [] }) in
      let own = submit_own (get_elem? p.local_queues index) index task p in
      let other : (index == p.threads) ≡ false = ground arith in
      let (q, e) = get_elem?-lt p.local_queues index below in
      subst (λ b. Adds task (if b then shared else own) p) (sym other)
        (subst (λ o. Adds task (submit_own o index task p) p) (sym e)
          (submit_own-Adds q index task p e))

  -- A submitted task waits in the pool beside those that waited, whether the thread is the one that made
  -- the pool or a worker.
  pub submit-Adds :
      (index : ℕ) (task : A) (p : Pool A)
      → length p.local_queues ≡ p.threads
      → index ≤ p.threads
      → Adds task (submit index task p) p
  submit-Adds index task p same h = elim (ℕ_discrete index p.threads) [
    | yes maker ↦ submit_maker-Adds index task p maker
    | no ne ↦ submit_worker-Adds index task p (omega arith) (omega arith)
  ]
