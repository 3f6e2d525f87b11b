-- ===== src/ThreadPool/Lifecycle/Steps.antt =====
-- Every step of a thread of the pool keeps what holds between the steps.
use cs_learning_notes.Base.{
  Bool, ℕ, suc, ◌-◌, ◌<◌, ◌≤◌, ◌≡◌, ◌≢◌, refl, sym, ◌∙◌, ap, subst, Option, none, some, List, [],
  ◌∷◌, ◌++◌, length, length-set, get_elem?, set, arith,
}
use mathlib.Core.List.{Perm, flatten, perm_middle, perm_append_comm, append-nil}
use mathlib.Core.List.Perm
use cs_learning_notes.Interleaving.{Kept, Others}
use cs_learning_notes.ThreadPool.{Pool, submit}
use cs_learning_notes.ThreadPool.Deque.{try_pop, try_steal, back as last, pop_back}
use cs_learning_notes.ThreadPool.Tasks.{
  waiting, flatten-take, last_first, submit_maker-Adds, submit_worker-Adds, Adds,
}
use cs_learning_notes.ThreadPool.Lifecycle.{
  Memory, Event, submitted, started, dropped, Pc, Move, back, outside, spawning, running, construct,
  spawn, constructed, submit_shared, enter, stop_seen, go_on, own_task, own_empty, shared_task,
  shared_empty, count_queues, steal_task, steal_next, yield, submit_own, run_another, task_done,
  begin_destroy, request_stop, all_requested, free_queues, free_tasks, join, all_joined,
}
use cs_learning_notes.ThreadPool.Lifecycle.Bags.{Bag}
use cs_learning_notes.ThreadPool.Lifecycle.Invariant.{Global, Role, Local, Pair}

module _ {A : Type 0} where
  try_pop-perm :
      (q : List A) {q' : List A} {task : A} → try_pop q ≡ (some task, q') → Perm q (task ∷ q')
  unfolding try_pop
  try_pop-perm [] e = absurd (ground arith)
  try_pop-perm (t ∷ q) {q'} {task} e =
      let same : t ∷ q ≡ task ∷ q' = ground arith in subst (λ l. Perm (t ∷ q) l) same (Perm.refl _)

  try_steal-perm :
      (q : List A) {q' : List A} {task : A} → try_steal q ≡ (some task, q') → Perm q (task ∷ q')
  unfolding try_steal
  try_steal-perm [] e = absurd (ground arith)
  try_steal-perm (t ∷ q) {q'} {task} e =
      let same : last t q ∷ pop_back t q ≡ task ∷ q' = ground arith in
      subst (λ l. Perm (t ∷ q) l) same (last_first t q)

  -- A task is taken from one of the queues.
  waiting-take :
      (p : Pool A) (j : ℕ) {q q' : List A} {task : A}
      → get_elem? p.local_queues j ≡ some q
      → Perm q (task ∷ q')
      → Perm (waiting p) (task ∷ waiting (record p { local_queues = set p.local_queues j q' }))
  waiting-take p j e h =
      Perm.trans (Perm.append_left p.tasks (flatten-take p.local_queues j e h))
        (perm_middle p.tasks _)

  -- The queues of the workers are destroyed.
  waiting-free :
      (p : Pool A)
      → Perm (waiting p) (flatten p.local_queues ++ waiting (record p { local_queues = [] }))
  unfolding flatten
  waiting-free p =
      subst (λ ts. Perm (waiting p) (flatten p.local_queues ++ ts)) (sym (append-nil p.tasks))
        (perm_append_comm p.tasks (flatten p.local_queues))

  module _ (workers : ℕ) where
    Role-back : (threads i : ℕ) (calls : List A) → i < threads → Role workers threads i (back calls)
    Role-back threads i [] h = h
    Role-back threads i (task ∷ calls) h = h

    -- Another thread needs no more than that the workers stay as many.
    Role-Others :
        (x x' : List A) (m m' : Memory A) (i : ℕ) (p p' : Pc A)
        → m.pool.threads ≡ m'.pool.threads
        → Others (Local workers) Pair x m i p x' m' p'
    Role-Others x x' m m' i p p' same j q ne l w w' =
        (subst (λ n. Role workers n j q) same l, tt, tt)

    -- One more worker is made.
    Role-suc :
        (threads j : ℕ) (q : Pc A)
        → j ≢ workers
        → Role workers threads j q
        → Role workers (suc threads) j q
    Role-suc threads j outside ne l = λ e. absurd (ne e)
    Role-suc threads j (spawning k) ne l = absurd (ne l.0)
    Role-suc threads j _ ne l = ground arith

    abbrev KeptBy : List A → Memory A → ℕ → Pc A → Option (Event A) → Memory A → Pc A → Type 0
    KeptBy = Kept (λ bag. bag) Bag (Global workers) (Local workers) Pair

    -- A step that leaves the pool alone.
    quiet :
        (x : List A) (m : Memory A) (stops finished : ℕ → Bool) (i : ℕ) (p p' : Pc A)
        → Global workers x m
        → Role workers m.pool.threads i p'
        → KeptBy x m i p none (record m { stops = stops; finished = finished }) p'
    quiet x m stops finished i p p' g r = record {
      x' = x;
      follows = refl;
      global = record { holds = g.holds; queues = g.queues; room = g.room };
      local = r;
      others = Role-Others x x m (record m { stops = stops; finished = finished }) i p p' refl;
    }

    stay :
        (x : List A) (m : Memory A) (i : ℕ) (p p' : Pc A)
        → Global workers x m
        → Role workers m.pool.threads i p'
        → KeptBy x m i p none m p'
    stay x m i p p' g r = quiet x m m.stops m.finished i p p' g r

    -- A step that changes what waits in the queues.
    change :
        (x : List A) (m : Memory A) (pool : Pool A) (i : ℕ) (p p' : Pc A) (e : Event A)
        → Global workers x m
        → Bag (waiting m.pool) e (waiting pool)
        → length pool.local_queues ≡ length m.pool.local_queues
        → m.pool.threads ≡ pool.threads
        → Role workers m.pool.threads i p'
        → KeptBy x m i p (some e) (record m { pool = pool }) p'
    change x m pool i p p' e g b size same r = record {
      x' = waiting pool;
      follows = subst (λ l. Bag l e (waiting pool)) (sym g.holds) b;
      global = record {
        holds = refl;
        queues = λ live. size ∙ g.queues live;
        room = subst (λ n. n ≤ workers) same g.room;
      };
      local = subst (λ n. Role workers n i p') same r;
      others = Role-Others x (waiting pool) m (record m { pool = pool }) i p p' same;
    }

    submit-kept :
        (x : List A) (m : Memory A) (pool : Pool A) (i : ℕ) (p : Pc A) (task : A)
        → Global workers x m
        → Adds task (submit i task m.pool) m.pool
        → submit i task m.pool ≡ some pool
        → Role workers m.pool.threads i p
        → KeptBy x m i p (some (submitted task)) (record m { pool = pool }) p
    submit-kept x m pool i p task g (pool', e', b, size, same) e r =
        let same_pool : pool' ≡ pool = ground arith in
        change x m pool i p p (submitted task) g
          (subst (λ u. Perm (task ∷ waiting m.pool) (waiting u)) same_pool b)
          (subst (λ u. length u.local_queues ≡ length m.pool.local_queues) same_pool size)
          (subst (λ u. m.pool.threads ≡ u.threads) same_pool (sym same)) r

    -- A thread starts a task from the queue `j`.
    take-kept :
        (x : List A) (m : Memory A) (i j : ℕ) (p : Pc A) (calls q q' : List A) (task : A)
        → Global workers x m
        → get_elem? m.pool.local_queues j ≡ some q
        → Perm q (task ∷ q')
        → i < m.pool.threads
        → KeptBy x m i p
            (some (started task))
            (record m { pool = record (m.pool) { local_queues = set m.pool.local_queues j q' } })
            (running task calls)
    take-kept x m i j p calls q q' task g e h r =
        change x m (record (m.pool) { local_queues = set m.pool.local_queues j q' }) i p
          (running task calls) (started task) g (waiting-take m.pool j e h)
          (length-set m.pool.local_queues j q') refl r

    pub keep :
        (x : List A) (m : Memory A) (i : ℕ) (p : Pc A) (e : Option (Event A)) (m' : Memory A)
        (p' : Pc A)
        → Move workers i m p e m' p'
        → Global workers x m
        → Local workers x m i p
        → KeptBy x m i p e m' p'
    keep x m i p e m' p' (construct h) g l = stay x m i _ _ g (h, sym (l h))
    keep x m i p e m' p' (spawn {k} h) g l = record {
      x' = x;
      follows = refl;
      global = record {
        holds = g.holds;
        queues = g.queues;
        room = subst (λ n. suc n ≤ workers) l.1 h;
      };
      local = (l.0, ap suc l.1);
      others = λ j q ne r w w'. (Role-suc m.pool.threads j q (λ z. ne (l.0 ∙ sym z)) r, tt, tt);
    }
    keep x m i p e m' p' (constructed h) g l = stay x m i _ _ g (l.0, omega (arith, l.1, g.room))
    keep x m i p e m' p' (submit_shared {p = pool} task live h) g l =
        submit-kept x m pool i _ task g (submit_maker-Adds i task m.pool (l.0 ∙ sym l.1)) h l
    keep x m i p e m' p' (enter h) g l = stay x m i _ _ g h
    keep x m i p e m' p' (stop_seen h) g l = quiet x m m.stops _ i _ _ g l
    keep x m i p e m' p' (go_on h) g l = stay x m i _ _ g l
    keep x m i p e m' p' (own_task {calls} {q} {q'} {task} live h t) g l =
        take-kept x m i i _ calls q q' task g h (try_pop-perm q t) l
    keep x m i p e m' p' (own_empty live h t) g l = stay x m i _ _ g l
    keep x m i p e m' p' (shared_task {calls} {ts} {task} live h) g l =
        change x m (record (m.pool) { tasks = ts }) i _ (running task calls) (started task) g
          (subst
            (λ l.
              Perm (l ++ flatten m.pool.local_queues) (task ∷ ts ++ flatten m.pool.local_queues))
            (sym h) (Perm.refl _))
          refl refl l
    keep x m i p e m' p' (shared_empty live h) g l = stay x m i _ _ g l
    keep x m i p e m' p' (count_queues live) g l =
        stay x m i _ _ g (l, ap (λ n. n - 1) (g.queues live))
    keep x m i p e m' p' (steal_task {k} {n} {calls} {q} {q'} {task} lt live h t) g l =
        take-kept x m i _ _ calls q q' task g h (try_steal-perm q t) l.0
    keep x m i p e m' p' (steal_next lt live h t) g l = stay x m i _ _ g l
    keep x m i p e m' p' (yield {calls} h) g l =
        stay x m i _ _ g (Role-back m.pool.threads i calls l.0)
    keep x m i p e m' p' (submit_own {p = pool} task live h) g l =
        submit-kept x m pool i _ task g
          (submit_worker-Adds i task m.pool l (omega (arith, g.queues live, g.room, l))) h l
    keep x m i p e m' p' run_another g l = stay x m i _ _ g l
    keep x m i p e m' p' (task_done {calls}) g l =
        stay x m i _ _ g (Role-back m.pool.threads i calls l)
    keep x m i p e m' p' begin_destroy g l = stay x m i _ _ g l
    keep x m i p e m' p' (request_stop h) g l = quiet x m _ m.finished i _ _ g l
    keep x m i p e m' p' (all_requested h) g l = stay x m i _ _ g l
    keep x m i p e m' p' free_queues g l = record {
      x' = waiting (record (m.pool) { local_queues = [] });
      follows =
          subst
            (λ b.
              Bag b (dropped (flatten m.pool.local_queues))
                (waiting (record (m.pool) { local_queues = [] })))
            (sym g.holds) (waiting-free m.pool);
      global = record { holds = refl; queues = λ z. cc; room = g.room };
      local = l;
      others = λ j q ne r w w'. (r, tt, tt);
    }
    keep x m i p e m' p' free_tasks g l = record {
      x' = flatten m.pool.local_queues;
      follows =
          subst (λ b. Bag b (dropped m.pool.tasks) (flatten m.pool.local_queues)) (sym g.holds)
            (Perm.refl _);
      global = record { holds = refl; queues = g.queues; room = g.room };
      local = l;
      others = λ j q ne r w w'. (r, tt, tt);
    }
    keep x m i p e m' p' (join lt h) g l = stay x m i _ _ g l
    keep x m i p e m' p' (all_joined h) g l = stay x m i _ _ g l
