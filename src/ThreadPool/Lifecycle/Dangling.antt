-- ===== src/ThreadPool/Lifecycle/Dangling.antt =====
-- `~ThreadPool` of cpp/concurrency/thread_pool/thread_pool.cpp: its body requests the workers to stop,
-- and waits for none; the members are destroyed in the reverse order of their declaration, so the queues
-- go before the threads are joined.
use cs_learning_notes.Base.{
  ℕ, zero, suc, ◌<◌, ◌≤◌, ◌≡◌, refl, sym, ◌∙◌, ◌≢◌, subst, Bool, true, false, Option, List, [],
  update, update_self, update_ne, replicate, arith,
}
use cs_learning_notes.Interleaving.{System, start, step, record_event}
use cs_learning_notes.ThreadPool.Lifecycle.{
  Memory, Event, Pc, Move, init, outside, own_pop, spawning, stopping, freeing_tasks, construct,
  spawn, constructed, enter, go_on, begin_destroy, request_stop, all_requested, free_queues,
  own_task, own_empty,
}
use cs_learning_notes.ThreadPool.Lifecycle.Outcome.{Reaches}

-- There is no step from a queue that does not live.
stuck :
    {A : Type 0} {workers i : ℕ} {m m' : Memory A} {calls : List A} {e : Option (Event A)}
    {p' : Pc A}
    → m.queues_live ≡ false
    → Move workers i m (own_pop calls) e m' p'
    → ⊥
stuck dead (own_task live h t) = cc
stuck dead (own_empty live h t) = cc

-- `stops` when the loop of the destructor has passed the workers below `k`.
requested : ℕ → ℕ → Bool
requested zero = λ _. false
requested (suc k) = update (requested k) k true

apart : (workers i : ℕ) → i < workers → workers ≢ i
apart workers i h e = absurd (omega arith)

module _ {A : Type 0} (workers i : ℕ) (below : i < workers) where
  -- A reachable state, in so far as the schedule needs it: the places of the maker and of worker `i`.
  abbrev At : List (Event A) → Memory A → Pc A → Pc A → Type 0
  At tr m p q =
      (s : System (Memory A) (Pc A)) × Reaches workers tr s
      × (s.mem ≡ m)
      × (s.pc workers ≡ p)
      × (s.pc i ≡ q)

  maker :
      {tr : List (Event A)} {m m' : Memory A} {p p' q : Pc A} {e : Option (Event A)}
      → At tr m p q
      → Move workers workers m p e m' p'
      → At (record_event e tr) m' p' q
  maker {m} {m'} {p'} {e} (s, r, hm, hp, hq) mv =
      let mv₁ =
        subst (λ n. Move workers workers n (s.pc workers) e m' p') (sym hm)
          (subst (λ p. Move workers workers m p e m' p') (sym hp) mv) in
      (
        record { mem = m'; pc = update s.pc workers p' },
        step r workers mv₁,
        refl,
        update_self s.pc workers p',
        update_ne s.pc workers p' i (apart workers i below) ∙ hq,
      )

  worker :
      {tr : List (Event A)} {m m' : Memory A} {p q q' : Pc A} {e : Option (Event A)}
      → At tr m p q
      → Move workers i m q e m' q'
      → At (record_event e tr) m' p q'
  worker {m} {m'} {q'} {e} (s, r, hm, hp, hq) mv =
      let mv₁ =
        subst (λ n. Move workers i n (s.pc i) e m' q') (sym hm)
          (subst (λ q. Move workers i m q e m' q') (sym hq) mv) in
      (
        record { mem = m'; pc = update s.pc i q' },
        step r i mv₁,
        refl,
        update_ne s.pc i q' workers (λ z. apart workers i below (sym z)) ∙ hp,
        update_self s.pc i q',
      )

  -- The pool while `threads` workers are made, and when `k` of them are requested to stop.
  abbrev made : ℕ → ℕ → Memory A
  made threads k = record {
    pool = record { threads = threads; tasks = []; local_queues = replicate workers [] };
    queues_live = true;
    tasks_live = true;
    stops = requested k;
    finished = λ _. false;
  }

  made_workers : (k : ℕ) → k ≤ workers → At [] (made k 0) (spawning k) outside
  unfolding requested
  made_workers zero h =
      maker (record { mem = init workers; pc = λ _. outside }, start, refl, refl, refl)
        (construct refl)
  made_workers (suc k) h = maker (made_workers k (omega arith)) (spawn h)

  requested_stops : (k : ℕ) → k ≤ workers → At [] (made workers k) (stopping k) (own_pop [])
  unfolding requested
  requested_stops zero h =
      let made_all = maker (made_workers workers (omega arith)) (constructed (omega arith)) in
      maker (worker (worker made_all (enter below)) (go_on refl)) begin_destroy
  requested_stops (suc k) h = maker (requested_stops k (omega arith)) (request_stop h)

-- For every number of workers and each of them there is a schedule after which the destructor has freed
-- the queues of the workers, and that worker, which nobody has joined, is about to pop from its own.
pub destructor_dangles :
    {A : Type 0} (workers i : ℕ)
    → i < workers
    → (tr : List (Event A)) × (s : System (Memory A) (Pc A)) × Reaches workers tr s
      × (s.pc workers ≡ freeing_tasks)
      × (s.mem.finished i ≡ false)
      × (s.pc i ≡ own_pop [])
      × ((e : Option (Event A)) (m : Memory A) (p : Pc A) → ¬ Move workers i s.mem (s.pc i) e m p)
destructor_dangles {A} workers i h =
    let (s, r, hm, hp, hq) =
      maker workers i h
        (maker workers i h (requested_stops {A = A} workers i h workers (omega arith))
          (all_requested (omega arith)))
        free_queues in
    (
      _,
      s,
      r,
      hp,
      rw hm refl,
      hq,
      λ e m p mv. stuck (rw hm refl) (subst (λ q. Move workers i s.mem q e m p) hq mv),
    )
