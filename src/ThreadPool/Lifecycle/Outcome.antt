-- ===== src/ThreadPool/Lifecycle/Outcome.antt =====
-- The pool as its users see it: `ThreadPool` of cpp/concurrency/thread_pool/thread_pool.cpp under every
-- interleaving of its workers and the thread that makes and destroys it.
use cs_learning_notes.Base.{
  ℕ, zero, suc, ap, ◌+◌, ◌%◌, ◌<◌, ◌≡◌, ◌≢◌, refl, sym, subst, some, List, [], ◌++◌, length,
  get_elem?, replicate, arith,
}
use mathlib.Core.List.{Perm, flatten}
use cs_learning_notes.Interleaving.{Reach, System, Sound, Reach-Sound, Replays}
use cs_learning_notes.ThreadPool.{u32}
use cs_learning_notes.ThreadPool.Tasks.{waiting}
use cs_learning_notes.ThreadPool.Lifecycle.{
  Memory, Event, Pc, Move, init, outside, own_pop, stealing, running,
}
use cs_learning_notes.ThreadPool.Lifecycle.Bags.{
  Bag, Bag-conserves, all_submitted, all_started, all_dropped,
}
use cs_learning_notes.ThreadPool.Lifecycle.Invariant.{Global, Local, Pair}
use cs_learning_notes.ThreadPool.Lifecycle.Steps.{keep}

abbrev pub Reaches : {A : Type 0} → ℕ → List (Event A) → System (Memory A) (Pc A) → Type 0
Reaches workers = Reach (Move workers) (init workers) outside

flatten-replicate : {A : Type 0} (n : ℕ) → flatten {A = A} (replicate n []) ≡ []
unfolding flatten
flatten-replicate zero = refl
flatten-replicate (suc n) = flatten-replicate n

length-replicate : {A : Type 0} (n : ℕ) (a : A) → length (replicate n a) ≡ n
length-replicate zero a = refl
length-replicate (suc n) a = ap suc (length-replicate n a)

module _ {A : Type 0} {workers : ℕ} {tr : List (Event A)} {s : System (Memory A) (Pc A)} where
  pub sound :
      Reaches workers tr s → Sound (λ bag. bag) Bag (Global workers) (Local workers) Pair [] tr s
  sound r =
      Reach-Sound (λ bag. bag) Bag (Global workers) (Local workers) Pair (Move workers)
        (init workers) outside []
        (record {
          holds = sym (flatten-replicate workers);
          queues = λ live. length-replicate workers [];
          room = omega arith;
        })
        (λ i e. refl) (λ i j. tt) (keep workers) r

  -- After any interleaving of the workers and the maker of the pool the tasks in its queues are what an
  -- abstract bag holds after the same events, one at a time, and every task that was submitted has been
  -- started by one thread, or was destroyed with its queue, or waits in one.
  pub pool_conserves :
      Reaches workers tr s
      → Replays Bag [] tr (waiting s.mem.pool)
        × Perm (all_submitted tr) (all_started tr ++ all_dropped tr ++ waiting s.mem.pool)
  pool_conserves r =
      let h = sound r in
      let replays = subst (λ bag. Replays Bag [] tr bag) h.global.holds h.replays in
      (replays, Bag-conserves tr (waiting s.mem.pool) replays)

-- What a worker needs at its next access to the queues: a queue at the index that it uses.
abbrev pub Defined : {A : Type 0} → ℕ → Memory A → Pc A → Type 0
Defined {A} i m (own_pop calls) = (q : List A) × (get_elem? m.pool.local_queues i ≡ some q)
Defined {A} i m (stealing k n calls) =
    k < n → (q : List A) × (get_elem? m.pool.local_queues (u32 (i + k + 1) % n) ≡ some q)
Defined {A} i m (running task calls) =
    (q : List A) × (get_elem? m.pool.local_queues i ≡ some q) × (i ≢ m.pool.threads)
Defined i m _ = Unit {0}
