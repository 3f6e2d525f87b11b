-- ===== src/StopTokens/Steps.antt =====
-- Every step of the two threads keeps what holds between the steps.
use cs_learning_notes.Base.{
  ℕ, zero, suc, ◌≤◌, ◌≡◌, ◌≢◌, refl, sym, ◌∙◌, ap, subst, true, false, Option, none, some, List, [],
  ◌∷◌, ◌++◌, arith,
}
use mathlib.Core.List.{Perm, perm_middle, append-nil, perm_append_singleton}
use mathlib.Core.List.Perm
use cs_learning_notes.Interleaving.{Kept, Others}
use cs_learning_notes.StopTokens.{
  Which, one, two, Callback, in_task, Launch, pending, running, finished, deferred, Memory, Event,
  made, ran, ran_at_once, expired, Pc, idle, sleeping, invoking, running_callback, joining, leaving,
  gone, looping, making, resting, unmaking, ended, after_rest, after_unmake, Move, launch_thread,
  put_off, request_stop, pick, run_callback, all_run, join, leave, begin, call_task, finish,
  register, run_now, wake_up, unregister, was_run,
}
use cs_learning_notes.StopTokens.Registry.{task, callback, Registry, Stops}
use cs_learning_notes.StopTokens.Invariant.{
  pending_callbacks, opt_list, before, Launched, Global, Local, Pair,
}

abbrev KeptBy : Registry → Memory → ℕ → Pc → Option Event → Memory → Pc → Type 0
KeptBy = Kept (λ r. r) Stops Global Local Pair

before-suc :
    (num : ℕ)
    → 1 ≤ num
    → before (suc num)
      ≡ callback (in_task two num) ∷ callback (in_task one num) ∷ task num ∷ before num
before-suc zero h = absurd (omega arith)
before-suc (suc num) h = refl

-- A step of `main` concerns the other thread only in the launch and in the history.
main-Others :
    (x x' : Registry) (m m' : Memory) (i : ℕ) (p p' : Pc)
    → i ≡ 0
    → m'.launch ≡ m.launch
    → x'.history ≡ x.history
    → Others Local Pair x m i p x' m' p'
main-Others x x' m m' i p p' first l h j q ne lj w w' = (other q lj, tt, tt)
  where
    other : (q : Pc) → Local x m j q → Local x' m' j q
    other idle k = ground (arith, k.1)
    other (making one num) k = ground arith
    other (making two num) k = ground arith
    other (resting one num) k = ground arith
    other (resting two num) k = ground arith
    other q k = ground arith

-- What a step of `task` may do while its thread runs.
record TaskStep (m m' : Memory) : Type 0 where
  same : m'.requested ≡ m.requested
  executing : m'.executing ≡ m.executing
  none_new : m.requested ≡ true → m.registered ≡ [] → m'.registered ≡ []
  launch : m'.launch ≢ pending

task-Others :
    (x x' : Registry) (m m' : Memory) (i : ℕ) (p p' : Pc)
    → i ≡ 1
    → m.launch ≡ running
    → TaskStep m m'
    → Others Local Pair x m i p x' m' p'
task-Others x x' m m' i p p' second runs t j q ne lj w w' = (other q lj, tt, tt)
  where
    other : (q : Pc) → Local x m j q → Local x' m' j q
    other idle k = ground (arith, k.0)
    other (making one num) k = ground arith
    other (making two num) k = ground arith
    other (resting one num) k = ground arith
    other (resting two num) k = ground arith
    other joining k = (
      record {
        thread = k.0.thread;
        launched = t.launch;
        request = t.same ∙ k.0.request;
        executing = t.executing ∙ k.0.executing;
      },
      t.none_new k.0.request k.1,
    )
    other q k = ground (arith, t.launch)

-- A step of `main` after the launch.
main-kept :
    (x : Registry) (m m' : Memory) (i : ℕ) (p p' : Pc)
    → Global x m
    → i ≡ 0
    → m'.launch ≡ m.launch
    → m'.requested ≡ m.requested
    → Perm (pending_callbacks m) (pending_callbacks m')
    → Local x m' i p'
    → KeptBy x m i p none m' p'
main-kept x m m' i p p' g first l r w loc = record {
  x' = x;
  follows = refl;
  global = record {
    requested = g.requested ∙ sym r;
    waiting = Perm.trans g.waiting w;
    launched = subst (λ t. Launched t x.history) (sym l) g.launched;
  };
  local = loc;
  others = main-Others x x m m' i p p' first l refl;
}

-- A step of `task` that leaves memory alone.
task-kept :
    (x : Registry) (m : Memory) (i : ℕ) (p p' : Pc)
    → Global x m
    → i ≡ 1
    → m.launch ≡ running
    → Local x m i p'
    → KeptBy x m i p none m p'
task-kept x m i p p' g second runs loc = record {
  x' = x;
  follows = refl;
  global = g;
  local = loc;
  others =
      task-Others x x m m i p p' second runs
        (record { same = refl; executing = refl; none_new = λ a e. e; launch = λ e. ground arith });
}

keep_launch :
    (x : Registry) (m : Memory) (i : ℕ) (l : Launch)
    → i ≡ 0
    → l ≢ pending
    → Global x m
    → Local x m i idle
    → Launched l x.history
    → KeptBy x m i idle none (record m { launch = l }) sleeping
keep_launch x m i l first ne g loc h = record {
  x' = x;
  follows = refl;
  global = record { requested = g.requested; waiting = g.waiting; launched = h };
  local = record {
    thread = first;
    launched = ne;
    request = (loc.0 first).1;
    executing = (loc.0 first).2;
  };
  others = λ j q d lj w w'. (other j d q lj, tt, tt);
}
  where
    known : x.history ≡ before 1
    known = subst (λ t. Launched t x.history) (loc.0 first).0 g.launched

    not_yet : m.launch ≢ running
    not_yet e = ground (arith, (loc.0 first).0)

    other : (j : ℕ) → i ≢ j → (q : Pc) → Local x m j q → Local x (record m { launch = l }) j q
    other j d idle k = (λ e. absurd (d (first ∙ sym e)), λ e f. known)
    other j d (making one num) k = absurd (not_yet k.runs)
    other j d (making two num) k = absurd (not_yet k.runs)
    other j d (resting one num) k = absurd (not_yet k.runs)
    other j d (resting two num) k = absurd (not_yet k.runs)
    other j d (unmaking w num) k = absurd (not_yet k.runs)
    other j d (looping num) k = absurd (not_yet k.1)
    other j d q k = ground (arith, (loc.0 first).0)

keep_pick :
    (x : Registry) (m : Memory) (i : ℕ) (us : List Callback) (c : Callback) (rest : List Callback)
    → m.registered ≡ us ++ c ∷ rest
    → Global x m
    → Local x m i invoking
    → KeptBy x m i invoking none
        (record m { registered = us ++ rest; executing = some c })
        (running_callback c)
keep_pick x m i us c rest e g l =
    main-kept x m (record m { registered = us ++ rest; executing = some c }) i invoking
      (running_callback c) g l.thread refl refl moved
      (record { thread = l.thread; launched = l.launched; request = l.request; executing = refl })
  where
    all : pending_callbacks m ≡ us ++ c ∷ rest
    all = rw (l.executing, e) (append-nil _)

    moved : Perm (pending_callbacks m) ((us ++ rest) ++ c ∷ [])
    moved =
        rw all (Perm.trans (perm_middle us rest) (Perm.symm (perm_append_singleton c (us ++ rest))))

keep_run :
    (x : Registry) (m : Memory) (i : ℕ) (c : Callback)
    → Global x m
    → Local x m i (running_callback c)
    → KeptBy x m i (running_callback c) (some (ran c i)) (record m { executing = none }) invoking
keep_run x m i c g l = record {
  x' = record x { waiting = m.registered };
  follows = (g.requested ∙ l.request, refl, refl, Perm.trans g.waiting taken);
  global = record {
    requested = g.requested;
    waiting = subst (λ cs. Perm m.registered cs) (sym (append-nil m.registered)) (Perm.refl _);
    launched = g.launched;
  };
  local = record {
    thread = l.thread;
    launched = l.launched;
    request = l.request;
    executing = refl;
  };
  others =
      main-Others x (record x { waiting = m.registered }) m (record m { executing = none }) i
        (running_callback c) invoking l.thread refl refl;
}
  where
    taken : Perm (pending_callbacks m) (c ∷ m.registered)
    taken = rw l.executing (perm_append_singleton c m.registered)

resting-Local :
    (x x' : Registry) (m m' : Memory) (i : ℕ) (w : Which) (num : ℕ)
    → Local x m i (making w num)
    → m'.launch ≡ m.launch
    → x'.history ≡ callback (in_task w num) ∷ x.history
    → Local x' m' i (resting w num)
resting-Local x x' m m' i one num l e h = ground arith
resting-Local x x' m m' i two num l e h = ground (arith, before-suc num)

making_task :
    (x : Registry) (m : Memory) (i : ℕ) (w : Which) (num : ℕ)
    → Local x m i (making w num)
    → (i ≡ 1) × (m.launch ≡ running)
making_task x m i one num l = (l.thread, l.runs)
making_task x m i two num l = (l.thread, l.runs)

resting_task :
    (x : Registry) (m : Memory) (i : ℕ) (w : Which) (num : ℕ)
    → Local x m i (resting w num)
    → (i ≡ 1) × (m.launch ≡ running)
resting_task x m i one num l = (l.thread, l.runs)
resting_task x m i two num l = (l.thread, l.runs)

after_rest-Local :
    (x : Registry) (m : Memory) (i : ℕ) (w : Which) (num : ℕ)
    → Local x m i (resting w num)
    → Local x m i (after_rest w num)
after_rest-Local x m i one num l = l
after_rest-Local x m i two num l = l

after_unmake-Local :
    (x x' : Registry) (m m' : Memory) (i : ℕ) (w : Which) (num : ℕ)
    → Local x m i (unmaking w num)
    → m'.launch ≡ m.launch
    → x'.history ≡ x.history
    → Local x' m' i (after_unmake w num)
after_unmake-Local x x' m m' i one num l e h = ground arith
after_unmake-Local x x' m m' i two num l e h = ground arith

-- No list with an item in it is empty.
cons_in_nil : {A T : Type 0} (us : List A) (a : A) (rest : List A) → us ++ a ∷ rest ≡ [] → T
cons_in_nil [] a rest e = cc
cons_in_nil (u ∷ us) a rest e = cc

keep_register :
    (x : Registry) (m : Memory) (i : ℕ) (w : Which) (num : ℕ)
    → m.requested ≡ false
    → Global x m
    → Local x m i (making w num)
    → KeptBy x m i
        (making w num)
        (some (made (in_task w num)))
        (record m { registered = in_task w num ∷ m.registered })
        (resting w num)
keep_register x m i w num e g l =
    let c = in_task w num in
    let x' : Registry = record x {
      waiting = c ∷ pending_callbacks m;
      history = callback c ∷ x.history;
    } in
    let m' : Memory = record m { registered = c ∷ m.registered } in
    let (second, runs) = making_task x m i w num l in
    record {
      x' = x';
      follows = (g.requested ∙ e, refl, refl, Perm.cons c g.waiting);
      global = record {
        requested = g.requested;
        waiting = Perm.refl _;
        launched = subst (λ t. Launched t (callback c ∷ x.history)) (sym runs) tt;
      };
      local = resting-Local x x' m m' i w num l refl refl;
      others = task-Others x x' m m' i (making w num) (resting w num) second runs (record {
        same = refl;
        executing = refl;
        none_new = λ a f. ground arith;
        launch = λ z. ground arith;
      });
    }

keep_now :
    (x : Registry) (m : Memory) (i : ℕ) (w : Which) (num : ℕ)
    → m.requested ≡ true
    → Global x m
    → Local x m i (making w num)
    → KeptBy x m i (making w num) (some (ran_at_once (in_task w num) i)) m (resting w num)
keep_now x m i w num e g l =
    let c = in_task w num in
    let x' : Registry = record x { history = callback c ∷ x.history } in
    let (second, runs) = making_task x m i w num l in
    record {
      x' = x';
      follows = (g.requested ∙ e, refl);
      global = record {
        requested = g.requested;
        waiting = g.waiting;
        launched = subst (λ t. Launched t (callback c ∷ x.history)) (sym runs) tt;
      };
      local = resting-Local x x' m m i w num l refl refl;
      others = task-Others x x' m m i (making w num) (resting w num) second runs (record {
        same = refl;
        executing = refl;
        none_new = λ a f. f;
        launch = λ z. ground arith;
      });
    }

keep_unregister :
    (x : Registry) (m : Memory) (i : ℕ) (w : Which) (num : ℕ) (us rest : List Callback)
    → m.registered ≡ us ++ in_task w num ∷ rest
    → Global x m
    → Local x m i (unmaking w num)
    → KeptBy x m i
        (unmaking w num)
        (some (expired (in_task w num)))
        (record m { registered = us ++ rest })
        (after_unmake w num)
keep_unregister x m i w num us rest e g l =
    let c = in_task w num in
    let m' : Memory = record m { registered = us ++ rest } in
    let x' : Registry = record x { waiting = pending_callbacks m' } in
    record {
      x' = x';
      follows = ((λ z. cc), refl, refl, Perm.trans g.waiting taken);
      global = record { requested = g.requested; waiting = Perm.refl _; launched = g.launched };
      local = after_unmake-Local x x' m m' i w num l refl refl;
      others =
          task-Others x x' m m' i (unmaking w num) (after_unmake w num) l.thread l.runs (record {
            same = refl;
            executing = refl;
            none_new = λ a f. cons_in_nil us c rest (sym e ∙ f);
            launch = λ z. ground arith;
          });
    }
  where
    taken :
        Perm
          (pending_callbacks m)
          (in_task w num ∷ pending_callbacks (record m { registered = us ++ rest }))
    taken =
        subst
          (λ rs.
            Perm (rs ++ opt_list m.executing)
              (in_task w num ∷ (us ++ rest) ++ opt_list m.executing))
          (sym e) (Perm.append_right (opt_list m.executing) (perm_middle us rest))

-- Each step keeps what is known, and does to the registry what its event says.
pub keep :
    (x : Registry) (m : Memory) (i : ℕ) (p : Pc) (e : Option Event) (m' : Memory) (p' : Pc)
    → Move i m p e m' p'
    → Global x m
    → Local x m i p
    → KeptBy x m i p e m' p'
keep x m i p e m' p' (launch_thread h) g l = keep_launch x m i running h (λ z. cc) g l tt
keep x m i p e m' p' (put_off h) g l =
    keep_launch x m i deferred h (λ z. cc) g l
      (subst (λ t. Launched t x.history) (l.0 h).0 g.launched)
keep x m i p e m' p' request_stop g l = record {
  x' = record x { requested = true };
  follows = refl;
  global = record { requested = refl; waiting = g.waiting; launched = g.launched };
  local = record {
    thread = l.thread;
    launched = l.launched;
    request = refl;
    executing = l.executing;
  };
  others =
      main-Others x (record x { requested = true }) m (record m { requested = true }) i sleeping
        invoking l.thread refl refl;
}
keep x m i p e m' p' (pick us c rest h) g l = keep_pick x m i us c rest h g l
keep x m i p e m' p' (run_callback {c}) g l = keep_run x m i c g l
keep x m i p e m' p' (all_run h) g l =
    main-kept x m m i invoking joining g l.thread refl refl (Perm.refl _) (l, h)
keep x m i p e m' p' (join h) g l =
    main-kept x m m i joining leaving g l.0.thread refl refl (Perm.refl _) (l.0, l.1, h)
keep x m i p e m' p' leave g l =
    main-kept x m m i leaving gone g l.0.thread refl refl (Perm.refl _) l
keep x m i p e m' p' (begin second runs) g l =
    task-kept x m i idle (looping 1) g second runs
      (second, runs, omega arith, omega arith, l.1 second runs)
keep x m i p e m' p' (call_task {num} lt) g l =
    let x' : Registry = record x { history = task num ∷ x.history } in
    record {
      x' = x';
      follows = refl;
      global = record {
        requested = g.requested;
        waiting = g.waiting;
        launched = subst (λ t. Launched t (task num ∷ x.history)) (sym l.1) tt;
      };
      local = record {
        thread = l.0;
        runs = l.1;
        least = l.2;
        most = omega arith;
        history = ap (λ h. task num ∷ h) l.4;
      };
      others = task-Others x x' m m i (looping num) (making one num) l.0 l.1 (record {
        same = refl;
        executing = refl;
        none_new = λ a f. f;
        launch = λ z. ground (arith, l.1);
      });
    }
keep x m i p e m' p' (finish {num} h) g l =
    let m' : Memory = record m { launch = finished } in
    let ten : num ≡ 10 = omega (arith, l.3) in
    record {
      x' = x;
      follows = refl;
      global = record {
        requested = g.requested;
        waiting = g.waiting;
        launched = subst (λ n. x.history ≡ before n) ten l.4;
      };
      local = (l.0, refl);
      others =
          task-Others x x m m' i (looping num) ended l.0 l.1
            (record { same = refl; executing = refl; none_new = λ a f. f; launch = λ z. cc });
    }
keep x m i p e m' p' (register {w} {num} h) g l = keep_register x m i w num h g l
keep x m i p e m' p' (run_now {w} {num} h) g l = keep_now x m i w num h g l
keep x m i p e m' p' (wake_up {w} {num}) g l =
    let (second, runs) = resting_task x m i w num l in
    task-kept x m i (resting w num) (after_rest w num) g second runs
      (after_rest-Local x m i w num l)
keep x m i p e m' p' (unregister {w} {num} us rest h) g l =
    keep_unregister x m i w num us rest h g l
keep x m i p e m' p' (was_run {w} {num} h k) g l =
    task-kept x m i (unmaking w num) (after_unmake w num) g l.thread l.runs
      (after_unmake-Local x x m m i w num l refl refl)
