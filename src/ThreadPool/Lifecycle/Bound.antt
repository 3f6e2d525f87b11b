-- ===== src/ThreadPool/Lifecycle/Bound.antt =====
-- `worker` of cpp/concurrency/thread_pool/thread_pool.cpp after a stop request: how many steps it takes.
use cs_learning_notes.Base.{
  ℕ, ◌+◌, ◌<◌, ◌≤◌, ◌≡◌, ◌≢◌, refl, sym, ◌∙◌, ap, subst, true, Option, List, length, arith, update,
  update_ne, update_self, ℕ_discrete,
}
use cs_learning_notes.Interleaving.{System}
use cs_learning_notes.Interleaving.Continuations.{
  CanStep, Continues, Continues-Measured, Solo-CanStep, moved,
}
use cs_learning_notes.ThreadPool.Lifecycle.{
  Memory, Event, Pc, Move, init, outside, running, ended, task_done,
}
use cs_learning_notes.ThreadPool.Lifecycle.Outcome.{Reaches, sound}
use cs_learning_notes.ThreadPool.Lifecycle.Stopping.{waits, Role-Ends}
use cs_learning_notes.ThreadPool.Lifecycle.Lowering.{
  steps_left, Returns, stops-kept, Move-Lowers, few_left,
}

-- A step of thread `i`; if it is in a task, the task returns.
abbrev pub CanGoOn : {A : Type 0} → ℕ → ℕ → Memory A → Pc A → Type 0
CanGoOn {A} workers i m p =
    (e : Option (Event A)) × (m' : Memory A) × (p' : Pc A) × Move workers i m p e m' p'
    × Returns p p'

CanStep-CanGoOn :
    {A : Type 0} (workers i : ℕ) (m : Memory A) (p : Pc A)
    → CanStep (Move workers) i m p
    → CanGoOn workers i m p
CanStep-CanGoOn workers i m (running task calls) c = (_, _, _, task_done, refl)
CanStep-CanGoOn workers i m _ (e, m', p', mv) = (e, m', p', mv, tt)

-- The system goes on, and thread `i` takes `k` steps, in which the task that it runs returns, and any number in
-- which it stays where it is: its tasks submit others.
abbrev pub GoesOn :
    {A : Type 0} → ℕ → ℕ → System (Memory A) (Pc A) → ℕ → System (Memory A) (Pc A) → Type 0
GoesOn workers i = Continues (Move workers) i Returns (λ j p p'. j ≡ i → p' ≡ p)

module _ {A : Type 0} (workers i : ℕ) where
  abbrev Asked : System (Memory A) (Pc A) → Type 0
  Asked s = (s.mem.stops i ≡ true) × (s.pc i ≢ outside)

  own-Asked :
      (tr : List (Event A)) (s : System (Memory A) (Pc A)) (e : Option (Event A)) (m : Memory A)
      (p : Pc A)
      → i < workers
      → Reaches workers tr s
      → Asked s
      → Returns (s.pc i) p
      → Move workers i s.mem (s.pc i) e m p
      → Asked (moved (Move workers) s i m p) × (steps_left workers p < steps_left workers (s.pc i))
  own-Asked tr s e m p lt r (asked, ne) t mv =
      let h = sound r in
      let (out, less) =
        Move-Lowers workers i s.mem (s.pc i) e m p mv lt h.global.queues (h.local i) asked ne t in
      (
        (
          stops-kept workers i i s.mem (s.pc i) e m p mv asked,
          λ z. out (sym (update_self s.pc i p) ∙ z),
        ),
        less,
      )

  free-Asked :
      (tr : List (Event A)) (s : System (Memory A) (Pc A)) (e : Option (Event A)) (m : Memory A)
      (p : Pc A)
      → Asked s
      → (j : ℕ) → (j ≡ i → p ≡ s.pc j)
      → Move workers j s.mem (s.pc j) e m p
      → Asked (moved (Move workers) s j m p)
        × (steps_left workers (update s.pc j p i) ≤ steps_left workers (s.pc i))
  free-Asked tr s e m p (asked, ne) j stays mv =
      let same : update s.pc j p i ≡ s.pc i = elim (ℕ_discrete j i) [
        | yes ji ↦ subst (λ t. update s.pc j p t ≡ s.pc t) ji (update_self s.pc j p ∙ stays ji)
        | no other ↦ update_ne s.pc j p i other
      ] in
      (
        (stops-kept workers i j s.mem (s.pc j) e m p mv asked, λ z. ne (sym same ∙ z)),
        omega (arith, ap (steps_left workers) same),
      )

-- A worker that is requested to stop, wherever it is, and however the system goes on, takes as many steps until it
-- ends as there are workers and tasks that wait in it, and four more, at most, where its tasks return
-- without another call of `runPendingTask`; the steps by which they submit tasks are not counted. While
-- the members of the pool live it always has such a step, until it ends.
pub worker_stops :
    {A : Type 0} {workers k : ℕ} {tr : List (Event A)} {s s' : System (Memory A) (Pc A)}
    → Reaches workers tr s
    → (i : ℕ) → i < workers
    → s.pc i ≢ outside
    → s.mem.stops i ≡ true
    → GoesOn workers i s k s'
    → (k ≤ workers + 4 + length (waits (s.pc i)))
      × (s'.mem.queues_live ≡ true
          → s'.mem.tasks_live ≡ true
          → s'.pc i ≢ ended
          → CanGoOn workers i s'.mem (s'.pc i))
worker_stops {workers} {s} {s'} r i lt ne asked c =
    let h = sound r in
    let d =
      Continues-Measured (Move workers) (init workers) outside i Returns (λ j p p'. j ≡ i → p' ≡ p)
        (Asked workers i) (λ m p. steps_left workers p)
        (λ tr s e m p r a t mv. own-Asked workers i tr s e m p lt r a t mv)
        (λ tr s e m p r a j f mv. free-Asked workers i tr s e m p a j f mv) r (asked, ne) c in
    (
      omega (arith, d.bound, few_left workers i (s.pc i) s.mem.pool.threads lt (h.local i)),
      λ live live' more.
          let g = sound d.reach in
          let (b, run, le) =
            Role-Ends workers i g.x s'.mem (s'.pc i) lt d.keeps.1 live live' d.keeps.0 g.global
              (g.local i) in
          CanStep-CanGoOn workers i s'.mem (s'.pc i) (Solo-CanStep (Move workers) run more),
    )
