-- ===== src/SpscQueue/WaitFree.antt =====
-- `waitfree_spsc_queue` of cpp/concurrency/concurrent_data_structure/spsc_queue_unbounded.cpp waits for no
-- thread.
use cs_learning_notes.Base.{ℕ, ◌<◌, ◌≤◌, ◌≢◌, refl, ap, Option, List, arith, update_ne, ℕ_discrete}
use cs_learning_notes.Interleaving.{System}
use cs_learning_notes.Interleaving.Continuations.{CanStep, Continues, Continues-Measured}
use cs_learning_notes.Containers.{Event}
use cs_learning_notes.SpscQueue.{
  Memory, Pc, Move, init, idle, push_load, push_construct, push_link, push_store, pop_load,
  pop_advance, pop_take, pop_destroy, pop_delete, returned, push_new, load_tail, construct, link,
  store_tail, pop_begin, load_empty, load_more, advance, take, destroy, delete, leave,
}
use cs_learning_notes.SpscQueue.Linearizable.{Reaches, Defined, spsc_no_fault}

-- The steps that an operation has left at most.
abbrev pub steps_left : {A : Type 0} → Pc A → ℕ
steps_left idle = 0
steps_left (push_load x p) = 4
steps_left (push_construct x p t) = 3
steps_left (push_link x p t) = 2
steps_left (push_store x p t) = 1
steps_left pop_load = 6
steps_left pop_advance = 5
steps_left (pop_take a n x) = 4
steps_left (pop_destroy a n y) = 3
steps_left (pop_delete a n y) = 2
steps_left (returned r) = 1

module _ {A : Type 0} (i : ℕ) where
  Move-less :
      (m : Memory A) (p : Pc A) (e : Option (Event A)) (m' : Memory A) (p' : Pc A)
      → Move i m p e m' p'
      → p ≢ idle
      → steps_left p' < steps_left p
  Move-less m p e m' p' (push_new x r f nn) ne = absurd (ne refl)
  Move-less m p e m' p' load_tail ne = omega arith
  Move-less m p e m' p' (construct f) ne = omega arith
  Move-less m p e m' p' (link f) ne = omega arith
  Move-less m p e m' p' store_tail ne = omega arith
  Move-less m p e m' p' (pop_begin r) ne = absurd (ne refl)
  Move-less m p e m' p' (load_empty h) ne = omega arith
  Move-less m p e m' p' (load_more h) ne = omega arith
  Move-less m p e m' p' (advance f h) ne = omega arith
  Move-less m p e m' p' (take f h) ne = omega arith
  Move-less m p e m' p' (destroy f) ne = omega arith
  Move-less m p e m' p' delete ne = omega arith
  Move-less m p e m' p' leave ne = omega arith

  Defined-CanStep : (m : Memory A) (p : Pc A) → p ≢ idle → Defined m p → CanStep Move i m p
  Defined-CanStep m idle ne d = absurd (ne refl)
  Defined-CanStep m (push_load x p) ne d = (_, _, _, load_tail)
  Defined-CanStep m (push_construct x p t) ne d = (_, _, _, construct d)
  Defined-CanStep m (push_link x p t) ne d = (_, _, _, link d.1)
  Defined-CanStep m (push_store x p t) ne d = (_, _, _, store_tail)
  Defined-CanStep m pop_load ne d = elim (ℕ_discrete m.head m.tail) [
    | yes e ↦ (_, _, _, load_empty e)
    | no e ↦ (_, _, _, load_more e)
  ]
  Defined-CanStep m pop_advance ne d = (_, _, _, advance d.2 d.3)
  Defined-CanStep m (pop_take a n x) ne d = (_, _, _, take d.1 d.2)
  Defined-CanStep m (pop_destroy a n y) ne d = (_, _, _, destroy d.2)
  Defined-CanStep m (pop_delete a n y) ne d = (_, _, _, delete)
  Defined-CanStep m (returned r) ne d = (_, _, _, leave)

  six_left : (p : Pc A) → steps_left p ≤ 6
  six_left idle = omega arith
  six_left (push_load x p) = omega arith
  six_left (push_construct x p t) = omega arith
  six_left (push_link x p t) = omega arith
  six_left (push_store x p t) = omega arith
  six_left pop_load = omega arith
  six_left pop_advance = omega arith
  six_left (pop_take a n x) = omega arith
  six_left (pop_destroy a n y) = omega arith
  six_left (pop_delete a n y) = omega arith
  six_left (returned r) = omega arith

-- Thread `i` stays in its operation for `k` steps of its own, while the others do what they do.
abbrev pub StaysIn :
    {A : Type 0} → ℕ → System (Memory A) (Pc A) → ℕ → System (Memory A) (Pc A) → Type 0
StaysIn i = Continues Move i (λ p p'. p ≢ idle) (λ j p p'. j ≢ i)

-- Wait-freedom: from every reachable state, however the system goes on, a thread takes six steps at most until its
-- operation ends, whatever the other thread does meanwhile, and until then it always has a next step.
pub wait_free :
    {A : Type 0} {tr : List (Event A)} {s s' : System (Memory A) (Pc A)} {k : ℕ}
    → Reaches tr s
    → (i : ℕ) → StaysIn i s k s'
    → (k ≤ 6) × (s'.pc i ≢ idle → CanStep Move i s'.mem (s'.pc i))
wait_free {s} {s'} r i c =
    let d =
      Continues-Measured Move init idle i (λ p p'. p ≢ idle) (λ j p p'. j ≢ i) (λ s. Unit {0})
        (λ m p. steps_left p) (λ tr s e m p r h ne mv. (tt, Move-less i s.mem (s.pc i) e m p mv ne))
        (λ tr s e m p r h j ne mv. (tt, omega (arith, ap steps_left (update_ne s.pc j p i ne)))) r
        tt c in
    (
      omega (arith, d.bound, six_left i (s.pc i)),
      λ ne. Defined-CanStep i s'.mem (s'.pc i) ne (spsc_no_fault d.reach i),
    )
