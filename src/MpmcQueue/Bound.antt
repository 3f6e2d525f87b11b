-- ===== src/MpmcQueue/Bound.antt =====
-- The multi-producer queue: how many steps a thread that runs alone takes.
use cs_learning_notes.Base.{
  ℕ, ◌<◌, ◌≤◌, ◌≡◌, ◌≢◌, refl, Option, none, some, Bool, true, false, List, arith, ◌==◌,
  if◌then◌else◌, ℕ_discrete,
}
use cs_learning_notes.Interleaving.{System}
use cs_learning_notes.Interleaving.Continuations.{
  CanStep, Continues, Continues-Measured, Solo-CanStep,
}
use cs_learning_notes.Containers.{Event}
use cs_learning_notes.MpmcQueue.{
  Node, Memory, Pc, Move, init, null, idle, push_load, push_data, own_next, own_tail, help_next,
  help_new, help_tail, pop_load, pop_test, pop_next, pop_cas, pop_take, returned, push_new,
  load_tail, data_win, data_fail, own_next_win, own_next_fail, own_tail_win, own_tail_fail,
  help_next_win, help_next_fail, help_allocate, help_tail_win, help_tail_fail, pop_begin, load_head,
  test_empty, test_more, load_next, pop_win, pop_fail, take, leave,
}
use cs_learning_notes.MpmcQueue.Invariant.{View, Global, Local}
use cs_learning_notes.MpmcQueue.Linearizable.{Reaches, sound}
use cs_learning_notes.MpmcQueue.Pushes.{stale, claimed}
use cs_learning_notes.MpmcQueue.Progress.{mpmc_alone-Finishes}

-- The node has an item.
abbrev taken_node : {A : Type 0} → Option (Node A) → Bool
taken_node none = false
taken_node (some n) = elim n.item [ none ↦ false | some y ↦ true ]

-- The steps that an operation has left at most, when no other thread moves: they depend on whether the tail that it
-- has loaded is still the tail, and has an item by now, and whether the head is still the head.
abbrev pub steps_left : {A : Type 0} → Memory A → Pc A → ℕ
steps_left m idle = 0
steps_left m (push_load x p) = if taken_node (m.nodes m.tail) then 9 else 4
steps_left m (push_data x p t) =
    if t == m.tail then (if taken_node (m.nodes m.tail) then 8 else 3) else 12
steps_left m (own_next p t) = 2
steps_left m (own_tail t p) = 1
steps_left m (help_next x p t) = if t == m.tail then 7 else 11
steps_left m (help_new x t q) = if t == m.tail then 6 else 11
steps_left m (help_tail x p t q) = if t == m.tail then 5 else 10
steps_left m pop_load = 6
steps_left m (pop_test a) = if a == m.head then 5 else 8
steps_left m (pop_next a) = if a == m.head then 4 else 7
steps_left m (pop_cas a b) = if a == m.head then 3 else 6
steps_left m (pop_take a y) = 2
steps_left m (returned r) = 1

twelve_left : {A : Type 0} (m : Memory A) (p : Pc A) → steps_left m p ≤ 12
twelve_left m idle = omega arith
twelve_left m (push_load x p) = ground arith
twelve_left m (push_data x p t) = ground arith
twelve_left m (own_next p t) = omega arith
twelve_left m (own_tail t p) = omega arith
twelve_left m (help_next x p t) = ground arith
twelve_left m (help_new x t q) = ground arith
twelve_left m (help_tail x p t q) = ground arith
twelve_left m pop_load = omega arith
twelve_left m (pop_test a) = ground arith
twelve_left m (pop_next a) = ground arith
twelve_left m (pop_cas a b) = ground arith
twelve_left m (pop_take a y) = omega arith
twelve_left m (returned r) = omega arith

module _ {A : Type 0} (x : View A) (i : ℕ) where
  -- The push goes on at a new tail.
  tail_won :
      (m : Memory A) (y : A) (p t q : ℕ)
      → Global x m
      → Local x m i (help_tail y p t q)
      → m.tail ≡ t
      → steps_left (record m { tail = q }) (push_load y p) < steps_left m (help_tail y p t q)
  tail_won m y p t q g l same =
      let (n, e, next, nz) = l.links in
      let (z, h, new) = claimed x m i t q n g same e next nz in ground arith

  -- Every step of an operation lowers them.
  Move-less :
      (m : Memory A) (p : Pc A) (e : Option (Event A)) (m' : Memory A) (p' : Pc A)
      → Move i m p e m' p'
      → Global x m
      → Local x m i p
      → p ≢ idle
      → steps_left m' p' < steps_left m p
  Move-less m p e m' p' (push_new y q f nn) g l ne = absurd (ne refl)
  Move-less m p e m' p' load_tail g l ne = ground arith
  Move-less m p e m' p' (data_win f c) g l ne = ground arith
  Move-less m p e m' p' (data_fail f c) g l ne = ground arith
  Move-less m p e m' p' (own_next_win f c) g l ne = omega arith
  Move-less m p e m' p' (own_next_fail f c) g l ne = omega arith
  Move-less m p e m' p' (own_tail_win same f c) g l ne = omega arith
  Move-less m p e m' p' (own_tail_fail other) g l ne = omega arith
  Move-less m p e m' p' (help_next_win {t} {n} f c) g l ne = elim (ℕ_discrete t m.tail) [
    | yes same ↦ ground arith
    | no other ↦ absurd ((stale x m i t n g l.visits f other).0 c)
  ]
  Move-less m p e m' p' (help_next_fail f c) g l ne = ground arith
  Move-less m p e m' p' (help_allocate q f nn) g l ne = ground arith
  Move-less m p e m' p' (help_tail_win {x = y} {p = b} {t} {q} same f c) g l ne =
      tail_won m y b t q g l same
  Move-less m p e m' p' (help_tail_fail other) g l ne = ground arith
  Move-less m p e m' p' pop_begin g l ne = absurd (ne refl)
  Move-less m p e m' p' load_head g l ne = ground arith
  Move-less m p e m' p' (test_empty c) g l ne = ground arith
  Move-less m p e m' p' (test_more c) g l ne = ground arith
  Move-less m p e m' p' (load_next f) g l ne = ground arith
  Move-less m p e m' p' (pop_win same f c) g l ne = ground arith
  Move-less m p e m' p' (pop_fail c) g l ne = ground arith
  Move-less m p e m' p' (take f c) g l ne = omega arith
  Move-less m p e m' p' leave g l ne = omega arith

-- Thread `i` runs alone in its operation, for `k` steps.
abbrev pub RunsAlone :
    {A : Type 0} → ℕ → System (Memory A) (Pc A) → ℕ → System (Memory A) (Pc A) → Type 0
RunsAlone i = Continues Move i (λ p p'. p ≢ idle) (λ j p p'. ⊥)

-- From every reachable state a thread that runs alone, however it does, takes twelve steps at most until its operation
-- ends, and until then it has a next step while two nodes can be allocated.
pub mpmc_alone_ends :
    {A : Type 0} {tr : List (Event A)} {s s' : System (Memory A) (Pc A)} {k : ℕ}
    → Reaches tr s
    → (i : ℕ) → RunsAlone i s k s'
    → (k ≤ 12)
      × ((b c : ℕ)
          → s'.mem.nodes b ≡ none
          → b ≢ null
          → s'.mem.nodes c ≡ none
          → c ≢ null
          → b ≢ c
          → s'.pc i ≢ idle
          → CanStep Move i s'.mem (s'.pc i))
mpmc_alone_ends {s} {s'} r i c =
    let d =
      Continues-Measured Move init idle i (λ p p'. p ≢ idle) (λ j p p'. ⊥) (λ s. Unit {0})
        steps_left
        (λ tr s e m p r h ne mv.
          let a = sound r in (tt, Move-less a.x i s.mem (s.pc i) e m p mv a.global (a.local i) ne))
        (λ tr s e m p r h j f mv. absurd f) r tt c in
    (
      omega (arith, d.bound, twelve_left s.mem (s.pc i)),
      λ b c fb nb fc nc bc ne.
          Solo-CanStep Move ((mpmc_alone-Finishes d.reach i b c fb nb fc nc bc).2) ne,
    )
