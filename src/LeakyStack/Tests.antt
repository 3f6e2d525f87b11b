-- ===== src/LeakyStack/Tests.antt =====
-- The leaking stack run at a concrete schedule.
use cs_learning_notes.Base.{ℕ, ◌≡◌, refl, List, [], ◌∷◌, arith}
use cs_learning_notes.Chain.{Cell, Chain, values}
use cs_learning_notes.Interleaving.{Run, begin, go, Replays}
use cs_learning_notes.Containers.{Lifo, put, took}
use cs_learning_notes.StackNode.{Points, null}
use cs_learning_notes.LeakyStack.{
  Move, init, idle, push_begin, push_head, allocate, push_win, push_fail, pop_begin, pop_head,
  read_next, pop_win,
}
use cs_learning_notes.LeakyStack.Linearizable.{leaky_linearizable}

abbrev IntRun : Type 0
IntRun = Run (Move {A = ℕ}) init idle

-- Threads 0 and 1 push 7 and 8 across each other, and thread 2 has won its compare-exchange.
abbrev crossing : IntRun
crossing =
    let r : IntRun = go begin 0 (push_begin 7) in
    let r : IntRun = go r 1 (push_begin 8) in
    let r : IntRun = go r 0 push_head in
    let r : IntRun = go r 1 push_head in
    let r : IntRun = go r 0 (allocate 1 refl (omega arith)) in
    let r : IntRun = go r 1 (allocate 2 refl (omega arith)) in
    let r : IntRun = go r 0 (push_win refl) in
    let r : IntRun = go r 1 (push_fail refl) in
    let r : IntRun = go r 1 (push_win refl) in
    let r : IntRun = go r 2 pop_begin in
    let r : IntRun = go r 2 (pop_head (omega arith)) in
    let r : IntRun = go r 2 (read_next refl) in go r 2 (pop_win refl)

crossing_trace : crossing.trace ≡ took 8 ∷ put 8 ∷ put 7 ∷ []
crossing_trace = refl

leaky_linearizable_example :
    (cs : List (Cell ℕ)) × Replays Lifo [] crossing.trace (values cs)
    × Chain (Points crossing.last.mem.nodes) crossing.last.mem.head cs null
leaky_linearizable_example = leaky_linearizable crossing.reach
