-- ===== src/LockedQueue/Wakeup.antt =====
-- `wait_and_pop` and `push` of cpp/concurrency/concurrent_data_structure/threadsafe_queue.cpp: the
-- notification of a push that falls between the test of a consumer and its sleep.
use cs_learning_notes.Base.{ℕ, ◌≡◌, refl, ◌≢◌, [], ◌∷◌, arith, ◌==◌, if◌then◌else◌}
use cs_learning_notes.Interleaving.{System, Run, begin, go}
use cs_learning_notes.Containers.{put}
use cs_learning_notes.LockedQueue.{
  Memory, trying, waiting, Pc, Move, init, idle, sleeping, push_new, lock_tail_push, emplace, link,
  swing, unlock_tail_push, notify_nobody, pop_begin, lock_head, lock_tail, read_more, unlock_tail,
  fall_asleep,
}
use cs_learning_notes.LockedQueue.Linearizable.{Reaches}

waiting_ne : {T : Type 0} → waiting ≡ trying → T
waiting_ne e = cc

module _ {A : Type 0} (x : A) where
  abbrev Q : Type 0
  Q = Run (Move {A = A}) init idle

  -- Thread 0 has read that the queue is empty, and holds the mutex of the head.
  abbrev tested : Q
  tested =
      let r : Q = go begin 0 (pop_begin waiting) in
      let r : Q = go r 0 (lock_head refl) in
      let r : Q = go r 0 (lock_tail refl) in
      let r : Q = go r 0 (read_more waiting_ne) in go r 0 unlock_tail

  -- Thread 1 pushes, and notifies nobody; then thread 0 goes to sleep.
  abbrev overslept : Q
  overslept =
      let r : Q = go tested 1 (push_new 2 x refl (omega arith)) in
      let r : Q = go r 1 (lock_tail_push refl) in
      let r : Q = go r 1 (emplace refl) in
      let r : Q = go r 1 (link refl) in
      let r : Q = go r 1 swing in
      let r : Q = go r 1 unlock_tail_push in
      let r : Q = go r 1 (notify_nobody refl) in go r 0 (fall_asleep refl)

  -- For every item there is a schedule after which the item is in the queue, all threads but one are
  -- outside of every operation, and that one sleeps in `wait_and_pop`, not notified.
  pub wakeup_lost :
      (s : System (Memory A) (Pc A)) × Reaches (put x ∷ []) s
      × (s.mem.head ≢ s.mem.tail)
      × (s.mem.asleep ≡ 0 ∷ [])
      × ((j : ℕ) → s.pc j ≡ (if 0 == j then sleeping else idle))
  wakeup_lost = (overslept.last, overslept.reach, omega arith, refl, λ j. ground arith)
