-- ===== src/LockedQueue/Steps.antt =====
-- Every step of the lock-based queue keeps its invariant.
pub mod Unreached
use cs_learning_notes.Base.{ℕ, refl, Option, none, some, List, ◌∷◌, ◌++◌, arith, erase}
use cs_learning_notes.Chain.{Cell, values}
use cs_learning_notes.Interleaving.{Kept}
use cs_learning_notes.Containers.{Event, Fifo}
use cs_learning_notes.LockedQueue.{
  Memory, Pc, trying, waiting, Move, push_new, lock_tail_push, emplace, link, swing,
  unlock_tail_push, notify_one, notify_nobody, pop_begin, lock_head, lock_tail, read_empty,
  read_more, unlock_tail, find_empty, give_up, fall_asleep, wake, wake_for_nothing, find_more,
  step_head, unlock, take_item, destroy_item, delete_node, leave, idle, push_lock, push_emplace,
  push_unlock, push_notify, pop_lock, tail_lock, tail_read, tail_unlock, compare, unlock_empty,
  sleeping, advance, unlock_head, take, destroy, returned,
}
use cs_learning_notes.LockedQueue.Invariant.{Global, Local, Pair}
use cs_learning_notes.LockedQueue.Frames.{keep_relock, quiet, unchanged, locks, unlocks}
use cs_learning_notes.LockedQueue.Pushing.{keep_new, keep_emplace, keep_link, keep_swing}
use cs_learning_notes.LockedQueue.Popping.{keep_step, keep_destroy, keep_delete, keep_empty}

-- Each step of any thread keeps what is known, and does to the queue what its event says.
pub keep :
    {A : Type 0} (cs : List (Cell A)) (m : Memory A) (i : ℕ) (p : Pc A) (e : Option (Event A))
    (m' : Memory A) (p' : Pc A)
    → Move i m p e m' p'
    → Global cs m
    → Local cs m i p
    → Kept values Fifo Global Local Pair cs m i p e m' p'
keep cs m i p e m' p' (push_new a x f nn) g l = keep_new cs m i a x f nn g l
keep cs m i p e m' p' (lock_tail_push {x} {p = a} f) g l =
    keep_relock cs m i (push_lock x a) (push_emplace x a) m.head_mutex (some i) m.asleep refl
      (unchanged i m.head_mutex) (locks i m.tail_mutex f) (λ h. cc) g
      (ground (arith, g.quiet_tail f))
keep cs m i p e m' p' (emplace {x} {p = a} {n} f) g l = keep_emplace cs m i a x n f g l
keep cs m i p e m' p' (link {x} {p = a} {n} f) g l = keep_link cs m i a x n f g l
keep cs m i p e m' p' (swing {x} {p = a}) g l = keep_swing cs m i a x g l
keep cs m i p e m' p' unlock_tail_push g l =
    keep_relock cs m i push_unlock push_notify m.head_mutex none m.asleep refl
      (unchanged i m.head_mutex) (unlocks i m.tail_mutex l.tail_lock) (λ h. l.tail) g (ground arith)
keep cs m i p e m' p' (notify_one us b rest f) g l =
    keep_relock cs m i push_notify idle m.head_mutex m.tail_mutex (us ++ rest) refl
      (unchanged i m.head_mutex) (unchanged i m.tail_mutex) g.quiet_tail g (ground arith)
keep cs m i p e m' p' (notify_nobody f) g l = quiet cs m i push_notify idle refl g (ground arith)
keep cs m i p e m' p' (pop_begin w) g l = quiet cs m i idle (pop_lock w) refl g (ground arith)
keep cs m i p e m' p' (lock_head {w} f) g l =
    keep_relock cs m i (pop_lock w) (tail_lock w) (some i) m.tail_mutex m.asleep refl
      (locks i m.head_mutex f) (unchanged i m.tail_mutex) g.quiet_tail g (ground arith)
keep cs m i p e m' p' (lock_tail {w} f) g l =
    keep_relock cs m i (tail_lock w) (tail_read w) m.head_mutex (some i) m.asleep refl
      (unchanged i m.head_mutex) (locks i m.tail_mutex f) (λ h. cc) g
      (ground (arith, l.head_lock, g.quiet_tail f))
keep cs m i p e m' p' (read_empty f) g l = keep_empty cs m i f g l
keep cs m i p e m' p' (read_more {w} f) g l =
    quiet cs m i (tail_read w) (tail_unlock w m.tail) refl g (record {
      own = tt;
      head_lock = l.head_lock;
      tail_lock = l.tail_lock;
      head_held = ground (arith, l.head_held);
      tail_held = ground (arith, l.tail_held);
      tail = l.tail;
      popping = λ ne. ne;
    })
keep cs m i p e m' p' (unlock_tail {w} {t}) g l =
    keep_relock cs m i (tail_unlock w t) (compare w t) m.head_mutex none m.asleep refl
      (unchanged i m.head_mutex) (unlocks i m.tail_mutex l.tail_lock) (λ h. l.tail) g
      (record {
        own = tt;
        head_lock = l.head_lock;
        tail_lock = tt;
        head_held = ground (arith, l.head_held);
        tail_held = ground (arith, l.tail_held);
        tail = tt;
        popping = l.popping;
      })
keep cs m i p e m' p' (find_empty {t} f) g l =
    quiet cs m i (compare trying t) unlock_empty refl g (ground (arith, l.head_lock))
keep cs m i p e m' p' give_up g l =
    keep_relock cs m i unlock_empty (returned none) none m.tail_mutex m.asleep refl
      (unlocks i m.head_mutex l.head_lock) (unchanged i m.tail_mutex) g.quiet_tail g (ground arith)
keep cs m i p e m' p' (fall_asleep {t} f) g l =
    keep_relock cs m i (compare waiting t) sleeping none m.tail_mutex (i ∷ m.asleep) refl
      (unlocks i m.head_mutex l.head_lock) (unchanged i m.tail_mutex) g.quiet_tail g (ground arith)
keep cs m i p e m' p' (wake f) g l = quiet cs m i sleeping (pop_lock waiting) refl g (ground arith)
keep cs m i p e m' p' wake_for_nothing g l =
    keep_relock cs m i sleeping (pop_lock waiting) m.head_mutex m.tail_mutex (erase i m.asleep) refl
      (unchanged i m.head_mutex) (unchanged i m.tail_mutex) g.quiet_tail g (ground arith)
keep cs m i p e m' p' (find_more {w} {t} f) g l =
    quiet cs m i (compare w t) advance refl g (record {
      own = tt;
      head_lock = l.head_lock;
      tail_lock = tt;
      head_held = ground (arith, l.head_held);
      tail_held = ground (arith, l.tail_held);
      tail = tt;
      popping = l.popping f;
    })
keep cs m i p e m' p' (step_head {n} {x} f h) g l = keep_step cs m i n x f h g l
keep cs m i p e m' p' (unlock {a} {n} {x}) g l =
    keep_relock cs m i (unlock_head a n x) (take a n x) none m.tail_mutex m.asleep refl
      (unlocks i m.head_mutex l.head_lock) (unchanged i m.tail_mutex) g.quiet_tail g
      (record {
        own = l.own;
        head_lock = tt;
        tail_lock = tt;
        head_held = ground (arith, l.head_held);
        tail_held = ground (arith, l.tail_held);
        tail = tt;
        popping = l.popping;
      })
keep cs m i p e m' p' (take_item {a} {n} {k} {x} {y} f h) g l =
    quiet cs m i (take a n x) (destroy a n y) refl g (record {
      own = l.own;
      head_lock = tt;
      tail_lock = tt;
      head_held = ground (arith, l.head_held);
      tail_held = ground (arith, l.tail_held);
      tail = tt;
      popping = ground (arith, l.own.0);
    })
keep cs m i p e m' p' (destroy_item {a} {n} {k} {y} f) g l = keep_destroy cs m i a n k y f g l
keep cs m i p e m' p' (delete_node {a} {n} {y}) g l = keep_delete cs m i a n y g l
keep cs m i p e m' p' (leave {r}) g l = quiet cs m i (returned r) idle refl g (ground arith)
