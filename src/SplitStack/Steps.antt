-- ===== src/SplitStack/Steps.antt =====
-- Every step of the stack with split counts keeps its invariant.
use cs_learning_notes.Base.{ℕ, refl, Option, some}
use cs_learning_notes.Interleaving.{Kept}
use cs_learning_notes.Containers.{Event, Lifo}
use cs_learning_notes.SplitStack.{
  Memory, Pc, Move, idle, push_load, push_new, pop_load, pop_acquire, pop_next, pop_cas, pop_take,
  pop_merge, pop_delete, pop_release, retry_delete, returned, push_begin, push_head, allocate,
  push_win, push_fail, pop_begin, pop_head, acquire_fail, acquire_null, acquire_node, load_next,
  pop_win, pop_fail, emplace, merge_last, merge_more, delete_popped, release_last, release_more,
  delete_released, leave,
}
use cs_learning_notes.SplitStack.Invariant.{View, items, Global, Local, Pair}
use cs_learning_notes.SplitStack.Frames.{quiet}
use cs_learning_notes.SplitStack.Writes.{keep_allocate, keep_push_fail, keep_push, keep_empty}
use cs_learning_notes.SplitStack.Holders.{
  keep_acquire, keep_pop, keep_release, keep_release_last, keep_merge_last, keep_merge_more,
  keep_delete,
}

-- Each step of any thread keeps what is known, and does to the stack what its event says.
pub keep :
    {A : Type 0} (x : View A) (m : Memory A) (i : ℕ) (p : Pc A) (e : Option (Event A))
    (m' : Memory A) (p' : Pc A)
    → Move i m p e m' p'
    → Global x m
    → Local x m i p
    → Kept items Lifo Global Local Pair x m i p e m' p'
keep x m i p e m' p' (push_begin y) g l =
    quiet x m i idle (push_load y) g
      (record { holds = l.holds; owns = tt; only = l.only; knows = tt })
keep x m i p e m' p' (push_head {x = y}) g l =
    quiet x m i (push_load y) (push_new y m.head) g
      (record { holds = l.holds; owns = tt; only = l.only; knows = tt })
keep x m i p e m' p' (allocate {x = y} {l = k} q f ne) g l = keep_allocate x m i y k q f ne g l
keep x m i p e m' p' (push_win {x = y} {p = q} {l = k} f) g l = keep_push x m i y q k f g l
keep x m i p e m' p' (push_fail {x = y} {p = q} {l = k} {n} f) g l =
    keep_push_fail x m i y q k n f g l
keep x m i p e m' p' pop_begin g l =
    quiet x m i idle pop_load g (record { holds = l.holds; owns = tt; only = l.only; knows = tt })
keep x m i p e m' p' pop_head g l =
    quiet x m i pop_load (pop_acquire m.head) g
      (record { holds = l.holds; owns = tt; only = l.only; knows = tt })
keep x m i p e m' p' (acquire_fail {l = k} f) g l =
    quiet x m i (pop_acquire k) (pop_acquire m.head) g
      (record { holds = l.holds; owns = tt; only = l.only; knows = tt })
keep x m i p e m' p' (acquire_null {l = k} f lt z) g l = keep_empty x m i k f z g l
keep x m i p e m' p' (acquire_node {l = k} f lt ne) g l = keep_acquire x m i k f lt ne g l
keep x m i p e m' p' (load_next {c} {a} {n} f) g l =
    quiet x m i (pop_next c a) (pop_cas c a n.next) g
      (record { holds = l.holds; owns = tt; only = l.only; knows = (n, f, refl) })
keep x m i p e m' p' (pop_win {c} {a} {l = k} {n} f h) g l = keep_pop x m i c a k n f h g l
keep x m i p e m' p' (pop_fail {c} {a} {l = k} f) g l =
    quiet x m i (pop_cas c a k) (pop_release a m.head) g
      (record { holds = l.holds; owns = tt; only = l.only; knows = tt })
keep x m i p e m' p' (emplace {c} {a} {x = y} {n} f) g l =
    quiet x m i (pop_take c a y) (pop_merge c a n.data_) g
      (record { holds = l.holds; owns = l.owns; only = l.only; knows = tt })
keep x m i p e m' p' (merge_last {c} {a} {r} f h) g l = keep_merge_last x m i c a r h g l
keep x m i p e m' p' (merge_more {c} {a} {r} f h) g l = keep_merge_more x m i c a r h g l
keep x m i p e m' p' (delete_popped {a} {r} f) g l =
    keep_delete x m i (pop_delete a r) (returned (some r)) a refl refl refl refl tt g l
keep x m i p e m' p' (release_last {a} {l = k} f h) g l = keep_release_last x m i a k h g l
keep x m i p e m' p' (release_more {a} {l = k} f h) g l = keep_release x m i a k h g l
keep x m i p e m' p' (delete_released {a} {l = k} f) g l =
    keep_delete x m i (retry_delete a k) (pop_acquire k) a refl refl refl refl tt g l
keep x m i p e m' p' (leave {r}) g l =
    quiet x m i (returned r) idle g
      (record { holds = l.holds; owns = tt; only = l.only; knows = tt })
