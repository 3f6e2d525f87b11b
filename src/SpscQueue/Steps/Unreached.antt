-- ===== src/SpscQueue/Steps/Unreached.antt =====
-- `waitfree_spsc_queue` of cpp/concurrency/concurrent_data_structure/spsc_queue_unbounded.cpp: which nodes
-- are allocated.
use cs_learning_notes.Base.{
  ℕ, ◌≡◌, sym, ◌∙◌, ◌≢◌, subst, Option, none, List, [], arith, update, update_self,
}
use cs_learning_notes.Chain.{Cell, Outside, Outside-unsnoc, values}
use cs_learning_notes.Interleaving.{System, Sound, Reach-Sound-all}
use cs_learning_notes.Containers.{Event, Fifo}
use cs_learning_notes.QueueNode.{NotAt, Free, NotAt-update, delete-Free}
use cs_learning_notes.SpscQueue.{
  Memory, Pc, Move, init, idle, push_new, load_tail, construct, link, store_tail, pop_begin,
  load_empty, load_more, advance, take, destroy, delete, leave,
}
use cs_learning_notes.SpscQueue.Invariant.{Global, Local, Pair, owned}
use cs_learning_notes.SpscQueue.Frames.{quiet}
use cs_learning_notes.SpscQueue.Steps.{
  keep, head_cell, keep_new, keep_construct, keep_link, keep_store, keep_advance, keep_destroy,
  keep_delete, keep_empty,
}
use cs_learning_notes.SpscQueue.Linearizable.{Reaches, init-Global, init-Local}

module _ {A : Type 0} (cs : List (Cell A)) (m : Memory A) (i : ℕ) where
  -- A step frees what it lets go.
  keep-Free :
      (p : Pc A) (e : Option (Event A)) (m' : Memory A) (p' : Pc A) (mv : Move i m p e m' p')
      (g : Global cs m) (l : Local cs m i p) (a : ℕ)
      → Free m.nodes cs m.tail a (owned p)
      → Free m'.nodes ((keep cs m i p e m' p' mv g l).x') m'.tail a (owned p')
  unfolding keep quiet keep_new keep_construct keep_link keep_store keep_advance keep_destroy
      keep_delete keep_empty
  keep-Free p e m' p' (push_new x r f nn) g l a free o t n = ground (arith, free o t tt)
  keep-Free p e m' p' load_tail g l a free o t n = free o t n
  keep-Free p e m' p' (construct f) g l a free o t n = ground (arith, free o t n)
  keep-Free p e m' p' (link f) g l a free o t n = ground (arith, free o t n)
  keep-Free p e m' p' (store_tail {x} {p = b} {t = old_tail}) g l a free o t n =
      let (o', ne) = Outside-unsnoc a old_tail x cs o in
      free o' (λ z. ne (z ∙ sym (l.tail l.role).0)) t
  keep-Free p e m' p' (pop_begin r) g l a free o t n = free o t n
  keep-Free p e m' p' (load_empty h) g l a free o t n = free o t n
  keep-Free p e m' p' (load_more h) g l a free o t n = free o t n
  keep-Free p e m' p' (advance {n = k} {x} f h) g l a free o t n =
      let (y, r, ds, same, pts, c) = head_cell cs m i g l.popping in
      free (subst (λ c. Outside a c) (sym same) (n, o)) t tt
  keep-Free p e m' p' (take f h) g l a free o t n = free o t n
  keep-Free p e m' p' (destroy f) g l a free o t n = ground (arith, free o t n)
  keep-Free p e m' p' (delete {a = b}) g l a free o t n = delete-Free m.nodes a b (free o t)
  keep-Free p e m' p' leave g l a free o t n = free o t n

module _ {A : Type 0} where
  -- What is neither in the queue nor held by a thread is not allocated.
  abbrev pub Unreached : List (Cell A) → System (Memory A) (Pc A) → Type 0
  Unreached cs s =
      (a : ℕ)
      → Outside a cs
      → a ≢ s.mem.tail
      → ((j : ℕ) → NotAt a (owned (s.pc j)))
      → s.mem.nodes a ≡ none

  keep-Unreached :
      (cs : List (Cell A)) (s : System (Memory A) (Pc A)) (i : ℕ) (e : Option (Event A))
      (m : Memory A) (p : Pc A) (mv : Move i s.mem (s.pc i) e m p) (g : Global cs s.mem)
      (l : Local cs s.mem i (s.pc i))
      → Unreached cs s
      → Unreached
          ((keep cs s.mem i (s.pc i) e m p mv g l).x')
          (record { mem = m; pc = update s.pc i p })
  keep-Unreached cs s i e m p mv g l all a o t n =
      keep-Free cs s.mem i (s.pc i) e m p mv g l a
        (λ o' t' n'. all a o' t' (NotAt-update owned s.pc i a p n n')) o t
        (subst (λ q. NotAt a (owned q)) (update_self s.pc i p) (n i))

  pub spsc-Unreached :
      {tr : List (Event A)} {s : System (Memory A) (Pc A)}
      → Reaches tr s
      → (h : Sound values Fifo Global Local Pair [] tr s) × Unreached h.x s
  spsc-Unreached r =
      Reach-Sound-all values Fifo Global Local Pair Move init idle [] init-Global init-Local
        (λ i j. tt) keep Unreached (λ a o t n. ground arith) keep-Unreached r
