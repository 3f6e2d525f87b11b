-- ===== src/LockedQueue/Steps/Unreached.antt =====
-- `threadsafe_queue` of cpp/concurrency/concurrent_data_structure/threadsafe_queue.cpp: which nodes are
-- allocated.
use cs_learning_notes.Base.{
  ℕ, ◌≡◌, ◌≢◌, sym, subst, Option, none, List, [], arith, update, update_self,
}
use cs_learning_notes.Chain.{Cell, Outside, Outside-unsnoc, values}
use cs_learning_notes.Interleaving.{System, Sound, Reach-Sound-all}
use cs_learning_notes.Containers.{Event, Fifo}
use cs_learning_notes.QueueNode.{NotAt, Free, NotAt-update, delete-Free}
use cs_learning_notes.LockedQueue.{
  Memory, Pc, Move, init, idle, push_new, emplace, link, swing, step_head, destroy_item,
  delete_node,
}
use cs_learning_notes.LockedQueue.Invariant.{Global, Local, Pair, owned}
use cs_learning_notes.LockedQueue.Frames.{keep_relock-cells, quiet-cells}
use cs_learning_notes.LockedQueue.Pushing.{
  keep_new-cells, keep_emplace-cells, keep_link-cells, keep_swing-cells,
}
use cs_learning_notes.LockedQueue.Popping.{
  keep_step-cells, keep_destroy-cells, keep_delete-cells, keep_empty-cells,
}
use cs_learning_notes.LockedQueue.Steps.{keep}
use cs_learning_notes.LockedQueue.Linearizable.{Reaches, init-Global, init-Local}

-- Which chain the steps that leave the chain alone keep.
ruleset cells = (
  keep_relock-cells, quiet-cells, keep_new-cells, keep_emplace-cells, keep_link-cells,
  keep_destroy-cells, keep_delete-cells, keep_empty-cells,
)

module _ {A : Type 0} (cs : List (Cell A)) (m : Memory A) (i : ℕ) where
  -- A step frees what it lets go.
  keep-Free :
      (p : Pc A) (e : Option (Event A)) (m' : Memory A) (p' : Pc A) (mv : Move i m p e m' p')
      (g : Global cs m) (l : Local cs m i p) (a : ℕ)
      → Free m.nodes cs m.tail a (owned p)
      → Free m'.nodes ((keep cs m i p e m' p' mv g l).x') m'.tail a (owned p')
  unfolding keep
  keep-Free p e m' p' (push_new b x f nn) g l a free o t n =
      ground (arith, free (simp cells at o) t tt)
  keep-Free p e m' p' (emplace f) g l a free o t n = ground (arith, free (simp cells at o) t n)
  keep-Free p e m' p' (link f) g l a free o t n = ground (arith, free (simp cells at o) t n)
  keep-Free p e m' p' (swing {x} {p = b}) g l a free o t n =
      let (o', ne) = Outside-unsnoc a m.tail x cs (rw keep_swing-cells at o) in free o' ne t
  keep-Free p e m' p' (step_head {n = k} {x} f h) g l a free o t n =
      let (y, same) = keep_step-cells cs m i k x f h g l in
      free (subst (λ c. Outside a c) (sym same) (n, o)) t tt
  keep-Free p e m' p' (destroy_item f) g l a free o t n = ground (arith, free (simp cells at o) t n)
  keep-Free p e m' p' (delete_node {a = b}) g l a free o t n =
      delete-Free m.nodes a b (free (simp cells at o) t)
  keep-Free p e m' p' _ g l a free o t n = free (simp cells at o) t n

module _ {A : Type 0} where
  -- What is neither in the queue nor held by a thread is not allocated.
  abbrev pub Unreached : List (Cell A) → System (Memory A) (Pc A) → Type 0
  Unreached cs s =
      (a : ℕ)
      → Outside a cs
      → a ≢ s.mem.tail
      → ((j : ℕ) → NotAt a (owned (s.pc j)))
      → s.mem.nodes a ≡ none

  keep-Unreached :
      (cs : List (Cell A)) (s : System (Memory A) (Pc A)) (i : ℕ) (e : Option (Event A))
      (m : Memory A) (p : Pc A) (mv : Move i s.mem (s.pc i) e m p) (g : Global cs s.mem)
      (l : Local cs s.mem i (s.pc i))
      → Unreached cs s
      → Unreached
          ((keep cs s.mem i (s.pc i) e m p mv g l).x')
          (record { mem = m; pc = update s.pc i p })
  keep-Unreached cs s i e m p mv g l all a o t n =
      keep-Free cs s.mem i (s.pc i) e m p mv g l a
        (λ o' t' n'. all a o' t' (NotAt-update owned s.pc i a p n n')) o t
        (subst (λ q. NotAt a (owned q)) (update_self s.pc i p) (n i))

  pub locked-Unreached :
      {tr : List (Event A)} {s : System (Memory A) (Pc A)}
      → Reaches tr s
      → (h : Sound values Fifo Global Local Pair [] tr s) × Unreached h.x s
  locked-Unreached r =
      Reach-Sound-all values Fifo Global Local Pair Move init idle [] init-Global init-Local
        (λ i j. tt) keep Unreached (λ a o t n. ground arith) keep-Unreached r
