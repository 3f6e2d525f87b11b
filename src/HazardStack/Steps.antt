-- ===== src/HazardStack/Steps.antt =====
-- Every step of the hazard-pointer stack keeps its invariant.
use cs_learning_notes.Base.{ℕ, suc, ◌<◌, ◌≡◌, ◌≢◌, refl, Option, none, some, arith, update}
use cs_learning_notes.Interleaving.{Kept}
use cs_learning_notes.Containers.{Event, Lifo}
use cs_learning_notes.StackNode.{null}
use cs_learning_notes.HazardStack.{
  Memory, Pc, Move, Then, idle, push_load, push_new, pop_load, get_hazard, claim, protect, reload,
  pop_cas, clear, clear_won, take, scan, add_load, add_write, add_cas, exchange, drain, returned,
  exit_id, reclaim, go_on, max_hazard_pointers, push_begin, push_head, allocate, push_win,
  push_fail, pop_begin, pop_head, has_hazard, no_hazard, claim_free, claim_taken, claim_throw,
  store_hazard, changed, same_null, same_node, load_next, pop_win, pop_fail, clear_empty,
  clear_node, emplace, scan_found, scan_more, delete_node, load_list, write_next, add_win, add_fail,
  take_list, drain_done, drain_node, leave, exit_begin, exit_end,
}
use cs_learning_notes.HazardStack.Looking.{
  passed, quiet, keep_store, keep_protect, keep_read, drained-Local,
}
use cs_learning_notes.HazardStack.Invariant.{
  View, items, Global, Local, Pair, Covered, protected, scanned, anything, link, later, Pending,
}
use cs_learning_notes.HazardStack.Keeping.{K, keeps, settles, Frame-refl}
use cs_learning_notes.HazardStack.Writes.{
  keep_allocate, keep_push_fail, keep_write_next, keep_delete,
}
use cs_learning_notes.HazardStack.Lists.{keep_push, keep_pop, keep_add, keep_take, keep_empty}

from_start : (o : Option (ℕ × ℕ)) (a : ℕ) → Covered o (some (a, 0))
from_start none a = tt
from_start (some (k, b)) a = λ e. omega arith

module _ {A : Type 0} (x : View A) (m : Memory A) (i : ℕ) where
  -- A thread starts to look for its node among the hazard pointers.
  keep_scan :
      (p : Pc A) (a : ℕ) (t : Then) (r : Option A)
      → Global x m
      → Local x m i (scan a 0 t r)
      → K x m i p none m (scan a 0 t r)
  keep_scan p a t r g l =
      keeps x m i none x p none m (scan a 0 t r) refl g l (Frame-refl x m i) (λ j q ne lj c. tt)
        (λ j q ne lj c. (from_start (protected q) a, tt))

  keep_scan_more :
      (a k : ℕ) (t : Then) (r : Option A)
      → m.ptrs k ≢ a
      → Global x m
      → Local x m i (scan a k t r)
      → K x m i (scan a k t r) none m (scan a (suc k) t r)
  keep_scan_more a k t r f g l =
      keeps x m i none x (scan a k t r) none m (scan a (suc k) t r) refl g (ground arith)
        (Frame-refl x m i) (λ j q ne lj c. tt) (λ j q ne lj c. (passed x m j a k q f lj c, tt))

  -- A spot that no other thread has is taken or given back.
  keep_ids :
      (p p' : Pc A) (k : ℕ) (o o' : Option ℕ)
      → protected p' ≡ none
      → scanned p' ≡ none
      → ((j : ℕ) → i ≢ j → m.ids k ≢ some j)
      → Global x m
      → Local x (record m { ids = update m.ids k o; hazard = update m.hazard i o' }) i p'
      → K x m i p none (record m { ids = update m.ids k o; hazard = update m.hazard i o' }) p'
  keep_ids p p' k o o' np ns mine g l =
      settles x m i x p none (record m { ids = update m.ids k o; hazard = update m.hazard i o' }) p'
        np ns refl
        (record {
          chain = g.chain;
          stacked = g.stacked;
          distinct = g.distinct;
          list = g.list;
          listed = g.listed;
          list_distinct = g.list_distinct;
          free = g.free;
          no_null = g.no_null;
        })
        l
        (record {
          ids = λ c j ne e. ground (arith, mine j ne);
          ptrs = λ c j ne e. refl;
          hazard = λ j ne. ground arith;
          held = λ a j ne h. (refl, refl);
          seen = λ a n al s e. (s, n, e);
          same = λ a n al s h. h;
        })

  keep_claim :
      (k a : ℕ)
      → k < max_hazard_pointers
      → m.ids k ≡ none
      → Global x m
      → Local x m i (claim k a)
      → K x m i
          (claim k a)
          none
          (record m { ids = update m.ids k (some i); hazard = update m.hazard i (some k) })
          (protect k a)
  keep_claim k a below f g l =
      keep_ids (claim k a) (protect k a) k (some i) (some k) refl refl (λ j ne. ground arith) g
        (record {
          spot = λ c h. ground arith;
          uses = ground arith;
          makes = tt;
          stores = tt;
          protects = tt;
          reads = tt;
          spends = tt;
          pends = tt;
        })

  keep_exit :
      (k : ℕ)
      → Global x m
      → Local x m i (exit_id k)
      → K x m i
          (exit_id k)
          none
          (record m { ids = update m.ids k none; hazard = update m.hazard i none })
          idle
  keep_exit k g l =
      keep_ids (exit_id k) idle k none none refl refl (λ j ne. ground (arith, l.spot k)) g
        (record {
          spot = λ c h. ground arith;
          uses = tt;
          makes = tt;
          stores = tt;
          protects = tt;
          reads = tt;
          spends = tt;
          pends = tt;
        })

-- Each step of any thread keeps what is known, and does to the stack what its event says.
pub keep :
    {A : Type 0} (x : View A) (m : Memory A) (i : ℕ) (p : Pc A) (e : Option (Event A))
    (m' : Memory A) (p' : Pc A)
    → Move i m p e m' p'
    → Global x m
    → Local x m i p
    → Kept items Lifo Global Local Pair x m i p e m' p'
keep x m i p e m' p' (push_begin y) g l = quiet x m i idle (push_load y) refl refl g (ground arith)
keep x m i p e m' p' (push_head {x = y}) g l =
    quiet x m i (push_load y) (push_new y m.head) refl refl g (ground arith)
keep x m i p e m' p' (allocate {x = y} {e = h} a f nn) g l = keep_allocate x m i y h a f nn g l
keep x m i p e m' p' (push_win {x = y} {p = a} {e = h} f) g l = keep_push x m i y a h f g l
keep x m i p e m' p' (push_fail {x = y} {p = a} {e = h} {n} f) g l =
    keep_push_fail x m i y a h n f g l
keep x m i p e m' p' pop_begin g l = quiet x m i idle pop_load refl refl g (ground arith)
keep x m i p e m' p' pop_head g l =
    quiet x m i pop_load (get_hazard m.head) refl refl g (ground arith)
keep x m i p e m' p' (has_hazard {a} {k} h) g l =
    quiet x m i (get_hazard a) (protect k a) refl refl g (ground arith)
keep x m i p e m' p' (no_hazard {a} h) g l =
    quiet x m i (get_hazard a) (claim 0 a) refl refl g (ground arith)
keep x m i p e m' p' (claim_free {k} {a} b f) g l = keep_claim x m i k a b f g l
keep x m i p e m' p' (claim_taken {k} {a} b f) g l =
    quiet x m i (claim k a) (claim (suc k) a) refl refl g (ground arith)
keep x m i p e m' p' (claim_throw {k} {a} f) g l =
    quiet x m i (claim k a) idle refl refl g (ground arith)
keep x m i p e m' p' (store_hazard {k} {a}) g l =
    keep_store x m i (protect k a) (reload k a) k a refl refl (l.spot k l.uses).0 g (ground arith)
keep x m i p e m' p' (changed {k} {a} f) g l =
    quiet x m i (reload k a) (protect k m.head) refl refl g (ground arith)
keep x m i p e m' p' (same_null {k} {a} f nil) g l = keep_empty x m i k a f nil g l
keep x m i p e m' p' (same_node {k} {a} f nn) g l = keep_protect x m i k a f nn g l
keep x m i p e m' p' (load_next {k} {a} {n} f) g l = keep_read x m i k a n f g l
keep x m i p e m' p' (pop_win {k} {a} {n} f) g l = keep_pop x m i k a n f g l
keep x m i p e m' p' (pop_fail {k} {a} {n} f) g l =
    quiet x m i (pop_cas k a n) (protect k m.head) refl refl g (ground arith)
keep x m i p e m' p' (clear_empty {k}) g l =
    keep_store x m i (clear k) (exchange none) k null refl refl (l.spot k l.uses).0 g (ground arith)
keep x m i p e m' p' (clear_node {k} {a} {x = y}) g l =
    keep_store x m i (clear_won k a y) (take a y) k null refl refl (l.spot k l.uses).0 g
      (ground arith)
keep x m i p e m' p' (emplace {a} {x = y} {n} f) g l =
    keep_scan x m i (take a y) a reclaim (some n.data_) g (record {
      spot = l.spot;
      uses = tt;
      makes = tt;
      stores = tt;
      protects = tt;
      reads = tt;
      spends = (l.spends.0, n, f, tt);
      pends = tt;
    })
keep x m i p e m' p' (scan_found {a} {k} {t} {r} b f) g l =
    quiet x m i (scan a k t r) (add_load a t r) refl refl g (ground arith)
keep x m i p e m' p' (scan_more {a} {k} {t} {r} b f) g l = keep_scan_more x m i a k t r f g l
keep x m i p e m' p' (delete_node {a} {k} {t} {r} f) g l = keep_delete x m i a k t r f g l
keep x m i p e m' p' (load_list {a} {t} {r}) g l =
    quiet x m i (add_load a t r) (add_write a m.nodes_to_reclaim t r) refl refl g (ground arith)
keep x m i p e m' p' (write_next {a} {e = h} {t} {r} {n} f) g l =
    keep_write_next x m i a h t r n f g l
keep x m i p e m' p' (add_win {a} {e = h} {t} {r} f) g l = keep_add x m i a h t r f g l
keep x m i p e m' p' (add_fail {a} {e = h} {t} {r}) g l =
    quiet x m i (add_cas a h t r) (add_write a m.nodes_to_reclaim t r) refl refl g (record {
      spot = l.spot;
      uses = tt;
      makes = tt;
      stores = tt;
      protects = tt;
      reads = tt;
      spends = (l.spends.0, l.spends.1, l.spends.2, tt);
      pends = dropped (later t) l.pends;
    })
  where
    dropped :
        (o : Option ℕ) → Pending x m i o (some (a, link h)) → Pending x m i o (some (a, anything))
    dropped none z = z
    dropped (some b) z = z
keep x m i p e m' p' (take_list {r}) g l = keep_take x m i r g l
keep x m i p e m' p' (drain_done {a} {r} f) g l =
    quiet x m i (drain a r) (returned r) refl refl g (ground arith)
keep x m i p e m' p' (drain_node {a} {r} {n} nn f) g l =
    keep_scan x m i (drain a r) a (go_on n.next) r g (drained-Local x m i a r n nn f g l)
keep x m i p e m' p' (leave {r}) g l = quiet x m i (returned r) idle refl refl g (ground arith)
keep x m i p e m' p' (exit_begin {k} h) g l =
    keep_store x m i idle (exit_id k) k null refl refl (l.spot k h).0 g (ground arith)
keep x m i p e m' p' (exit_end {k}) g l = keep_exit x m i k g l
