-- ===== src/HazardStack.antt =====
-- cpp/concurrency/concurrent_data_structure/lockfree_stack_hazard_pointer.cpp: `lockfree_stack` with hazard
-- pointers, one access to shared memory at a time, for any number of threads.
pub mod Roles
pub mod Invariant
pub mod Frames
pub mod Keeping
pub mod Writes
pub mod Lists
pub mod Looking
pub mod Steps
pub mod Linearizable
mod Tests
use cs_learning_notes.Base.{ℕ, suc, ◌<◌, ◌≡◌, ◌≢◌, Option, none, some, update}
use cs_learning_notes.Containers.{Event, put, took, empty}
use cs_learning_notes.StackNode.{Node, Heap, null}

abbrev pub max_hazard_pointers : ℕ
max_hazard_pointers = 100

-- `ids` and `ptrs` are the members of the array `hazard_pointers`; a default `std::thread::id` is
-- `none`. `hazard` is the `hp_owner` of each thread, where it has been made.
pub record Memory (A : Type 0) : Type 0 where
  pub head : ℕ
  pub nodes_to_reclaim : ℕ
  pub nodes : Heap A
  pub ids : ℕ → Option ℕ
  pub ptrs : ℕ → ℕ
  pub hazard : ℕ → Option ℕ

abbrev pub init : {A : Type 0} → Memory A
init = record {
  head = null;
  nodes_to_reclaim = null;
  nodes = λ _. none;
  ids = λ _. none;
  ptrs = λ _. null;
  hazard = λ _. none;
}

-- Where `pop` goes on when it is done with a node: to `delete_node_with_no_hazards`, or to the next
-- node in there.
pub data Then : Type 0 where
  reclaim : Then
  go_on : (next : ℕ) → Then

-- Where a thread stands, with its local variables; `hp` is the spot of its hazard pointer and `r` the
-- result of `pop`. A test of a local variable belongs to the access before it.
pub data Pc (A : Type 0) : Type 0 where
  idle : Pc A
  push_load : (x : A) → Pc A
  push_new : (x : A) (expected : ℕ) → Pc A
  push_cas : (x : A) (new_node expected : ℕ) → Pc A
  pop_load : Pc A
  get_hazard : (old_head : ℕ) → Pc A
  claim : (spot old_head : ℕ) → Pc A
  protect : (hp old_head : ℕ) → Pc A
  reload : (hp temp : ℕ) → Pc A
  read_next : (hp old_head : ℕ) → Pc A
  pop_cas : (hp old_head : ℕ) (n : Node A) → Pc A
  clear : (hp : ℕ) → Pc A
  clear_won : (hp old_head : ℕ) (x : A) → Pc A
  take : (old_head : ℕ) (x : A) → Pc A
  scan : (p spot : ℕ) (t : Then) (r : Option A) → Pc A
  add_load : (p : ℕ) (t : Then) (r : Option A) → Pc A
  add_write : (p new_next : ℕ) (t : Then) (r : Option A) → Pc A
  add_cas : (p expected : ℕ) (t : Then) (r : Option A) → Pc A
  exchange : (r : Option A) → Pc A
  drain : (curr : ℕ) (r : Option A) → Pc A
  returned : (r : Option A) → Pc A
  exit_id : (hp : ℕ) → Pc A

abbrev pub resume : {A : Type 0} → Then → Option A → Pc A
resume reclaim r = exchange r
resume (go_on next) r = drain next r

-- One step. A weak compare-exchange may fail at any time, and an allocation may take any free address.
-- The item that `clear_won` and `take` carry is the one that the abstract stack gave; the code reads
-- its own from the node.
pub data Move {A : Type 0} (i : ℕ) (m : Memory A)
    : Pc A → Option (Event A) → Memory A → Pc A → Type 0 where
  push_begin : (x : A) → Move i m idle none m (push_load x)
  push_head : {x : A} → Move i m (push_load x) none m (push_new x m.head)
  allocate :
      {x : A} {e : ℕ} (p : ℕ)
      → m.nodes p ≡ none
      → p ≢ null
      → Move i m
          (push_new x e)
          none
          (record m { nodes = update m.nodes p (some (record { data_ = x; next = e })) })
          (push_cas x p e)
  push_win :
      {x : A} {p e : ℕ}
      → m.head ≡ e
      → Move i m (push_cas x p e) (some (put x)) (record m { head = p }) idle
  push_fail :
      {x : A} {p e : ℕ} {n : Node A}
      → m.nodes p ≡ some n
      → Move i m
          (push_cas x p e)
          none
          (record m { nodes = update m.nodes p (some (record n { next = m.head })) })
          (push_cas x p m.head)
  pop_begin : Move i m idle none m pop_load
  pop_head : Move i m pop_load none m (get_hazard m.head)
  has_hazard : {a k : ℕ} → m.hazard i ≡ some k → Move i m (get_hazard a) none m (protect k a)
  no_hazard : {a : ℕ} → m.hazard i ≡ none → Move i m (get_hazard a) none m (claim 0 a)
  claim_free :
      {k a : ℕ}
      → k < max_hazard_pointers
      → m.ids k ≡ none
      → Move i m
          (claim k a)
          none
          (record m { ids = update m.ids k (some i); hazard = update m.hazard i (some k) })
          (protect k a)
  claim_taken :
      {k a j : ℕ}
      → k < max_hazard_pointers
      → m.ids k ≡ some j
      → Move i m (claim k a) none m (claim (suc k) a)
  -- The exception leaves `pop`.
  claim_throw : {k a : ℕ} → k ≡ max_hazard_pointers → Move i m (claim k a) none m idle
  store_hazard :
      {k a : ℕ} → Move i m (protect k a) none (record m { ptrs = update m.ptrs k a }) (reload k a)
  changed : {k a : ℕ} → m.head ≢ a → Move i m (reload k a) none m (protect k m.head)
  same_null : {k a : ℕ} → m.head ≡ a → a ≡ null → Move i m (reload k a) (some empty) m (clear k)
  same_node : {k a : ℕ} → m.head ≡ a → a ≢ null → Move i m (reload k a) none m (read_next k a)
  load_next :
      {k a : ℕ} {n : Node A} → m.nodes a ≡ some n → Move i m (read_next k a) none m (pop_cas k a n)
  pop_win :
      {k a : ℕ} {n : Node A}
      → m.head ≡ a
      → Move i m
          (pop_cas k a n)
          (some (took n.data_))
          (record m { head = n.next })
          (clear_won k a n.data_)
  pop_fail :
      {k a : ℕ} {n : Node A} → m.head ≢ a → Move i m (pop_cas k a n) none m (protect k m.head)
  clear_empty :
      {k : ℕ} → Move i m (clear k) none (record m { ptrs = update m.ptrs k null }) (exchange none)
  clear_node :
      {k a : ℕ} {x : A}
      → Move i m (clear_won k a x) none (record m { ptrs = update m.ptrs k null }) (take a x)
  emplace :
      {a : ℕ} {x : A} {n : Node A}
      → m.nodes a ≡ some n
      → Move i m (take a x) none m (scan a 0 reclaim (some n.data_))
  scan_found :
      {a k : ℕ} {t : Then} {r : Option A}
      → k < max_hazard_pointers
      → m.ptrs k ≡ a
      → Move i m (scan a k t r) none m (add_load a t r)
  scan_more :
      {a k : ℕ} {t : Then} {r : Option A}
      → k < max_hazard_pointers
      → m.ptrs k ≢ a
      → Move i m (scan a k t r) none m (scan a (suc k) t r)
  delete_node :
      {a k : ℕ} {t : Then} {r : Option A}
      → k ≡ max_hazard_pointers
      → Move i m (scan a k t r) none (record m { nodes = update m.nodes a none }) (resume t r)
  load_list :
      {a : ℕ} {t : Then} {r : Option A}
      → Move i m (add_load a t r) none m (add_write a m.nodes_to_reclaim t r)
  write_next :
      {a e : ℕ} {t : Then} {r : Option A} {n : Node A}
      → m.nodes a ≡ some n
      → Move i m
          (add_write a e t r)
          none
          (record m { nodes = update m.nodes a (some (record n { next = e })) })
          (add_cas a e t r)
  add_win :
      {a e : ℕ} {t : Then} {r : Option A}
      → m.nodes_to_reclaim ≡ e
      → Move i m (add_cas a e t r) none (record m { nodes_to_reclaim = a }) (resume t r)
  add_fail :
      {a e : ℕ} {t : Then} {r : Option A}
      → Move i m (add_cas a e t r) none m (add_write a m.nodes_to_reclaim t r)
  take_list :
      {r : Option A}
      → Move i m
          (exchange r)
          none
          (record m { nodes_to_reclaim = null })
          (drain m.nodes_to_reclaim r)
  drain_done : {a : ℕ} {r : Option A} → a ≡ null → Move i m (drain a r) none m (returned r)
  drain_node :
      {a : ℕ} {r : Option A} {n : Node A}
      → a ≢ null
      → m.nodes a ≡ some n
      → Move i m (drain a r) none m (scan a 0 (go_on n.next) r)
  leave : {r : Option A} → Move i m (returned r) none m idle
  exit_begin :
      {k : ℕ}
      → m.hazard i ≡ some k
      → Move i m idle none (record m { ptrs = update m.ptrs k null }) (exit_id k)
  exit_end :
      {k : ℕ}
      → Move i m
          (exit_id k)
          none
          (record m { ids = update m.ids k none; hazard = update m.hazard i none })
          idle
