-- ===== src/SpscQueue.antt =====
-- cpp/concurrency/concurrent_data_structure/spsc_queue_unbounded.cpp: `waitfree_spsc_queue`, one
-- access to shared memory at a time, under sequential consistency.
pub mod Invariant
pub mod Frames
pub mod Steps
pub mod Linearizable
pub mod WaitFree
pub mod Destructor
mod Tests
use cs_learning_notes.Base.{ℕ, ◌≡◌, ◌≢◌, Option, none, some, update}
use cs_learning_notes.Interleaving.{Moves}
use cs_learning_notes.Containers.{Event, put, took, empty}
use cs_learning_notes.QueueNode.{Node, Heap, null, blank}

-- `head` belongs to the consumer, `tail` is atomic.
pub record Memory (A : Type 0) : Type 0 where
  pub head : ℕ
  pub tail : ℕ
  pub nodes : Heap A

-- The constructor: one dummy node, here at address 1.
abbrev pub init : {A : Type 0} → Memory A
init = record { head = 1; tail = 1; nodes = update (λ _. none) 1 (some blank) }

-- The two threads.
abbrev pub producer : ℕ
producer = 0

abbrev pub consumer : ℕ
consumer = 1

-- Where a thread stands, with its local variables. The item that `pop_take` carries is the one that
-- the abstract queue gave; the code reads its own from the node.
pub data Pc (A : Type 0) : Type 0 where
  idle : Pc A
  push_load : (x : A) (new_tail : ℕ) → Pc A
  push_construct : (x : A) (new_tail old_tail : ℕ) → Pc A
  push_link : (x : A) (new_tail old_tail : ℕ) → Pc A
  push_store : (x : A) (new_tail old_tail : ℕ) → Pc A
  pop_load : Pc A
  pop_advance : Pc A
  pop_take : (old_head : ℕ) (n : Node A) (x : A) → Pc A
  pop_destroy : (old_head : ℕ) (n : Node A) (res : A) → Pc A
  pop_delete : (old_head : ℕ) (n : Node A) (res : A) → Pc A
  returned : (res : Option A) → Pc A

-- One step of thread `i`. An allocation may take any free address, one that was deleted too.
pub data Move {A : Type 0} (i : ℕ) (m : Memory A)
    : Pc A → Option (Event A) → Memory A → Pc A → Type 0 where
  push_new :
      {p : ℕ} (x : A)
      → i ≡ producer
      → m.nodes p ≡ none
      → p ≢ null
      → Move i m idle none (record m { nodes = update m.nodes p (some blank) }) (push_load x p)
  load_tail : {x : A} {p : ℕ} → Move i m (push_load x p) none m (push_construct x p m.tail)
  construct :
      {x : A} {p t : ℕ} {n : Node A}
      → m.nodes t ≡ some n
      → Move i m
          (push_construct x p t)
          none
          (record m { nodes = update m.nodes t (some (record n { item = some x })) })
          (push_link x p t)
  link :
      {x : A} {p t : ℕ} {n : Node A}
      → m.nodes t ≡ some n
      → Move i m
          (push_link x p t)
          none
          (record m { nodes = update m.nodes t (some (record n { next = p })) })
          (push_store x p t)
  store_tail :
      {x : A} {p t : ℕ} → Move i m (push_store x p t) (some (put x)) (record m { tail = p }) idle
  pop_begin : i ≡ consumer → Move i m idle none m pop_load
  load_empty : m.head ≡ m.tail → Move i m pop_load (some empty) m (returned none)
  load_more : m.head ≢ m.tail → Move i m pop_load none m pop_advance
  advance :
      {n : Node A} {x : A}
      → m.nodes m.head ≡ some n
      → n.item ≡ some x
      → Move i m pop_advance (some (took x)) (record m { head = n.next }) (pop_take m.head n x)
  take :
      {a : ℕ} {n k : Node A} {x y : A}
      → m.nodes a ≡ some k
      → k.item ≡ some y
      → Move i m (pop_take a n x) none m (pop_destroy a n y)
  destroy :
      {a : ℕ} {n k : Node A} {y : A}
      → m.nodes a ≡ some k
      → Move i m
          (pop_destroy a n y)
          none
          (record m { nodes = update m.nodes a (some (record k { item = none })) })
          (pop_delete a (record n { item = none }) y)
  delete :
      {a : ℕ} {n : Node A} {y : A}
      → Move i m
          (pop_delete a n y)
          none
          (record m { nodes = update m.nodes a none })
          (returned (some y))
  leave : {r : Option A} → Move i m (returned r) none m idle
