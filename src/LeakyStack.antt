-- ===== src/LeakyStack.antt =====
-- cpp/concurrency/concurrent_data_structure/lockfree_stack_memory_leak.cpp: `lockfree_stack`, one
-- access to shared memory at a time, for any number of threads.
pub mod Invariant
pub mod Looking
pub mod Steps
pub mod Linearizable
mod Tests
use cs_learning_notes.Base.{ℕ, ◌≡◌, ◌≢◌, Option, none, some, update}
use cs_learning_notes.Containers.{Event, put, took, empty}
use cs_learning_notes.StackNode.{Node, Heap, null}

pub record Memory (A : Type 0) : Type 0 where
  pub head : ℕ
  pub nodes : Heap A

-- `std::atomic<node*> head`, value-initialised since C++20.
abbrev pub init : {A : Type 0} → Memory A
init = record { head = null; nodes = λ _. none }

-- Where a thread stands, with its local variables; `expected` is `new_node->next` in `push`. A test
-- of the local `old_head` belongs to the access before it.
pub data Pc (A : Type 0) : Type 0 where
  idle : Pc A
  push_load : (x : A) → Pc A
  push_new : (x : A) (expected : ℕ) → Pc A
  push_cas : (x : A) (new_node expected : ℕ) → Pc A
  pop_load : Pc A
  pop_next : (old_head : ℕ) → Pc A
  pop_cas : (old_head : ℕ) (n : Node A) → Pc A
  pop_take : (old_head : ℕ) (x : A) → Pc A
  returned : (item : Option A) → Pc A

-- One step. The weak compare-exchange may fail at any time. The item that `pop_take` carries is the
-- one that the abstract stack gave; the code reads its own from the node.
pub data Move {A : Type 0} (i : ℕ) (m : Memory A)
    : Pc A → Option (Event A) → Memory A → Pc A → Type 0 where
  push_begin : (x : A) → Move i m idle none m (push_load x)
  push_head : {x : A} → Move i m (push_load x) none m (push_new x m.head)
  allocate :
      {x : A} {e : ℕ} (p : ℕ)
      → m.nodes p ≡ none
      → p ≢ null
      → Move i m
          (push_new x e)
          none
          (record m { nodes = update m.nodes p (some (record { data_ = x; next = e })) })
          (push_cas x p e)
  push_win :
      {x : A} {p e : ℕ}
      → m.head ≡ e
      → Move i m (push_cas x p e) (some (put x)) (record m { head = p }) idle
  push_fail :
      {x : A} {p e : ℕ} {n : Node A}
      → m.nodes p ≡ some n
      → Move i m
          (push_cas x p e)
          none
          (record m { nodes = update m.nodes p (some (record n { next = m.head })) })
          (push_cas x p m.head)
  pop_begin : Move i m idle none m pop_load
  pop_empty : m.head ≡ null → Move i m pop_load (some empty) m (returned none)
  pop_head : m.head ≢ null → Move i m pop_load none m (pop_next m.head)
  read_next : {a : ℕ} {n : Node A} → m.nodes a ≡ some n → Move i m (pop_next a) none m (pop_cas a n)
  pop_win :
      {a : ℕ} {n : Node A}
      → m.head ≡ a
      → Move i m
          (pop_cas a n)
          (some (took n.data_))
          (record m { head = n.next })
          (pop_take a n.data_)
  fail_empty :
      {a : ℕ} {n : Node A} → m.head ≡ null → Move i m (pop_cas a n) (some empty) m (returned none)
  pop_fail : {a : ℕ} {n : Node A} → m.head ≢ null → Move i m (pop_cas a n) none m (pop_next m.head)
  take :
      {a : ℕ} {x : A} {n : Node A}
      → m.nodes a ≡ some n
      → Move i m (pop_take a x) none m (returned (some n.data_))
  leave : {r : Option A} → Move i m (returned r) none m idle
