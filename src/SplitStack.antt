-- ===== src/SplitStack.antt =====
-- cpp/concurrency/concurrent_data_structure/lockfree_stack_split_ref_count.cpp: `lockfree_stack` with an external
-- and an internal count for each node, one access to shared memory at a time, for any number of
-- threads.
pub mod Roles
pub mod Links
pub mod Invariant
pub mod Frames
pub mod Writes
pub mod Holders
pub mod Steps
pub mod Linearizable
pub mod Counts
pub mod NullCount
pub mod Overflow
mod Tests
use cs_learning_notes.Base.{ℕ, suc, ◌+◌, ◌-◌, ◌%◌, ◌<◌, ◌≡◌, ◌≢◌, Option, none, some, update}
use cs_learning_notes.Containers.{Event, put, took, empty}

abbrev pub null : ℕ
null = 0

-- An `int` in a `std::atomic` wraps around, as a number below this; any other `int` that would exceed
-- `int_max` is undefined, and no step.
abbrev pub int_size : ℕ
int_size = 4294967296

abbrev pub int_max : ℕ
int_max = 2147483647

-- The atomic `int` that stands for minus `n`.
abbrev pub negative : ℕ → ℕ
negative n = (int_size - n) % int_size

pub record CountedNodePtr : Type 0 where
  pub external_count : ℕ
  pub ptr : ℕ

pub record Node (A : Type 0) : Type 0 where
  pub data_ : A
  pub next : CountedNodePtr

-- `internal_count` is that member of each node.
pub record Memory (A : Type 0) : Type 0 where
  pub head : CountedNodePtr
  pub nodes : ℕ → Option (Node A)
  pub internal_count : ℕ → ℕ

abbrev pub init : {A : Type 0} → Memory A
init = record {
  head = record { external_count = 1; ptr = null };
  nodes = λ _. none;
  internal_count = λ _. 0;
}

-- Where a thread stands, with its local variables. A test of a local variable belongs to the access
-- before it. `old` is `old_head`, and `count` its `external_count` when it has been raised. The item that
-- `pop_take` carries is the one that the abstract stack gave; the code reads its own from the node.
pub data Pc (A : Type 0) : Type 0 where
  idle : Pc A
  push_load : (x : A) → Pc A
  push_new : (x : A) (expected : CountedNodePtr) → Pc A
  push_cas : (x : A) (new_node : ℕ) (expected : CountedNodePtr) → Pc A
  pop_load : Pc A
  pop_acquire : (old : CountedNodePtr) → Pc A
  pop_next : (count at : ℕ) → Pc A
  pop_cas : (count at : ℕ) (next : CountedNodePtr) → Pc A
  pop_take : (count at : ℕ) (x : A) → Pc A
  pop_merge : (count at : ℕ) (res : A) → Pc A
  pop_delete : (at : ℕ) (res : A) → Pc A
  pop_release : (at : ℕ) (old : CountedNodePtr) → Pc A
  retry_delete : (at : ℕ) (old : CountedNodePtr) → Pc A
  returned : (res : Option A) → Pc A

-- One step. A weak compare-exchange may fail at any time, and an allocation may take any free address.
pub data Move {A : Type 0} (i : ℕ) (m : Memory A)
    : Pc A → Option (Event A) → Memory A → Pc A → Type 0 where
  push_begin : (x : A) → Move i m idle none m (push_load x)
  push_head : {x : A} → Move i m (push_load x) none m (push_new x m.head)
  allocate :
      {x : A} {l : CountedNodePtr} (p : ℕ)
      → m.nodes p ≡ none
      → p ≢ null
      → Move i m
          (push_new x l)
          none
          (record m {
            nodes = update m.nodes p (some (record { data_ = x; next = l }));
            internal_count = update m.internal_count p 0;
          })
          (push_cas x p l)
  push_win :
      {x : A} {p : ℕ} {l : CountedNodePtr}
      → m.head ≡ l
      → Move i m
          (push_cas x p l)
          (some (put x))
          (record m { head = record { external_count = 1; ptr = p } })
          idle
  push_fail :
      {x : A} {p : ℕ} {l : CountedNodePtr} {n : Node A}
      → m.nodes p ≡ some n
      → Move i m
          (push_cas x p l)
          none
          (record m { nodes = update m.nodes p (some (record n { next = m.head })) })
          (push_cas x p m.head)
  pop_begin : Move i m idle none m pop_load
  pop_head : Move i m pop_load none m (pop_acquire m.head)
  acquire_fail :
      {l : CountedNodePtr} → m.head ≢ l → Move i m (pop_acquire l) none m (pop_acquire m.head)
  acquire_null :
      {l : CountedNodePtr}
      → m.head ≡ l
      → l.external_count < int_max
      → l.ptr ≡ null
      → Move i m
          (pop_acquire l)
          (some empty)
          (record m { head = record l { external_count = suc l.external_count } })
          (returned none)
  acquire_node :
      {l : CountedNodePtr}
      → m.head ≡ l
      → l.external_count < int_max
      → l.ptr ≢ null
      → Move i m
          (pop_acquire l)
          none
          (record m { head = record l { external_count = suc l.external_count } })
          (pop_next (suc l.external_count) l.ptr)
  load_next :
      {c a : ℕ} {n : Node A}
      → m.nodes a ≡ some n
      → Move i m (pop_next c a) none m (pop_cas c a n.next)
  pop_win :
      {c a : ℕ} {l : CountedNodePtr} {n : Node A}
      → m.head ≡ record { external_count = c; ptr = a }
      → m.nodes a ≡ some n
      → Move i m
          (pop_cas c a l)
          (some (took n.data_))
          (record m { head = l })
          (pop_take c a n.data_)
  pop_fail :
      {c a : ℕ} {l : CountedNodePtr}
      → m.head ≢ record { external_count = c; ptr = a }
      → Move i m (pop_cas c a l) none m (pop_release a m.head)
  emplace :
      {c a : ℕ} {x : A} {n : Node A}
      → m.nodes a ≡ some n
      → Move i m (pop_take c a x) none m (pop_merge c a n.data_)
  merge_last :
      {c a : ℕ} {r : A} {n : Node A}
      → m.nodes a ≡ some n
      → m.internal_count a ≡ negative (c - 2)
      → Move i m
          (pop_merge c a r)
          none
          (record m {
            internal_count = update m.internal_count a ((m.internal_count a + (c - 2)) % int_size);
          })
          (pop_delete a r)
  merge_more :
      {c a : ℕ} {r : A} {n : Node A}
      → m.nodes a ≡ some n
      → m.internal_count a ≢ negative (c - 2)
      → Move i m
          (pop_merge c a r)
          none
          (record m {
            internal_count = update m.internal_count a ((m.internal_count a + (c - 2)) % int_size);
          })
          (returned (some r))
  delete_popped :
      {a : ℕ} {r : A} {n : Node A}
      → m.nodes a ≡ some n
      → Move i m
          (pop_delete a r)
          none
          (record m { nodes = update m.nodes a none })
          (returned (some r))
  release_last :
      {a : ℕ} {l : CountedNodePtr} {n : Node A}
      → m.nodes a ≡ some n
      → m.internal_count a ≡ 1
      → Move i m
          (pop_release a l)
          none
          (record m {
            internal_count =
                update m.internal_count a ((m.internal_count a + negative 1) % int_size);
          })
          (retry_delete a l)
  release_more :
      {a : ℕ} {l : CountedNodePtr} {n : Node A}
      → m.nodes a ≡ some n
      → m.internal_count a ≢ 1
      → Move i m
          (pop_release a l)
          none
          (record m {
            internal_count =
                update m.internal_count a ((m.internal_count a + negative 1) % int_size);
          })
          (pop_acquire l)
  delete_released :
      {a : ℕ} {l : CountedNodePtr} {n : Node A}
      → m.nodes a ≡ some n
      → Move i m
          (retry_delete a l)
          none
          (record m { nodes = update m.nodes a none })
          (pop_acquire l)
  leave : {r : Option A} → Move i m (returned r) none m idle
