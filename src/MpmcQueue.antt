-- ===== src/MpmcQueue.antt =====
-- cpp/concurrency/concurrent_data_structure/mpmc_queue_ref_count.cpp: `lockfree_queue`, one access to shared
-- memory at a time, for any number of threads. A node is given back when no `std::shared_ptr` leads to it
-- any more; nobody can tell, so the nodes of the model stay.
pub mod Roles
pub mod Invariant
pub mod Frames
pub mod Writes
pub mod Ends
pub mod Steps
pub mod Linearizable
pub mod Alone
pub mod Pushes
pub mod Progress
pub mod Bound
pub mod Owners
pub mod Destructor
mod Tests
use cs_learning_notes.Base.{ℕ, ◌≡◌, ◌≢◌, Option, none, some, update}
use cs_learning_notes.Containers.{Event, put, took, empty}

abbrev pub null : ℕ
null = 0

-- `data` is the item that the pointer leads to, if it is not null.
pub record Node (A : Type 0) : Type 0 where
  pub item : Option A
  pub next : ℕ

abbrev pub blank : {A : Type 0} → Node A
blank = record { item = none; next = null }

pub record Memory (A : Type 0) : Type 0 where
  pub head : ℕ
  pub tail : ℕ
  pub nodes : ℕ → Option (Node A)

abbrev pub init : {A : Type 0} → Memory A
init = record { head = 1; tail = 1; nodes = update (λ _. none) 1 (some blank) }

-- Where a thread stands, with its local variables. In `push` the item is the thread's own until the
-- compare-exchange of `push_data`. The item that `pop_take` carries is the one that the abstract queue
-- gave; the code reads its own from the node.
pub data Pc (A : Type 0) : Type 0 where
  idle : Pc A
  push_load : (x : A) (new_tail : ℕ) → Pc A
  push_data : (x : A) (new_tail old_tail : ℕ) → Pc A
  own_next : (new_tail old_tail : ℕ) → Pc A
  own_tail : (old_tail new_tail : ℕ) → Pc A
  help_next : (x : A) (new_tail old_tail : ℕ) → Pc A
  help_new : (x : A) (old_tail old_next : ℕ) → Pc A
  help_tail : (x : A) (new_tail old_tail old_next : ℕ) → Pc A
  pop_load : Pc A
  pop_test : (old_head : ℕ) → Pc A
  pop_next : (old_head : ℕ) → Pc A
  pop_cas : (old_head next : ℕ) → Pc A
  pop_take : (old_head : ℕ) (x : A) → Pc A
  returned : (res : Option A) → Pc A

-- One step. A push has its event when `tail` moves past its node, by whichever thread.
pub data Move {A : Type 0} (i : ℕ) (m : Memory A)
    : Pc A → Option (Event A) → Memory A → Pc A → Type 0 where
  push_new :
      (x : A) (p : ℕ)
      → m.nodes p ≡ none
      → p ≢ null
      → Move i m idle none (record m { nodes = update m.nodes p (some blank) }) (push_load x p)
  load_tail : {x : A} {p : ℕ} → Move i m (push_load x p) none m (push_data x p m.tail)
  data_win :
      {x : A} {p t : ℕ} {n : Node A}
      → m.nodes t ≡ some n
      → n.item ≡ none
      → Move i m
          (push_data x p t)
          none
          (record m { nodes = update m.nodes t (some (record n { item = some x })) })
          (own_next p t)
  data_fail :
      {x y : A} {p t : ℕ} {n : Node A}
      → m.nodes t ≡ some n
      → n.item ≡ some y
      → Move i m (push_data x p t) none m (help_next x p t)
  own_next_win :
      {p t : ℕ} {n : Node A}
      → m.nodes t ≡ some n
      → n.next ≡ null
      → Move i m
          (own_next p t)
          none
          (record m { nodes = update m.nodes t (some (record n { next = p })) })
          (own_tail t p)
  own_next_fail :
      {p t : ℕ} {n : Node A}
      → m.nodes t ≡ some n
      → n.next ≢ null
      → Move i m (own_next p t) none m (own_tail t n.next)
  own_tail_win :
      {t p : ℕ} {n : Node A} {y : A}
      → m.tail ≡ t
      → m.nodes t ≡ some n
      → n.item ≡ some y
      → Move i m (own_tail t p) (some (put y)) (record m { tail = p }) idle
  own_tail_fail : {t p : ℕ} → m.tail ≢ t → Move i m (own_tail t p) none m idle
  help_next_win :
      {x : A} {p t : ℕ} {n : Node A}
      → m.nodes t ≡ some n
      → n.next ≡ null
      → Move i m
          (help_next x p t)
          none
          (record m { nodes = update m.nodes t (some (record n { next = p })) })
          (help_new x t p)
  help_next_fail :
      {x : A} {p t : ℕ} {n : Node A}
      → m.nodes t ≡ some n
      → n.next ≢ null
      → Move i m (help_next x p t) none m (help_tail x p t n.next)
  help_allocate :
      {x : A} {t q : ℕ} (p : ℕ)
      → m.nodes p ≡ none
      → p ≢ null
      → Move i m
          (help_new x t q)
          none
          (record m { nodes = update m.nodes p (some blank) })
          (help_tail x p t q)
  help_tail_win :
      {x y : A} {p t q : ℕ} {n : Node A}
      → m.tail ≡ t
      → m.nodes t ≡ some n
      → n.item ≡ some y
      → Move i m (help_tail x p t q) (some (put y)) (record m { tail = q }) (push_load x p)
  help_tail_fail :
      {x : A} {p t q : ℕ} → m.tail ≢ t → Move i m (help_tail x p t q) none m (push_load x p)
  pop_begin : Move i m idle none m pop_load
  load_head : Move i m pop_load none m (pop_test m.head)
  test_empty : {a : ℕ} → a ≡ m.tail → Move i m (pop_test a) (some empty) m (returned none)
  test_more : {a : ℕ} → a ≢ m.tail → Move i m (pop_test a) none m (pop_next a)
  load_next :
      {a : ℕ} {n : Node A} → m.nodes a ≡ some n → Move i m (pop_next a) none m (pop_cas a n.next)
  pop_win :
      {a b : ℕ} {n : Node A} {x : A}
      → m.head ≡ a
      → m.nodes a ≡ some n
      → n.item ≡ some x
      → Move i m (pop_cas a b) (some (took x)) (record m { head = b }) (pop_take a x)
  pop_fail : {a b : ℕ} → m.head ≢ a → Move i m (pop_cas a b) none m (pop_test m.head)
  take :
      {a : ℕ} {x y : A} {n : Node A}
      → m.nodes a ≡ some n
      → n.item ≡ some y
      → Move i m (pop_take a x) none m (returned (some y))
  leave : {r : Option A} → Move i m (returned r) none m idle
