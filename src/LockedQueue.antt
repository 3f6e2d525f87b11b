-- ===== src/LockedQueue.antt =====
-- cpp/concurrency/concurrent_data_structure/threadsafe_queue.cpp: `threadsafe_queue`, one access to
-- shared memory at a time, for any number of threads.
pub mod Invariant
pub mod Frames
pub mod Pushing
pub mod Popping
pub mod Steps
pub mod Linearizable
pub mod Progress
pub mod Destructor
pub mod Wakeup
mod Tests
use cs_learning_notes.Base.{
  ℕ, ◌≡◌, ◌≢◌, Option, none, some, List, [], ◌∷◌, ◌++◌, update, NotIn, erase,
}
use cs_learning_notes.Containers.{Event, put, took, empty}
use cs_learning_notes.QueueNode.{Node, Heap, null, blank}

-- A mutex is the thread that holds it. `asleep` are the threads that block on `data_cond`, each
-- until it is notified; `notify_one` picks any of them.
pub record Memory (A : Type 0) : Type 0 where
  pub head : ℕ
  pub tail : ℕ
  pub nodes : Heap A
  pub head_mutex : Option ℕ
  pub tail_mutex : Option ℕ
  pub asleep : List ℕ

-- The constructor: one dummy node, here at address 1.
abbrev pub init : {A : Type 0} → Memory A
init = record {
  head = 1;
  tail = 1;
  nodes = update (λ _. none) 1 (some blank);
  head_mutex = none;
  tail_mutex = none;
  asleep = [];
}

-- `try_pop` or `wait_and_pop`.
pub data Mode : Type 0 where
  trying waiting : Mode

-- Where a thread stands, with its local variables: in `push`, in `pop_head` or `wait_pop_head` (with
-- `get_tail` inside), and in what `try_pop` and `wait_and_pop` do with the node that they are given.
-- The item that `unlock_head` and `take` carry is the one that the abstract queue gave; the code reads
-- its own from the node.
pub data Pc (A : Type 0) : Type 0 where
  idle : Pc A
  push_lock : (x : A) (p : ℕ) → Pc A
  push_emplace : (x : A) (p : ℕ) → Pc A
  push_link : (x : A) (p : ℕ) → Pc A
  push_swing : (x : A) (p : ℕ) → Pc A
  push_unlock : Pc A
  push_notify : Pc A
  pop_lock : (w : Mode) → Pc A
  tail_lock : (w : Mode) → Pc A
  tail_read : (w : Mode) → Pc A
  tail_unlock : (w : Mode) (t : ℕ) → Pc A
  compare : (w : Mode) (t : ℕ) → Pc A
  unlock_empty : Pc A
  sleeping : Pc A
  advance : Pc A
  unlock_head : (old_head : ℕ) (n : Node A) (x : A) → Pc A
  take : (old_head : ℕ) (n : Node A) (x : A) → Pc A
  destroy : (old_head : ℕ) (n : Node A) (item : A) → Pc A
  delete : (old_head : ℕ) (n : Node A) (item : A) → Pc A
  returned : (item : Option A) → Pc A

-- One step of thread `i`. An allocation may take any free address, one that was deleted too. A thread
-- that sleeps goes on when it was notified, or for nothing.
pub data Move {A : Type 0} (i : ℕ) (m : Memory A)
    : Pc A → Option (Event A) → Memory A → Pc A → Type 0 where
  push_new :
      (p : ℕ) (x : A)
      → m.nodes p ≡ none
      → p ≢ null
      → Move i m idle none (record m { nodes = update m.nodes p (some blank) }) (push_lock x p)
  lock_tail_push :
      {x : A} {p : ℕ}
      → m.tail_mutex ≡ none
      → Move i m (push_lock x p) none (record m { tail_mutex = some i }) (push_emplace x p)
  emplace :
      {x : A} {p : ℕ} {n : Node A}
      → m.nodes m.tail ≡ some n
      → Move i m
          (push_emplace x p)
          none
          (record m { nodes = update m.nodes m.tail (some (record n { item = some x })) })
          (push_link x p)
  link :
      {x : A} {p : ℕ} {n : Node A}
      → m.nodes m.tail ≡ some n
      → Move i m
          (push_link x p)
          none
          (record m { nodes = update m.nodes m.tail (some (record n { next = p })) })
          (push_swing x p)
  swing :
      {x : A} {p : ℕ} → Move i m (push_swing x p) (some (put x)) (record m { tail = p }) push_unlock
  unlock_tail_push : Move i m push_unlock none (record m { tail_mutex = none }) push_notify
  notify_one :
      (others : List ℕ) (j : ℕ) (rest : List ℕ)
      → m.asleep ≡ others ++ j ∷ rest
      → Move i m push_notify none (record m { asleep = others ++ rest }) idle
  notify_nobody : m.asleep ≡ [] → Move i m push_notify none m idle
  pop_begin : (w : Mode) → Move i m idle none m (pop_lock w)
  lock_head :
      {w : Mode}
      → m.head_mutex ≡ none
      → Move i m (pop_lock w) none (record m { head_mutex = some i }) (tail_lock w)
  lock_tail :
      {w : Mode}
      → m.tail_mutex ≡ none
      → Move i m (tail_lock w) none (record m { tail_mutex = some i }) (tail_read w)
  read_empty :
      m.head ≡ m.tail → Move i m (tail_read trying) (some empty) m (tail_unlock trying m.tail)
  read_more :
      {w : Mode}
      → ((w ≡ trying) → m.head ≢ m.tail)
      → Move i m (tail_read w) none m (tail_unlock w m.tail)
  unlock_tail :
      {w : Mode} {t : ℕ}
      → Move i m (tail_unlock w t) none (record m { tail_mutex = none }) (compare w t)
  find_empty : {t : ℕ} → m.head ≡ t → Move i m (compare trying t) none m unlock_empty
  give_up : Move i m unlock_empty none (record m { head_mutex = none }) (returned none)
  fall_asleep :
      {t : ℕ}
      → m.head ≡ t
      → Move i m
          (compare waiting t)
          none
          (record m { head_mutex = none; asleep = i ∷ m.asleep })
          sleeping
  wake : NotIn i m.asleep → Move i m sleeping none m (pop_lock waiting)
  wake_for_nothing :
      Move i m sleeping none (record m { asleep = erase i m.asleep }) (pop_lock waiting)
  find_more : {w : Mode} {t : ℕ} → m.head ≢ t → Move i m (compare w t) none m advance
  step_head :
      {n : Node A} {x : A}
      → m.nodes m.head ≡ some n
      → n.item ≡ some x
      → Move i m advance (some (took x)) (record m { head = n.next }) (unlock_head m.head n x)
  unlock :
      {a : ℕ} {n : Node A} {x : A}
      → Move i m (unlock_head a n x) none (record m { head_mutex = none }) (take a n x)
  take_item :
      {a : ℕ} {n k : Node A} {x y : A}
      → m.nodes a ≡ some k
      → k.item ≡ some y
      → Move i m (take a n x) none m (destroy a n y)
  destroy_item :
      {a : ℕ} {n k : Node A} {y : A}
      → m.nodes a ≡ some k
      → Move i m
          (destroy a n y)
          none
          (record m { nodes = update m.nodes a (some (record k { item = none })) })
          (delete a (record n { item = none }) y)
  delete_node :
      {a : ℕ} {n : Node A} {y : A}
      → Move i m
          (delete a n y)
          none
          (record m { nodes = update m.nodes a none })
          (returned (some y))
  leave : {r : Option A} → Move i m (returned r) none m idle
