-- ===== src/LockedQueue/Invariant.antt =====
-- What holds in every reachable state of the lock-based queue.
use cs_learning_notes.Base.{ℕ, ◌≡◌, ◌≢◌, Bool, true, false, Option, none, some, List}
use cs_learning_notes.Chain.{Cell, Chain, Distinct, Outside}
use cs_learning_notes.QueueNode.{Node, null, blank, Points, Own, Apart}
use cs_learning_notes.LockedQueue.{
  Memory, Pc, push_lock, push_emplace, push_link, push_swing, push_unlock, tail_lock, tail_read,
  tail_unlock, compare, unlock_empty, advance, unlock_head, take, destroy, delete,
}

pub record Global {A : Type 0} (cs : List (Cell A)) (m : Memory A) : Type 0 where
  pub chain : Chain (Points m.nodes) m.head cs m.tail
  pub distinct : Distinct cs
  pub dummy : Outside m.tail cs
  pub no_null : m.nodes null ≡ none
  pub tail_live : (n : Node A) × (m.nodes m.tail ≡ some n)
  pub quiet_tail : m.tail_mutex ≡ none → m.nodes m.tail ≡ some blank

abbrev pub owned : {A : Type 0} → Pc A → Option (ℕ × Node A)
owned (push_lock x p) = some (p, blank)
owned (push_emplace x p) = some (p, blank)
owned (push_link x p) = some (p, blank)
owned (push_swing x p) = some (p, blank)
owned (unlock_head a n x) = some (a, n)
owned (take a n x) = some (a, n)
owned (destroy a n y) = some (a, n)
owned (delete a n y) = some (a, n)
owned _ = none

-- The thread holds the mutex of the head.
abbrev pub holds_head : {A : Type 0} → Pc A → Bool
holds_head (tail_lock w) = true
holds_head (tail_read w) = true
holds_head (tail_unlock w t) = true
holds_head (compare w t) = true
holds_head unlock_empty = true
holds_head advance = true
holds_head (unlock_head a n x) = true
holds_head _ = false

abbrev pub holds_tail : {A : Type 0} → Pc A → Bool
holds_tail (push_emplace x p) = true
holds_tail (push_link x p) = true
holds_tail (push_swing x p) = true
holds_tail push_unlock = true
holds_tail (tail_read w) = true
holds_tail (tail_unlock w t) = true
holds_tail _ = false

abbrev pub Holds : Bool → Option ℕ → ℕ → Type 0
Holds true mutex i = mutex ≡ some i
Holds false mutex i = Unit {0}

-- The dummy node as the holder of its mutex knows it.
abbrev pub Tail : {A : Type 0} → Memory A → Pc A → Type 0
Tail m (push_emplace x p) = m.nodes m.tail ≡ some blank
Tail m (push_link x p) = m.nodes m.tail ≡ some (record { item = some x; next = null })
Tail m (push_swing x p) = m.nodes m.tail ≡ some (record { item = some x; next = p })
Tail m push_unlock = m.nodes m.tail ≡ some blank
Tail m (tail_read w) = m.nodes m.tail ≡ some blank
Tail m (tail_unlock w t) = m.nodes m.tail ≡ some blank
Tail m _ = Unit {0}

abbrev pub Popping : {A : Type 0} → Memory A → Pc A → Type 0
Popping m (tail_unlock w t) = m.head ≢ t → m.head ≢ m.tail
Popping m (compare w t) = m.head ≢ t → m.head ≢ m.tail
Popping m advance = m.head ≢ m.tail
Popping m (unlock_head a n x) = n.item ≡ some x
Popping m (take a n x) = n.item ≡ some x
Popping m (destroy a n y) = n.item ≡ some y
Popping m (delete a n y) = n.item ≡ none
Popping m _ = Unit {0}

pub record Local {A : Type 0} (cs : List (Cell A)) (m : Memory A) (i : ℕ) (p : Pc A) : Type 0 where
  pub own : Own m.nodes cs m.tail (owned p)
  pub head_lock : Holds (holds_head p) m.head_mutex i
  pub tail_lock : Holds (holds_tail p) m.tail_mutex i
  pub head_held : m.head_mutex ≡ some i → holds_head p ≡ true
  pub tail_held : m.tail_mutex ≡ some i → holds_tail p ≡ true
  pub tail : Tail m p
  pub popping : Popping m p

abbrev pub Pair : {A : Type 0} → ℕ → Pc A → ℕ → Pc A → Type 0
Pair i p j q = Apart (owned p) (owned q)
