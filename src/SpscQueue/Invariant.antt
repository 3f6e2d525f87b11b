-- ===== src/SpscQueue/Invariant.antt =====
-- What holds in every reachable state of the single-producer queue.
use cs_learning_notes.Base.{ℕ, ◌≡◌, ◌≢◌, Option, none, some, List}
use cs_learning_notes.Chain.{Cell, Chain, Distinct, Outside}
use cs_learning_notes.QueueNode.{Node, null, blank, Points, Own, Apart}
use cs_learning_notes.SpscQueue.{
  Memory, Pc, producer, consumer, idle, push_load, push_construct, push_link, push_store, pop_load,
  pop_advance, pop_take, pop_destroy, pop_delete, returned,
}

pub record Global {A : Type 0} (cs : List (Cell A)) (m : Memory A) : Type 0 where
  pub chain : Chain (Points m.nodes) m.head cs m.tail
  pub distinct : Distinct cs
  pub dummy : Outside m.tail cs
  pub no_null : m.nodes null ≡ none

abbrev pub owned : {A : Type 0} → Pc A → Option (ℕ × Node A)
owned idle = none
owned (push_load x p) = some (p, blank)
owned (push_construct x p t) = some (p, blank)
owned (push_link x p t) = some (p, blank)
owned (push_store x p t) = some (p, blank)
owned pop_load = none
owned pop_advance = none
owned (pop_take a n x) = some (a, n)
owned (pop_destroy a n y) = some (a, n)
owned (pop_delete a n y) = some (a, n)
owned (returned r) = none

-- Which thread may stand there.
abbrev pub Role : {A : Type 0} → ℕ → Pc A → Type 0
Role i idle = Unit {0}
Role i (push_load x p) = i ≡ producer
Role i (push_construct x p t) = i ≡ producer
Role i (push_link x p t) = i ≡ producer
Role i (push_store x p t) = i ≡ producer
Role i _ = i ≡ consumer

-- The dummy node as the producer finds it, or as far as it has filled it.
abbrev pub Tail : {A : Type 0} → Memory A → Pc A → Type 0
Tail m (push_construct x p t) = (t ≡ m.tail) × (m.nodes m.tail ≡ some blank)
Tail m (push_link x p t) =
    (t ≡ m.tail) × (m.nodes m.tail ≡ some (record { item = some x; next = null }))
Tail m (push_store x p t) =
    (t ≡ m.tail) × (m.nodes m.tail ≡ some (record { item = some x; next = p }))
Tail m _ = m.nodes m.tail ≡ some blank

abbrev pub Popping : {A : Type 0} → Memory A → Pc A → Type 0
Popping m pop_advance = m.head ≢ m.tail
Popping m (pop_take a n x) = n.item ≡ some x
Popping m (pop_destroy a n y) = n.item ≡ some y
Popping m (pop_delete a n y) = n.item ≡ none
Popping m _ = Unit {0}

pub record Local {A : Type 0} (cs : List (Cell A)) (m : Memory A) (i : ℕ) (p : Pc A) : Type 0 where
  pub role : Role i p
  pub own : Own m.nodes cs m.tail (owned p)
  pub tail : i ≡ producer → Tail m p
  pub popping : Popping m p

abbrev pub Pair : {A : Type 0} → ℕ → Pc A → ℕ → Pc A → Type 0
Pair i p j q = Apart (owned p) (owned q)
