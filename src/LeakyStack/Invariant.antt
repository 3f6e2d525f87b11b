-- ===== src/LeakyStack/Invariant.antt =====
-- What holds in every reachable state of the leaking stack.
use cs_learning_notes.Base.{ℕ, ◌≡◌, Option, none, some, List}
use cs_learning_notes.Chain.{Cell, Chain, Distinct}
use cs_learning_notes.StackNode.{Node, Heap, null, Points, Own, Apart, Unseen}
use cs_learning_notes.LeakyStack.{Memory, Pc, push_cas, pop_next, pop_cas, pop_take}

pub record Global {A : Type 0} (cs : List (Cell A)) (m : Memory A) : Type 0 where
  pub chain : Chain (Points m.nodes) m.head cs null
  pub distinct : Distinct cs
  pub no_null : m.nodes null ≡ none

abbrev pub owned : {A : Type 0} → Pc A → Option (ℕ × Node A)
owned (push_cas x p e) = some (p, record { data_ = x; next = e })
owned _ = none

abbrev pub seen : {A : Type 0} → Pc A → Option ℕ
seen (pop_next a) = some a
seen (pop_cas a n) = some a
seen (pop_take a x) = some a
seen _ = none

-- What a thread knows of the node that it has seen: it is allocated, and does not change.
abbrev pub Knows : {A : Type 0} → Heap A → Pc A → Type 0
Knows {A} h (pop_next a) = (n : Node A) × (h a ≡ some n)
Knows h (pop_cas a n) = h a ≡ some n
Knows {A} h (pop_take a x) = (n : Node A) × (h a ≡ some n) × (n.data_ ≡ x)
Knows h _ = Unit {0}

pub record Local {A : Type 0} (cs : List (Cell A)) (m : Memory A) (i : ℕ) (p : Pc A) : Type 0 where
  pub own : Own m.nodes cs (owned p)
  pub knows : Knows m.nodes p

pub record Pair {A : Type 0} (i : ℕ) (p : Pc A) (j : ℕ) (q : Pc A) : Type 0 where
  pub apart : Apart (owned p) (owned q)
  pub unseen : Unseen (owned p) (seen q)
