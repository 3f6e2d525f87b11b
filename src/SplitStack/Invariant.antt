-- ===== src/SplitStack/Invariant.antt =====
-- What holds in every reachable state of the stack with split counts.
use cs_learning_notes.Base.{ℕ, ◌≡◌, ◌≢◌, Option, none, some, List, length, if◌then◌else◌, ◌==◌}
use cs_learning_notes.Chain.{Cell, Outside, Distinct, values}
use cs_learning_notes.SplitStack.{
  Node, Memory, Pc, null, push_cas, pop_next, pop_cas, pop_take, pop_merge, pop_delete, pop_release,
  retry_delete,
}
use cs_learning_notes.SplitStack.Roles.{
  Role, unused, own, stacked, claimed, doomed, owner, occurrences, Tally,
}
use cs_learning_notes.SplitStack.Links.{Links}

-- The nodes on the stack, the role of every address, and the threads that hold a node there.
pub record View (A : Type 0) : Type 0 where
  pub stack : List (Cell A)
  pub role : ℕ → Role
  pub holders : ℕ → List ℕ

abbrev pub items : {A : Type 0} → View A → List A
items x = values x.stack

pub record Global {A : Type 0} (x : View A) (m : Memory A) : Type 0 where
  pub links : Links x.role m.nodes m.head x.stack
  pub distinct : Distinct x.stack
  pub tally : (a : ℕ) → Tally (x.role a) (length (x.holders a)) (m.internal_count a)
  pub on_stack : (a c : ℕ) → x.role a ≡ stacked c → ¬ Outside a x.stack
  pub free : (a : ℕ) → m.nodes a ≡ none → x.role a ≡ unused
  pub used : (a : ℕ) → x.role a ≡ unused → m.nodes a ≡ none
  pub no_null : m.nodes null ≡ none

-- The node that a thread counts as a holder of.
abbrev pub held : {A : Type 0} → Pc A → Option ℕ
held (pop_next c a) = some a
held (pop_cas c a l) = some a
held (pop_take c a x) = some a
held (pop_merge c a r) = some a
held (pop_release a l) = some a
held _ = none

-- How often a thread holds the node at an address.
abbrev pub share : Option ℕ → ℕ → ℕ
share none a = 0
share (some b) a = if b == a then 1 else 0

-- The node of which a thread is the owner, with its role.
abbrev pub owned : {A : Type 0} → ℕ → Pc A → Option (ℕ × Role)
owned i (push_cas x p l) = some (p, own i)
owned i (pop_take c a x) = some (a, claimed i c)
owned i (pop_merge c a r) = some (a, claimed i c)
owned i (pop_delete a r) = some (a, doomed i)
owned i (retry_delete a l) = some (a, doomed i)
owned i _ = none

abbrev pub Owned : {A : Type 0} → View A → Option (ℕ × Role) → Type 0
Owned x none = Unit {0}
Owned x (some (a, r)) = x.role a ≡ r

-- The owner of a node is at the place that says so.
abbrev pub Owner : {A : Type 0} → View A → ℕ → Option (ℕ × Role) → Type 0
Owner x i none = (a : ℕ) → owner (x.role a) ≢ some i
Owner x i (some (b, r)) = (a : ℕ) → owner (x.role a) ≡ some i → b ≡ a

-- What a thread knows of a node: all of it, its `next`, or its data.
abbrev pub Knows : {A : Type 0} → Memory A → Pc A → Type 0
Knows m (push_cas x p l) = m.nodes p ≡ some (record { data_ = x; next = l })
Knows {A} m (pop_cas c a l) = (n : Node A) × (m.nodes a ≡ some n) × (n.next ≡ l)
Knows {A} m (pop_take c a x) = (n : Node A) × (m.nodes a ≡ some n) × (n.data_ ≡ x)
Knows m _ = Unit {0}

pub record Local {A : Type 0} (x : View A) (m : Memory A) (i : ℕ) (p : Pc A) : Type 0 where
  pub holds : (a : ℕ) → occurrences i (x.holders a) ≡ share (held p) a
  pub owns : Owned x (owned i p)
  pub only : Owner x i (owned i p)
  pub knows : Knows m p

pub record Pair {A : Type 0} (i : ℕ) (p : Pc A) (j : ℕ) (q : Pc A) : Type 0 where
  pub nothing : Unit {0}
