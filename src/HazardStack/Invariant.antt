-- ===== src/HazardStack/Invariant.antt =====
-- What holds in every reachable state of the hazard-pointer stack.
use cs_learning_notes.Base.{ℕ, ◌<◌, ◌≤◌, ◌≡◌, ◌≢◌, ◌⊎◌, Option, none, some, List, true}
use cs_learning_notes.Chain.{Cell, Chain, Distinct, Outside, values}
use cs_learning_notes.StackNode.{Node, null, Points}
use cs_learning_notes.HazardStack.{
  Memory, Pc, Then, reclaim, go_on, max_hazard_pointers, push_cas, protect, reload, read_next,
  pop_cas, clear, clear_won, take, scan, add_load, add_write, add_cas, drain, exit_id,
}
use cs_learning_notes.Chain.Labels.{AllRole}
use cs_learning_notes.HazardStack.Roles.{Role, unused, fresh, on_stack, retired, to_reclaim, shown}

-- The nodes on the stack, those in the list of nodes to reclaim, and the role of every address.
pub record View (A : Type 0) : Type 0 where
  pub stack : List (Cell A)
  pub list : List (Cell A)
  pub role : ℕ → Role

abbrev pub items : {A : Type 0} → View A → List A
items x = values x.stack

pub record Global {A : Type 0} (x : View A) (m : Memory A) : Type 0 where
  pub chain : Chain (Points m.nodes) m.head x.stack null
  pub stacked : AllRole x.role on_stack x.stack
  pub distinct : Distinct x.stack
  pub list : Chain (Points m.nodes) m.nodes_to_reclaim x.list null
  pub listed : AllRole x.role to_reclaim x.list
  pub list_distinct : Distinct x.list
  pub free : (a : ℕ) → m.nodes a ≡ none → x.role a ≡ unused
  pub no_null : m.nodes null ≡ none

-- The spot that a thread uses.
abbrev pub used : {A : Type 0} → Pc A → Option ℕ
used (protect k a) = some k
used (reload k a) = some k
used (read_next k a) = some k
used (pop_cas k a n) = some k
used (clear k) = some k
used (clear_won k a x) = some k
used (exit_id k) = some k
used _ = none

-- The node that a thread is about to push.
abbrev pub made : {A : Type 0} → Pc A → Option (ℕ × Node A)
made (push_cas x p e) = some (p, record { data_ = x; next = e })
made _ = none

-- The node that a thread's hazard pointer has been stored for, with the spot.
abbrev pub stored : {A : Type 0} → Pc A → Option (ℕ × ℕ)
stored (reload k a) = some (k, a)
stored (read_next k a) = some (k, a)
stored (pop_cas k a n) = some (k, a)
stored _ = none

-- The node that a thread's hazard pointer protects, since it was at the head after the store.
abbrev pub protected : {A : Type 0} → Pc A → Option (ℕ × ℕ)
protected (read_next k a) = some (k, a)
protected (pop_cas k a n) = some (k, a)
protected _ = none

-- What a thread has read of the node that it protects.
abbrev pub read : {A : Type 0} → Pc A → Option (ℕ × Node A)
read (pop_cas k a n) = some (a, n)
read _ = none

-- What is known of a node that a thread has to delete or to hand on.
pub data Known (A : Type 0) : Type 0 where
  anything : Known A
  item : (x : A) → Known A
  link : (next : ℕ) → Known A

abbrev pub Fits : {A : Type 0} → Known A → Node A → Type 0
Fits anything n = Unit {0}
Fits (item x) n = n.data_ ≡ x
Fits (link e) n = n.next ≡ e

abbrev pub spent : {A : Type 0} → Pc A → Option (ℕ × Known A)
spent (clear_won k a x) = some (a, item x)
spent (take a x) = some (a, item x)
spent (scan a c t r) = some (a, anything)
spent (add_load a t r) = some (a, anything)
spent (add_write a e t r) = some (a, anything)
spent (add_cas a e t r) = some (a, link e)
spent _ = none

-- Where the nodes start that a thread took from the list and has not looked at.
abbrev pub later : Then → Option ℕ
later reclaim = none
later (go_on b) = some b

abbrev pub pending : {A : Type 0} → Pc A → Option ℕ
pending (scan a c t r) = later t
pending (add_load a t r) = later t
pending (add_write a e t r) = later t
pending (add_cas a e t r) = later t
pending (drain b r) = some b
pending _ = none

-- The node that a thread looks for among the hazard pointers, and the spot that is next.
abbrev pub scanned : {A : Type 0} → Pc A → Option (ℕ × ℕ)
scanned (scan a c t r) = some (a, c)
scanned _ = none

abbrev pub Beside : {A : Type 0} → Option (ℕ × Known A) → List (Cell A) → Type 0
Beside none ds = Unit {0}
Beside (some (a, w)) ds = Outside a ds

module _ {A : Type 0} (x : View A) (m : Memory A) (i : ℕ) where
  abbrev pub Uses : Option ℕ → Type 0
  Uses none = Unit {0}
  Uses (some k) = m.hazard i ≡ some k

  abbrev pub Made : Option (ℕ × Node A) → Type 0
  Made none = Unit {0}
  Made (some (a, n)) = (x.role a ≡ fresh i) × (m.nodes a ≡ some n)

  abbrev pub Stored : Option (ℕ × ℕ) → Type 0
  Stored none = Unit {0}
  Stored (some (k, a)) = (m.ptrs k ≡ a) × (m.hazard i ≡ some k)

  abbrev pub Protects : Option (ℕ × ℕ) → Type 0
  Protects none = Unit {0}
  Protects (some (k, a)) = (shown (x.role a) ≡ true) × (n : Node A) × (m.nodes a ≡ some n)

  -- What was read is true while the node is on the stack.
  abbrev pub Read : Option (ℕ × Node A) → Type 0
  Read none = Unit {0}
  Read (some (a, n)) = (m.nodes a ≡ some n) ⊎ (x.role a ≢ on_stack)

  abbrev pub Spent : Option (ℕ × Known A) → Type 0
  Spent none = Unit {0}
  Spent (some (a, w)) = (x.role a ≡ retired i) × (n : Node A) × (m.nodes a ≡ some n) × Fits w n

  -- The nodes there are the thread's, and the one that it is at is not among them.
  abbrev pub Pending : Option ℕ → Option (ℕ × Known A) → Type 0
  Pending none w = Unit {0}
  Pending (some b) w =
      (ds : List (Cell A)) × Chain (Points m.nodes) b ds null
      × AllRole x.role (retired i) ds
      × Distinct ds
      × Beside w ds

  pub record Local (p : Pc A) : Type 0 where
    pub spot : (k : ℕ) → m.hazard i ≡ some k → (m.ids k ≡ some i) × (k < max_hazard_pointers)
    pub uses : Uses (used p)
    pub makes : Made (made p)
    pub stores : Stored (stored p)
    pub protects : Protects (protected p)
    pub reads : Read (read p)
    pub spends : Spent (spent p)
    pub pends : Pending (pending p) (spent p)

-- A thread that scans has not passed the spot of a thread that protects the node.
abbrev pub Covered : Option (ℕ × ℕ) → Option (ℕ × ℕ) → Type 0
Covered none q = Unit {0}
Covered (some (k, a)) none = Unit {0}
Covered (some (k, a)) (some (b, c)) = (a ≡ b) → c ≤ k

pub record Pair {A : Type 0} (i : ℕ) (p : Pc A) (j : ℕ) (q : Pc A) : Type 0 where
  pub covered : Covered (protected p) (scanned q)
