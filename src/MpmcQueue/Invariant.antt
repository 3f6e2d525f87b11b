-- ===== src/MpmcQueue/Invariant.antt =====
-- What holds in every reachable state of the multi-producer queue.
use cs_learning_notes.Base.{ℕ, ◌≡◌, ◌≢◌, ◌⊎◌, Option, none, some, List, Bool, true, false}
use cs_learning_notes.Chain.{Cell, Chain, Distinct, values}
use cs_learning_notes.Chain.Labels.{AllRole}
use cs_learning_notes.MpmcQueue.{
  Node, Memory, Pc, null, blank, push_load, push_data, own_next, own_tail, help_next, help_new,
  help_tail, pop_test, pop_next, pop_cas, pop_take,
}
use cs_learning_notes.MpmcQueue.Roles.{
  Role, unused, spare, ahead, last, queued, past, shown, settled,
}

abbrev pub Points : {A : Type 0} → (ℕ → Option (Node A)) → ℕ → A → ℕ → Type 0
Points h a x r = h a ≡ some (record { item = some x; next = r })

-- The nodes from `head` to `tail`, and the role of every address.
pub record View (A : Type 0) : Type 0 where
  pub queue : List (Cell A)
  pub role : ℕ → Role

abbrev pub items : {A : Type 0} → View A → List A
items x = values x.queue

-- Of a node that another one's `next` leads to from the tail: it is new, and the tail has its item.
pub record Tail {A : Type 0} (x : View A) (m : Memory A) (n : Node A) : Type 0 where
  pub claimed : n.item ≢ none
  pub ahead : x.role n.next ≡ ahead
  pub new : m.nodes n.next ≡ some blank

pub record Global {A : Type 0} (x : View A) (m : Memory A) : Type 0 where
  pub chain : Chain (Points m.nodes) m.head x.queue m.tail
  pub in_queue : AllRole x.role queued x.queue
  pub distinct : Distinct x.queue
  pub tail_node : (n : Node A) × (m.nodes m.tail ≡ some n) × ((n.next ≡ null) ⊎ Tail x m n)
  pub tail_role : x.role m.tail ≡ last
  pub one_tail : (a : ℕ) → x.role a ≡ last → a ≡ m.tail
  pub full :
      (a : ℕ) → settled (x.role a) ≡ true → (y : A) × (r : ℕ) × Points m.nodes a y r × (r ≢ null)
  pub free : (a : ℕ) → m.nodes a ≡ none → x.role a ≡ unused
  pub no_null : m.nodes null ≡ none

-- The node that a thread has made for the tail and not handed on.
abbrev pub made : {A : Type 0} → Pc A → Option ℕ
made (push_load x p) = some p
made (push_data x p t) = some p
made (own_next p t) = some p
made (help_next x p t) = some p
made (help_tail x p t q) = some p
made _ = none

-- The tail that a push has loaded.
abbrev pub visited : {A : Type 0} → Pc A → Option ℕ
visited (push_data x p t) = some t
visited (own_next p t) = some t
visited (help_next x p t) = some t
visited _ = none

-- A node of which the thread knows that it has an item.
abbrev pub filled : {A : Type 0} → Pc A → Option ℕ
filled (own_next p t) = some t
filled (help_next x p t) = some t
filled _ = none

-- A node of which the thread knows the `next`.
abbrev pub linked : {A : Type 0} → Pc A → Option (ℕ × ℕ)
linked (own_tail t p) = some (t, p)
linked (help_new x t q) = some (t, q)
linked (help_tail x p t q) = some (t, q)
linked (pop_cas a b) = some (a, b)
linked _ = none

-- The head that a pop has loaded, and whether it was not the tail then.
abbrev pub popping : {A : Type 0} → Pc A → Option (ℕ × Bool)
popping (pop_test a) = some (a, false)
popping (pop_next a) = some (a, true)
popping (pop_cas a b) = some (a, true)
popping _ = none

abbrev pub taken : {A : Type 0} → Pc A → Option (ℕ × A)
taken (pop_take a x) = some (a, x)
taken _ = none

abbrev pub Front : {A : Type 0} → Memory A → Bool → Type 0
Front m false = Unit {0}
Front m true = m.head ≢ m.tail

module _ {A : Type 0} (x : View A) (m : Memory A) (i : ℕ) where
  abbrev pub Made : Option ℕ → Type 0
  Made none = Unit {0}
  Made (some p) = (x.role p ≡ spare i) × (m.nodes p ≡ some blank)

  abbrev pub Visited : Option ℕ → Type 0
  Visited none = Unit {0}
  Visited (some t) = shown (x.role t) ≡ true

  abbrev pub Filled : Option ℕ → Type 0
  Filled none = Unit {0}
  Filled (some t) = (n : Node A) × (m.nodes t ≡ some n) × (n.item ≢ none)

  abbrev pub Linked : Option (ℕ × ℕ) → Type 0
  Linked none = Unit {0}
  Linked (some (t, q)) = (n : Node A) × (m.nodes t ≡ some n) × (n.next ≡ q) × (q ≢ null)

  -- A head that was loaded is still the head, or it has been popped.
  abbrev pub Popping : Option (ℕ × Bool) → Type 0
  Popping none = Unit {0}
  Popping (some (a, b)) = (x.role a ≡ past) ⊎ ((a ≡ m.head) × Front m b)

  abbrev pub Taken : Option (ℕ × A) → Type 0
  Taken none = Unit {0}
  Taken (some (a, y)) = (n : Node A) × (m.nodes a ≡ some n) × (n.item ≡ some y)

  pub record Local (p : Pc A) : Type 0 where
    pub makes : Made (made p)
    pub visits : Visited (visited p)
    pub fills : Filled (filled p)
    pub links : Linked (linked p)
    pub pops : Popping (popping p)
    pub takes : Taken (taken p)

pub record Pair {A : Type 0} (i : ℕ) (p : Pc A) (j : ℕ) (q : Pc A) : Type 0 where
  pub nothing : Unit {0}
