-- ===== src/MpmcQueue/Alone.antt =====
-- A thread of the multi-producer queue that runs alone.
use cs_learning_notes.Base.{
  ℕ, suc, ◌≤◌, ◌≡◌, refl, ◌≢◌, ◌⊎◌, inl, inr, Option, none, some, arith, update, Option-cases,
  ℕ_discrete,
}
use cs_learning_notes.Interleaving.{Solo, done, alone}
use cs_learning_notes.Containers.{Event}
use cs_learning_notes.MpmcQueue.{
  Node, Memory, Pc, Move, null, blank, idle, push_load, push_data, own_tail, help_next, pop_test,
  pop_cas, pop_take, load_tail, data_win, data_fail, own_next_win, own_tail_win, own_tail_fail,
  help_next_win, help_next_fail, help_allocate, help_tail_win, test_empty, test_more, load_next,
  pop_win, pop_fail, take, leave,
}

-- Thread `i`, running alone, can end its operation within `b` steps.
abbrev pub Finishes : {A : Type 0} → ℕ → ℕ → Memory A → Pc A → Type 0
Finishes {A} b i m p = (k : ℕ) × (k ≤ b) × Solo (Move {A = A}) idle i m p k

abbrev pub Next : {A : Type 0} → Memory A → Node A → Type 0
Next m n = (n.item ≢ none) × (m.nodes n.next ≡ some blank)

-- What a push that starts over needs: where the tail has a `next`, that is a new node, and the thread's
-- own node is new.
pub record Ready {A : Type 0} (m : Memory A) (p : ℕ) : Type 0 where
  pub end : (n : Node A) × (m.nodes m.tail ≡ some n) × ((n.next ≡ null) ⊎ Next m n)
  pub mine : m.nodes p ≡ some blank
  pub apart : p ≢ m.tail

-- The head has an item, where it is not the tail.
abbrev pub Full : {A : Type 0} → Memory A → Type 0
Full {A} m =
    m.head ≢ m.tail → (n : Node A) × (y : A) × (m.nodes m.head ≡ some n) × (n.item ≡ some y)

module _ {A : Type 0} (i : ℕ) where
  S : Memory A → Pc A → ℕ → Type 0
  S m p k = Solo (Move {A = A}) idle i m p k

  -- One more step.
  pub then :
      {m m' : Memory A} {p p' : Pc A} {b : ℕ} {e : Option (Event A)}
      → Move i m p e m' p'
      → Finishes b i m' p'
      → Finishes (suc b) i m p
  then s (k, le, r) = (suc k, omega arith, alone s r)

  pub sooner : {m : Memory A} {p : Pc A} {b c : ℕ} → b ≤ c → Finishes b i m p → Finishes c i m p
  sooner le (k, le', r) = (k, omega arith, r)

  pub stop : {m : Memory A} → Finishes {A = A} 0 i m idle
  stop = (0, omega arith, done)

  -- A push at a tail that no other thread has claimed.
  pub fresh_data :
      (m : Memory A) (y : A) (p : ℕ)
      → m.nodes m.tail ≡ some blank
      → Finishes 3 i m (push_data y p m.tail)
  fresh_data m y p e = then (data_win e refl) (
      then (own_next_win {n = record { item = some y; next = null }} (ground arith) refl) (
        then (own_tail_win {n = record { item = some y; next = p }} refl (ground arith) refl) stop))

  pub fresh_push :
      (m : Memory A) (y : A) (p : ℕ) → m.nodes m.tail ≡ some blank → Finishes 4 i m (push_load y p)
  fresh_push m y p e = then load_tail (fresh_data m y p e)

  -- A tail without an item is new.
  pub is_blank :
      (m : Memory A) (n : Node A)
      → n.item ≡ none
      → m.nodes m.tail ≡ some n
      → (n.next ≡ null) ⊎ Next m n
      → m.nodes m.tail ≡ some blank
  is_blank m n h e (inl z) = ground arith
  is_blank m n h e (inr w) = absurd (w.0 h)

  -- A push that has found the tail claimed: it helps the thread that claimed it first.
  pub help_push :
      (m : Memory A) (y : A) (p b : ℕ)
      → (n : Node A) → m.nodes m.tail ≡ some n
      → (z : A) → n.item ≡ some z
      → (n.next ≡ null) ⊎ Next m n
      → m.nodes null ≡ none
      → m.nodes p ≡ some blank
      → p ≢ m.tail
      → m.nodes b ≡ none
      → b ≢ null
      → Finishes 7 i m (help_next y p m.tail)
  help_push m y p b n e z f (inl h) nn mine apart free bn =
      let linked : Node A = record n { next = p } in
      let h1 : ℕ → Option (Node A) = update m.nodes m.tail (some linked) in
      then (help_next_win e h) (
        then (help_allocate b (ground arith) bn) (
          then (help_tail_win {n = linked} refl (ground arith) f) (
            fresh_push (record m { nodes = update h1 b (some blank); tail = p }) y b
              (ground arith))))
  help_push m y p b n e z f (inr h) nn mine apart free bn = sooner (omega arith) (
      then (help_next_fail e (ground arith)) (then (help_tail_win refl e f) (fresh_push _ y p h.1)))

  pub push_again :
      (m : Memory A) (y : A) (p b : ℕ)
      → Ready m p
      → m.nodes null ≡ none
      → m.nodes b ≡ none
      → b ≢ null
      → Finishes 9 i m (push_load y p)
  push_again m y p b o nn free bn =
      let (n, e, s) = o.end in
      elim (Option-cases n.item) [
        | inl h ↦ sooner (omega arith) (fresh_push m y p (is_blank m n h e s))
        | inr (z, f) ↦
            then load_tail
              (then (data_fail e f) (help_push m y p b n e z f s nn o.mine o.apart free bn))
      ]

  -- A push that sets the tail to the node behind the one that it has claimed.
  pub set_tail :
      (m : Memory A) (t q : ℕ)
      → (m.tail ≡ t → (n : Node A) × (z : A) × (m.nodes t ≡ some n) × (n.item ≡ some z))
      → Finishes 1 i m (own_tail t q)
  set_tail m t q h = elim (ℕ_discrete m.tail t) [
    | yes same ↦ let (n, z, e, f) = h same in then (own_tail_win same e f) stop
    | no other ↦ then (own_tail_fail other) stop
  ]

  -- A pop that returns or has taken.
  pub pop_end :
      (m : Memory A) (a : ℕ) (n : Node A) (y : A)
      → m.nodes a ≡ some n
      → n.item ≡ some y
      → Finishes 2 i m (pop_take a y)
  pop_end m a n y e f = then (take e f) (then leave stop)

  -- A pop that has just loaded the head.
  pub pop_again : (m : Memory A) → Full m → Finishes 5 i m (pop_test m.head)
  pop_again m h = elim (ℕ_discrete m.head m.tail) [
    | yes same ↦ sooner (omega arith) (then (test_empty same) (then leave stop))
    | no ne ↦
        let (n, y, e, f) = h ne in
        then (test_more ne)
          (then (load_next e) (then (pop_win refl e f) (pop_end _ m.head n y e f)))
  ]

  pub pop_try :
      (m : Memory A) (a b : ℕ)
      → Full m
      → (m.head ≡ a → m.head ≢ m.tail)
      → Finishes 6 i m (pop_cas a b)
  pop_try m a b h ne = elim (ℕ_discrete m.head a) [
    | yes same ↦
        let (n, y, e, f) = h (ne same) in
        sooner (omega arith)
          (then (pop_win {n = n} same (ground arith) f) (pop_end _ a n y (ground arith) f))
    | no other ↦ then (pop_fail other) (pop_again m h)
  ]
