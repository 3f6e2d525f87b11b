-- ===== src/SplitStack/Linearizable.antt =====
-- The stack with split counts as its clients see it, under every interleaving.
use cs_learning_notes.Base.{
  ℕ, ◌≡◌, refl, ◌≢◌, ◌∙◌, inl, inr, Option, none, some, List, [], ◌∷◌, arith, Option-cases, subst,
}
use cs_learning_notes.Chain.{Cell, Chain, Outside, values}
use cs_learning_notes.Interleaving.{Reach, System, Sound, Reach-Sound, Replays}
use cs_learning_notes.Containers.{Event, Lifo}
use cs_learning_notes.SplitStack.{
  CountedNodePtr, Node, Memory, Pc, Move, init, idle, null, push_cas, pop_next, pop_cas, pop_take,
  pop_merge, pop_delete, pop_release, retry_delete,
}
use cs_learning_notes.SplitStack.Roles.{
  Role, unused, own, stacked, claimed, merged, doomed, occurrences, nobody, occurrences_le,
}
use cs_learning_notes.SplitStack.Links.{Links}
use cs_learning_notes.SplitStack.Invariant.{View, items, Global, Local, Pair, held}
use cs_learning_notes.SplitStack.Steps.{keep}

abbrev pub Reaches : {A : Type 0} → List (Event A) → System (Memory A) (Pc A) → Type 0
Reaches = Reach Move init idle

abbrev no_view : {A : Type 0} → View A
no_view = record { stack = []; role = λ _. unused; holders = λ _. [] }

-- A node with its item and the address of the next one.
abbrev pub Points : {A : Type 0} → (ℕ → Option (Node A)) → ℕ → A → ℕ → Type 0
Points {A} h a x r = (n : Node A) × (h a ≡ some n) × (n.data_ ≡ x) × (n.next.ptr ≡ r)

Links-Chain :
    {A : Type 0} (role : ℕ → Role) (h : ℕ → Option (Node A)) (l : CountedNodePtr)
    (cs : List (Cell A))
    → Links role h l cs
    → Chain (Points h) l.ptr cs null
Links-Chain role h l [] c = c
Links-Chain role h l ((a, x) ∷ cs) (e, r, n, p, d, rest) =
    (e, n.next.ptr, (n, p, d, refl), Links-Chain role h n.next cs rest)

module _ {A : Type 0} {tr : List (Event A)} {s : System (Memory A) (Pc A)} where
  pub sound : Reaches tr s → Sound items Lifo Global Local Pair no_view tr s
  sound r =
      Reach-Sound items Lifo Global Local Pair Move init idle no_view
        (record {
          links = refl;
          distinct = tt;
          tally = λ a. refl;
          on_stack = λ a c e. absurd (ground arith);
          free = λ a e. refl;
          used = λ a e. refl;
          no_null = refl;
        })
        (λ i. record { holds = λ a. refl; owns = tt; only = λ a e. ground arith; knows = tt })
        (λ i j. record { nothing = tt }) keep r

  -- After any interleaving of any number of threads the nodes from `head` on hold what an abstract stack holds
  -- after the same operations, done one at a time in the order of their events.
  pub split_linearizable :
      Reaches tr s
      → (cs : List (Cell A)) × Replays Lifo [] tr (values cs)
        × Chain (Points s.mem.nodes) s.mem.head.ptr cs null
  split_linearizable r =
      let h = sound r in
      (h.x.stack, h.replays, Links-Chain h.x.role s.mem.nodes s.mem.head h.x.stack h.global.links)

-- Where every thread is idle, a node that is allocated is on the stack.
idle_stacked :
    {A : Type 0} (x : View A) (m : Memory A) (a : ℕ) (r : Role)
    → Global x m
    → ((i : ℕ) → Local x m i idle)
    → x.role a ≡ r
    → m.nodes a ≢ none
    → ¬ Outside a x.stack
idle_stacked x m a unused g l e ne = absurd (ne (g.used a e))
idle_stacked x m a (own i) g l e ne = absurd (ground (arith, (l i).only a))
idle_stacked x m a (claimed i c) g l e ne = absurd (ground (arith, (l i).only a))
idle_stacked x m a (doomed i) g l e ne = absurd (ground (arith, (l i).only a))
idle_stacked x m a (stacked c) g l e ne = g.on_stack a c e
idle_stacked x m a merged g l e ne =
    let none_left : x.holders a ≡ [] = nobody (x.holders a) (λ i. (l i).holds a) in
    absurd (ground (arith, g.tally a))

-- When every thread is done, the nodes that are allocated are those on the stack: every other node has been
-- deleted.
pub split_no_leak :
    {A : Type 0} {tr : List (Event A)} {s : System (Memory A) (Pc A)}
    → Reaches tr s
    → ((i : ℕ) → s.pc i ≡ idle)
    → (cs : List (Cell A)) × Chain (Points s.mem.nodes) s.mem.head.ptr cs null
      × ((a : ℕ) (n : Node A) → s.mem.nodes a ≡ some n → ¬ Outside a cs)
split_no_leak {s} r quiet =
    let h = sound r in
    (
      h.x.stack,
      Links-Chain h.x.role s.mem.nodes s.mem.head h.x.stack h.global.links,
      λ a n e.
          idle_stacked h.x s.mem a (h.x.role a) h.global
            (λ i. subst (λ p. Local h.x s.mem i p) (quiet i) (h.local i)) refl (λ z. cc),
    )

-- What a thread needs at its next access: the node that it reads, writes or deletes is allocated, the `next` that
-- it has read is that of its node, and the item that `pop` returns is the one that left the stack at its
-- event.
abbrev pub Defined : {A : Type 0} → Memory A → Pc A → Type 0
Defined m (push_cas x p l) = m.nodes p ≡ some (record { data_ = x; next = l })
Defined {A} m (pop_next c a) = (n : Node A) × (m.nodes a ≡ some n)
Defined {A} m (pop_cas c a l) = (n : Node A) × (m.nodes a ≡ some n) × (n.next ≡ l)
Defined {A} m (pop_take c a x) = (n : Node A) × (m.nodes a ≡ some n) × (n.data_ ≡ x)
Defined {A} m (pop_merge c a r) = (n : Node A) × (m.nodes a ≡ some n)
Defined {A} m (pop_delete a r) = (n : Node A) × (m.nodes a ≡ some n)
Defined {A} m (pop_release a l) = (n : Node A) × (m.nodes a ≡ some n)
Defined {A} m (retry_delete a l) = (n : Node A) × (m.nodes a ≡ some n)
Defined m _ = Unit {0}

module _ {A : Type 0} (x : View A) (m : Memory A) where
  used_node : (a : ℕ) → Global x m → x.role a ≢ unused → (n : Node A) × (m.nodes a ≡ some n)
  used_node a g ne = elim (Option-cases (m.nodes a)) [
    | inl e ↦ absurd (ne (g.free a e))
    | inr h ↦ h
  ]

  held_node :
      (i : ℕ) (p : Pc A) (a : ℕ)
      → held p ≡ some a
      → Global x m
      → Local x m i p
      → (n : Node A) × (m.nodes a ≡ some n)
  held_node i p a e g l =
      let one : occurrences i (x.holders a) ≡ 1 = l.holds a ∙ (rw e (ground arith)) in
      used_node a g (λ z. ground (arith, g.tally a, occurrences_le i (x.holders a)))

  Local-Defined : (i : ℕ) (p : Pc A) → Global x m → Local x m i p → Defined m p
  Local-Defined i (push_cas y p l) g h = h.knows
  Local-Defined i (pop_next c a) g h = held_node i (pop_next c a) a refl g h
  Local-Defined i (pop_cas c a l) g h = h.knows
  Local-Defined i (pop_take c a y) g h = h.knows
  Local-Defined i (pop_merge c a r) g h = held_node i (pop_merge c a r) a refl g h
  Local-Defined i (pop_delete a r) g h = used_node a g (λ z. ground (arith, h.owns))
  Local-Defined i (pop_release a l) g h = held_node i (pop_release a l) a refl g h
  Local-Defined i (retry_delete a l) g h = used_node a g (λ z. ground (arith, h.owns))
  Local-Defined i idle g h = tt
  Local-Defined i _ g h = tt

-- No thread reads, writes or deletes a node that is not allocated, although the threads delete nodes, and `pop`
-- returns the item of its event.
pub split_no_fault :
    {A : Type 0} {tr : List (Event A)} {s : System (Memory A) (Pc A)}
    → Reaches tr s
    → (i : ℕ) → Defined s.mem (s.pc i)
split_no_fault {s} r i = let h = sound r in Local-Defined h.x s.mem i (s.pc i) h.global (h.local i)
