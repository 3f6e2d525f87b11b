-- ===== src/HazardStack/Linearizable.antt =====
-- The hazard-pointer stack as its clients see it, under every interleaving.
use cs_learning_notes.Base.{ℕ, ◌<◌, ◌≤◌, arith, ◌≡◌, refl, ◌≢◌, Option, none, some, List, []}
use cs_learning_notes.Chain.{Cell, Chain, Chain-cons, values}
use cs_learning_notes.Interleaving.{Reach, System, Sound, Reach-Sound, Replays}
use cs_learning_notes.Containers.{Event, Lifo}
use cs_learning_notes.StackNode.{Node, Points, null}
use cs_learning_notes.HazardStack.{
  Memory, Pc, Move, init, idle, push_cas, protect, read_next, pop_cas, take, scan, add_write,
  add_cas, drain, max_hazard_pointers,
}
use cs_learning_notes.HazardStack.Roles.{unused}
use cs_learning_notes.HazardStack.Invariant.{
  View, items, Global, Local, Pair, Covered, protected, scanned,
}
use cs_learning_notes.HazardStack.Steps.{keep}

abbrev pub Reaches : {A : Type 0} → List (Event A) → System (Memory A) (Pc A) → Type 0
Reaches = Reach Move init idle

abbrev no_view : {A : Type 0} → View A
no_view = record { stack = []; list = []; role = λ _. unused }

module _ {A : Type 0} {tr : List (Event A)} {s : System (Memory A) (Pc A)} where
  sound : Reaches tr s → Sound items Lifo Global Local Pair no_view tr s
  sound r =
      Reach-Sound items Lifo Global Local Pair Move init idle no_view
        (record {
          chain = refl;
          stacked = tt;
          distinct = tt;
          list = refl;
          listed = tt;
          list_distinct = tt;
          free = λ a e. refl;
          no_null = refl;
        })
        (λ i. record {
          spot = λ k e. cc;
          uses = tt;
          makes = tt;
          stores = tt;
          protects = tt;
          reads = tt;
          spends = tt;
          pends = tt;
        })
        (λ i j. record { covered = tt }) keep r

  -- After any interleaving of any number of threads, with their starts and ends, the nodes from `head` on
  -- hold what an abstract stack holds after the same operations, done one at a time in the order of
  -- their events.
  pub hazard_linearizable :
      Reaches tr s
      → (cs : List (Cell A)) × Replays Lifo [] tr (values cs)
        × Chain (Points s.mem.nodes) s.mem.head cs null
  hazard_linearizable r = let h = sound r in (h.x.stack, h.replays, h.global.chain)

-- What a thread needs at its next access: the node that it reads, writes or deletes is allocated, its
-- hazard pointer is a spot of the array, and the item that `pop` returns is the one that left the stack at
-- its event.
abbrev pub Defined : {A : Type 0} → Memory A → ℕ → Pc A → Type 0
Defined {A} m i (push_cas x p e) = m.nodes p ≡ some (record { data_ = x; next = e })
Defined {A} m i (protect k a) = (m.hazard i ≡ some k) × (k < max_hazard_pointers)
Defined {A} m i (read_next k a) = (n : Node A) × (m.nodes a ≡ some n)
Defined {A} m i (take a x) = (n : Node A) × (m.nodes a ≡ some n) × (n.data_ ≡ x)
Defined {A} m i (scan a c t r) = (n : Node A) × (m.nodes a ≡ some n)
Defined {A} m i (add_write a e t r) = (n : Node A) × (m.nodes a ≡ some n)
Defined {A} m i (add_cas a e t r) = (n : Node A) × (m.nodes a ≡ some n) × (n.next ≡ e)
Defined {A} m i (drain a r) = a ≢ null → (n : Node A) × (m.nodes a ≡ some n)
Defined m i _ = Unit {0}

Local-Defined :
    {A : Type 0} (x : View A) (m : Memory A) (i : ℕ) (p : Pc A) → Local x m i p → Defined m i p
Local-Defined x m i (push_cas y p e) l = l.makes.1
Local-Defined x m i (protect k a) l = (l.uses, (l.spot k l.uses).1)
Local-Defined x m i (read_next k a) l = (l.protects.1, l.protects.2)
Local-Defined x m i (take a y) l = (l.spends.1, l.spends.2, l.spends.3)
Local-Defined x m i (scan a c t r) l = (l.spends.1, l.spends.2)
Local-Defined x m i (add_write a e t r) l = (l.spends.1, l.spends.2)
Local-Defined x m i (add_cas a e t r) l = (l.spends.1, l.spends.2, l.spends.3)
Local-Defined x m i (drain a r) l = λ ne.
    let (ds, c, all, d, _) = l.pends in
    let (y, b, es, e, pts, rest) = Chain-cons (Points m.nodes) a null ds ne c in
    (record { data_ = y; next = b }, pts)
Local-Defined x m i idle l = tt
Local-Defined x m i _ l = tt

-- No thread reads or writes a node that is not allocated, although the threads delete nodes: neither
-- `old_head->next` under its hazard pointer, nor a node that it is about to delete or to hand on, nor one
-- of the list that it goes through; and `pop` returns the item of its event.
pub hazard_no_fault :
    {A : Type 0} {tr : List (Event A)} {s : System (Memory A) (Pc A)}
    → Reaches tr s
    → (i : ℕ) → Defined s.mem i (s.pc i)
hazard_no_fault {s} r i = let h = sound r in Local-Defined h.x s.mem i (s.pc i) (h.local i)

-- A thread that reads a node under its hazard pointer, or has read it for its compare-exchange, and the
-- spot of the pointer.
abbrev pub depends_on : {A : Type 0} → Pc A → Option (ℕ × ℕ)
depends_on (read_next k a) = some (k, a)
depends_on (pop_cas k a n) = some (k, a)
depends_on _ = none

-- A thread that looks for a node among the hazard pointers before it deletes it, and the spot that is next.
abbrev pub looks_for : {A : Type 0} → Pc A → Option (ℕ × ℕ)
looks_for (scan a c t r) = some (a, c)
looks_for _ = none

behind :
    {A : Type 0} (x : View A) (m : Memory A) (i : ℕ) (p q : Pc A) (k a c : ℕ)
    → depends_on p ≡ some (k, a)
    → looks_for q ≡ some (a, c)
    → Local x m i p
    → Covered (protected p) (scanned q)
    → (c ≤ k) × (k < max_hazard_pointers) × (m.ptrs k ≡ a)
behind x m i (read_next k' a') (scan b d t r) k a c e f l w =
    ground (arith, l.spot k', w (ground arith))
behind x m i (pop_cas k' a' n) (scan b d t r) k a c e f l w =
    ground (arith, l.spot k', w (ground arith))
behind x m i idle q k a c e f l w = cc
behind x m i _ idle k a c e f l w = cc
behind x m i _ _ k a c e f l w = cc

-- While a thread depends on a node, no other thread that looks for the node has passed the spot, of the
-- array, at which the first one's hazard pointer stands: so none has looked at all and deletes the node.
pub hazard_protects :
    {A : Type 0} {tr : List (Event A)} {s : System (Memory A) (Pc A)}
    → Reaches tr s
    → (i j k a c : ℕ) → i ≢ j
    → depends_on (s.pc i) ≡ some (k, a)
    → looks_for (s.pc j) ≡ some (a, c)
    → (c ≤ k) × (k < max_hazard_pointers) × (s.mem.ptrs k ≡ a)
hazard_protects {s} r i j k a c ne e f =
    let h = sound r in
    behind h.x s.mem i (s.pc i) (s.pc j) k a c e f (h.local i) ((h.pairs i j ne).covered)

-- No two threads have the same spot.
pub spots_differ :
    {A : Type 0} {tr : List (Event A)} {s : System (Memory A) (Pc A)}
    → Reaches tr s
    → (i j k : ℕ) → i ≢ j
    → s.mem.hazard i ≡ some k
    → (s.mem.hazard j ≢ some k) × (k < max_hazard_pointers)
spots_differ r i j k ne e =
    let h = sound r in
    (
      λ f. ground (arith, (h.local i).spot k, (h.local j).spot k),
      ground (arith, (h.local i).spot k),
    )
