-- ===== src/SplitStack/Counts.antt =====
-- The two counts of a node of the stack with split counts.
use cs_learning_notes.Base.{ℕ, suc, ◌+◌, ◌%◌, ◌<◌, ◌≤◌, ◌≡◌, ◌≢◌, List, arith, length, subst}
use cs_learning_notes.Interleaving.{System}
use cs_learning_notes.Containers.{Event}
use cs_learning_notes.SplitStack.{Memory, Pc, null, int_max, int_size}
use cs_learning_notes.SplitStack.Roles.{stacked, occurrences, Tally}
use cs_learning_notes.SplitStack.Links.{Links-cons}
use cs_learning_notes.SplitStack.Invariant.{View, Global, held, share}
use cs_learning_notes.SplitStack.Linearizable.{Reaches, sound}

head-Tally :
    {A : Type 0} (x : View A) (m : Memory A)
    → Global x m
    → m.head.ptr ≢ null
    → Tally
        (stacked m.head.external_count)
        (length (x.holders m.head.ptr))
        (m.internal_count m.head.ptr)
head-Tally x m g ne =
    let (y, ds, n, cut, role, there, val, rest) =
      Links-cons x.role m.nodes m.head x.stack ne g.links in
    subst (λ r. Tally r (length (x.holders m.head.ptr)) (m.internal_count m.head.ptr)) role
      (g.tally m.head.ptr)

counts :
    (c n k : ℕ) → Tally (stacked c) n k → ((k + c) % int_size ≡ suc n) × (n < c) × (c ≤ int_max)
counts c n k h = (omega (arith, h.0, h.1, h.2), h.0, h.1)

-- The counts of the node at the head add up to one more than the number of threads that hold it, as `int`s that
-- wrap around; the external count alone is larger than that number, and has not overflowed.
pub split_counts :
    {A : Type 0} {tr : List (Event A)} {s : System (Memory A) (Pc A)}
    → Reaches tr s
    → s.mem.head.ptr ≢ null
    → (holders : List ℕ) × ((i : ℕ) → occurrences i holders ≡ share (held (s.pc i)) s.mem.head.ptr)
      × ((s.mem.internal_count s.mem.head.ptr + s.mem.head.external_count) % int_size
          ≡ suc (length holders))
      × (length holders < s.mem.head.external_count)
      × (s.mem.head.external_count ≤ int_max)
split_counts {s} r ne =
    let h = sound r in
    let (e, lt, le) =
      counts s.mem.head.external_count (length (h.x.holders s.mem.head.ptr))
        (s.mem.internal_count s.mem.head.ptr) (head-Tally h.x s.mem h.global ne) in
    (h.x.holders s.mem.head.ptr, λ i. (h.local i).holds s.mem.head.ptr, e, lt, le)
