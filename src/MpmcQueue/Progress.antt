-- ===== src/MpmcQueue/Progress.antt =====
-- The multi-producer queue waits for no thread.
use cs_learning_notes.Base.{
  ℕ, ◌≡◌, ◌≢◌, ◌⊎◌, inl, inr, none, some, List, arith, update, Option-cases, ℕ_discrete,
}
use cs_learning_notes.Interleaving.{System}
use cs_learning_notes.Containers.{Event}
use cs_learning_notes.MpmcQueue.Roles.{spare, past}
use cs_learning_notes.MpmcQueue.Invariant.{View, Global, Local, Linked}
use cs_learning_notes.MpmcQueue.Ends.{at_front}
use cs_learning_notes.MpmcQueue.Linearizable.{Reaches, sound, node_there, was_head}
use cs_learning_notes.MpmcQueue.{
  Node, Memory, Pc, null, blank, idle, push_load, push_data, own_next, own_tail, help_next,
  help_new, help_tail, pop_load, pop_test, pop_next, pop_cas, pop_take, returned, help_allocate,
  help_tail_win, help_tail_fail, load_head, test_empty, test_more, load_next, leave,
}
use cs_learning_notes.MpmcQueue.Alone.{
  Finishes, Next, then, sooner, stop, fresh_push, push_again, set_tail, pop_end, pop_again, pop_try,
}
use cs_learning_notes.MpmcQueue.Pushes.{
  end_state, head-Full, push_Finishes, help_Finishes, data_Finishes, own_Finishes, claimed,
}

module _ {A : Type 0} (x : View A) (m : Memory A) (i : ℕ) where
  -- A push that has linked its node, or found the tail linked.
  tail_Finishes :
      (y : A) (p b t q : ℕ)
      → Global x m
      → Linked x m i (some (t, q))
      → x.role p ≡ spare i
      → m.nodes p ≡ some blank
      → m.nodes b ≡ none
      → b ≢ null
      → Finishes 10 i m (help_tail y p t q)
  tail_Finishes y p b t q g (n, e, f, nz) r o free nn = elim (ℕ_discrete m.tail t) [
    | yes same ↦
        let (z, h, new) = claimed x m i t q n g same e f nz in
        sooner i (omega arith)
          (then i (help_tail_win same e h) (fresh_push i (record m { tail = q }) y p new))
    | no other ↦ then i (help_tail_fail other) (push_Finishes x m i y p b g r o free nn)
  ]

  abbrev pub with_node : ℕ → Memory A
  with_node b = record m { nodes = update m.nodes b (some blank) }

  -- A push that has handed its node on.
  new_Finishes :
      (y : A) (t q b c : ℕ)
      → Global x m
      → Linked x m i (some (t, q))
      → m.nodes b ≡ none
      → b ≢ null
      → m.nodes c ≡ none
      → c ≢ null
      → b ≢ c
      → Finishes 11 i m (help_new y t q)
  new_Finishes y t q b c g (n, e, f, nz) free nn free' nn' bc =
      then i (help_allocate b free nn) (elim (ℕ_discrete m.tail t) [
        | yes same ↦
            let (z, h, new) = claimed x m i t q n g same e f nz in
            sooner i (omega arith) (
              then i (help_tail_win {n = n} same (ground arith) h)
                (fresh_push i (record (with_node b) { tail = q }) y b (ground arith)))
        | no other ↦ then i (help_tail_fail other) (
            push_again i (with_node b) y b c
              (record {
                end = let (k, ek, w) = end_state x m i g in (k, ground arith, kept k w);
                mine = ground arith;
                apart = let (k, ek, w) = end_state x m i g in ground arith;
              })
              (ground (arith, g.no_null)) (ground arith) nn')
      ])
    where
      kept : (k : Node A) → (k.next ≡ null) ⊎ Next m k → (k.next ≡ null) ⊎ Next (with_node b) k
      kept k (inl w) = inl w
      kept k (inr w) = inr (w.0, ground arith)

  beyond :
      (a : ℕ)
      → a ≢ m.tail
      → (x.role a ≡ past) ⊎ ((a ≡ m.head) × Unit {0})
      → (x.role a ≡ past) ⊎ ((a ≡ m.head) × (m.head ≢ m.tail))
  beyond a ne (inl r) = inl r
  beyond a ne (inr h) = inr (h.0, ground arith)

  Local-Finishes :
      (p : Pc A) (b c : ℕ)
      → m.nodes b ≡ none
      → b ≢ null
      → m.nodes c ≡ none
      → c ≢ null
      → b ≢ c
      → Global x m
      → Local x m i p
      → Finishes 12 i m p
  Local-Finishes idle b c f nn f' nn' ne g l = sooner i (omega arith) (stop i)
  Local-Finishes (push_load y p) b c f nn f' nn' ne g l =
      sooner i (omega arith) (push_Finishes x m i y p b g l.makes.0 l.makes.1 f nn)
  Local-Finishes (push_data y p t) b c f nn f' nn' ne g l =
      data_Finishes x m i y p b t g l.makes.0 l.makes.1 l.visits f nn
  Local-Finishes (own_next p t) b c f nn f' nn' ne g l =
      sooner i (omega arith) (own_Finishes x m i p t g l.fills)
  Local-Finishes (own_tail t q) b c f nn f' nn' ne g l =
      let (n, e, h, nz) = l.links in
      sooner i (omega arith)
        (set_tail i m t q (λ k. let (z, w, new) = claimed x m i t q n g k e h nz in (n, z, e, w)))
  Local-Finishes (help_next y p t) b c f nn f' nn' ne g l =
      let (n, e, k) = l.fills in
      elim (Option-cases n.item) [
        | inl h ↦ absurd (k h)
        | inr (z, h) ↦
            sooner i (omega arith)
              (help_Finishes x m i y p b t n z g l.makes.0 l.makes.1 l.visits e h f nn)
      ]
  Local-Finishes (help_new y t q) b c f nn f' nn' ne g l =
      sooner i (omega arith) (new_Finishes y t q b c g l.links f nn f' nn' ne)
  Local-Finishes (help_tail y p t q) b c f nn f' nn' ne g l =
      sooner i (omega arith) (tail_Finishes y p b t q g l.links l.makes.0 l.makes.1 f nn)
  Local-Finishes pop_load b c f nn f' nn' ne g l =
      sooner i (omega arith) (then i load_head (pop_again i m (head-Full x m i g)))
  Local-Finishes (pop_test a) b c f nn f' nn' ne g l = elim (ℕ_discrete a m.tail) [
    | yes same ↦ sooner i (omega arith) (then i (test_empty same) (then i leave (stop i)))
    | no other ↦
        let front : (x.role a ≡ past) ⊎ ((a ≡ m.head) × (m.head ≢ m.tail)) =
          beyond a other l.pops in
        let (n, e) = node_there x m a g (was_head x m i a g front) in
        sooner i (omega arith) (
          then i (test_more other) (
            then i (load_next e)
              (pop_try i m a n.next (head-Full x m i g) (λ k. at_front x m i a k g front))))
  ]
  Local-Finishes (pop_next a) b c f nn f' nn' ne g l =
      let (n, e) = node_there x m a g (was_head x m i a g l.pops) in
      sooner i (omega arith) (
        then i (load_next e)
          (pop_try i m a n.next (head-Full x m i g) (λ k. at_front x m i a k g l.pops)))
  Local-Finishes (pop_cas a q) b c f nn f' nn' ne g l =
      sooner i (omega arith)
        (pop_try i m a q (head-Full x m i g) (λ k. at_front x m i a k g l.pops))
  Local-Finishes (pop_take a y) b c f nn f' nn' ne g l =
      let (n, e, h) = l.takes in sooner i (omega arith) (pop_end i m a n y e h)
  Local-Finishes (returned r) b c f nn f' nn' ne g l =
      sooner i (omega arith) (then i leave (stop i))

-- From every reachable state a thread that runs alone, with memory for two nodes, can end its operation in
-- twelve steps at most.
pub mpmc_alone-Finishes :
    {A : Type 0} {tr : List (Event A)} {s : System (Memory A) (Pc A)}
    → Reaches tr s
    → (i b c : ℕ) → s.mem.nodes b ≡ none
    → b ≢ null
    → s.mem.nodes c ≡ none
    → c ≢ null
    → b ≢ c
    → Finishes 12 i s.mem (s.pc i)
mpmc_alone-Finishes {s} r i b c f nn f' nn' ne =
    let h = sound r in Local-Finishes h.x s.mem i (s.pc i) b c f nn f' nn' ne h.global (h.local i)
