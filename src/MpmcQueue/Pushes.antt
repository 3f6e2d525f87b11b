-- ===== src/MpmcQueue/Pushes.antt =====
-- Pushes of the multi-producer queue that run alone from a state of the invariant.
use cs_learning_notes.Base.{
  ℕ, true, ◌≡◌, refl, sym, ◌≢◌, ◌⊎◌, inl, inr, none, some, arith, Option-cases, ℕ_discrete,
}
use cs_learning_notes.MpmcQueue.Roles.{spare, shown}
use cs_learning_notes.MpmcQueue.Invariant.{View, Global, Tail}
use cs_learning_notes.MpmcQueue.Ends.{head_cell}
use cs_learning_notes.MpmcQueue.{
  Node, Memory, null, blank, push_load, push_data, own_next, help_next, data_fail, own_next_win,
  own_next_fail, help_next_fail, help_tail_fail,
}
use cs_learning_notes.MpmcQueue.Alone.{
  Finishes, Ready, Next, Full, then, sooner, fresh_data, is_blank, help_push, push_again, set_tail,
}

module _ {A : Type 0} (x : View A) (m : Memory A) (i : ℕ) where
  pub end_state :
      Global x m → (n : Node A) × (m.nodes m.tail ≡ some n) × ((n.next ≡ null) ⊎ Next m n)
  end_state g = let (n, e, s) = g.tail_node in (n, e, weaken n s)
    where
      weaken : (n : Node A) → (n.next ≡ null) ⊎ Tail x m n → (n.next ≡ null) ⊎ Next m n
      weaken n (inl z) = inl z
      weaken n (inr w) = inr (w.claimed, w.new)

  pub is_Ready : (p : ℕ) → Global x m → x.role p ≡ spare i → m.nodes p ≡ some blank → Ready m p
  is_Ready p g r e = record { end = end_state g; mine = e; apart = ground (arith, g.tail_role) }

  pub head-Full : Global x m → Full m
  head-Full g ne = let (y, r, ds, e, pts, c) = head_cell x m i g ne in (_, y, pts, refl)

  -- A tail that a thread has loaded is still the tail, or it is linked.
  pub stale :
      (t : ℕ) (n : Node A)
      → Global x m
      → shown (x.role t) ≡ true
      → m.nodes t ≡ some n
      → t ≢ m.tail
      → (n.next ≢ null) × (y : A) × (n.item ≡ some y)
  stale t n g s e ne =
      let (y, r, f, nn) = g.full t (ground (arith, g.one_tail t)) in
      (λ z. nn (ground arith), y, ground arith)

  pub push_Finishes :
      (y : A) (p b : ℕ)
      → Global x m
      → x.role p ≡ spare i
      → m.nodes p ≡ some blank
      → m.nodes b ≡ none
      → b ≢ null
      → Finishes 9 i m (push_load y p)
  push_Finishes y p b g r e free nn = push_again i m y p b (is_Ready p g r e) g.no_null free nn

  -- A push that has loaded a tail with an item.
  pub help_Finishes :
      (y : A) (p b t : ℕ) (n : Node A) (z : A)
      → Global x m
      → x.role p ≡ spare i
      → m.nodes p ≡ some blank
      → shown (x.role t) ≡ true
      → m.nodes t ≡ some n
      → n.item ≡ some z
      → m.nodes b ≡ none
      → b ≢ null
      → Finishes 11 i m (help_next y p t)
  help_Finishes y p b t n z g r e s f h free nn = elim (ℕ_discrete t m.tail) [
    | yes same ↦
        let (k, ek, w) = end_state g in
        let o : Ready m p = is_Ready p g r e in
        rw same (
          sooner i (omega arith)
            (help_push i m y p b k ek z (ground arith) w g.no_null e o.apart free nn))
    | no other ↦
        let (nz, y', f') = stale t n g s f other in
        then i (help_next_fail f nz)
          (then i (help_tail_fail (λ k. other (sym k))) (push_Finishes y p b g r e free nn))
  ]

  pub data_Finishes :
      (y : A) (p b t : ℕ)
      → Global x m
      → x.role p ≡ spare i
      → m.nodes p ≡ some blank
      → shown (x.role t) ≡ true
      → m.nodes b ≡ none
      → b ≢ null
      → Finishes 12 i m (push_data y p t)
  data_Finishes y p b t g r e s free nn = elim (Option-cases (m.nodes t)) [
    | inl h ↦ absurd (ground (arith, g.free t))
    | inr (n, h) ↦ elim (Option-cases n.item) [
      | inl k ↦
          let same : t ≡ m.tail = current n h k in
          let (u, eu, w) = end_state g in
          rw same (sooner i (omega arith) (fresh_data i m y p (is_blank i m u (ground arith) eu w)))
      | inr (z, f) ↦ then i (data_fail h f) (help_Finishes y p b t n z g r e s h f free nn)
    ]
  ]
    where
      current : (n : Node A) → m.nodes t ≡ some n → n.item ≡ none → t ≡ m.tail
      current n h k = elim (ℕ_discrete t m.tail) [
        | yes same ↦ same
        | no other ↦ absurd (ground (arith, stale t n g s h other))
      ]

  -- A push that has claimed the tail.
  pub own_Finishes :
      (p t : ℕ)
      → Global x m
      → (n : Node A) × (m.nodes t ≡ some n) × (n.item ≢ none)
      → Finishes 2 i m (own_next p t)
  own_Finishes p t g (n, e, ne) = elim (Option-cases n.item) [
    | inl h ↦ absurd (ne h)
    | inr (z, f) ↦ elim (ℕ_discrete n.next null) [
      | yes nil ↦
          then i (own_next_win e nil)
            (set_tail i _ t p (λ k. (record n { next = p }, z, ground arith, f)))
      | no nn ↦ then i (own_next_fail e nn) (set_tail i m t n.next (λ k. (n, z, e, f)))
    ]
  ]

  pub claimed :
      (t q : ℕ) (n : Node A)
      → Global x m
      → m.tail ≡ t
      → m.nodes t ≡ some n
      → n.next ≡ q
      → q ≢ null
      → (z : A) × (n.item ≡ some z) × (m.nodes q ≡ some blank)
  claimed t q n g same e f nn = let (k, ek, w) = end_state g in from k ek w
    where
      from :
          (k : Node A)
          → m.nodes m.tail ≡ some k
          → (k.next ≡ null) ⊎ Next m k
          → (z : A) × (n.item ≡ some z) × (m.nodes q ≡ some blank)
      from k ek (inl w) = absurd (ground arith)
      from k ek (inr w) = elim (Option-cases n.item) [
        | inl h ↦ absurd (ground arith)
        | inr (z, h) ↦ (z, h, ground arith)
      ]
