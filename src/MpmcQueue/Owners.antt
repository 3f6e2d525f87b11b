-- ===== src/MpmcQueue/Owners.antt =====
-- `push` of cpp/concurrency/concurrent_data_structure/mpmc_queue_ref_count.cpp: which thread answers for the
-- item in the last node.
use cs_learning_notes.Base.{
  ℕ, ◌≡◌, refl, sym, ◌∙◌, ◌≢◌, ◌⊎◌, inl, inr, ap, Option, none, some, List, arith, update,
  update_self, update_ne, ℕ_discrete,
}
use cs_learning_notes.Interleaving.{System, Sound, Reach-Sound-all}
use cs_learning_notes.Containers.{Event, Fifo}
use cs_learning_notes.MpmcQueue.{
  Node, Memory, Pc, Move, init, blank, idle, own_next, own_tail, push_new, load_tail, data_win,
  data_fail, own_next_win, own_next_fail, own_tail_win, own_tail_fail, help_next_win,
  help_next_fail, help_allocate, help_tail_win, help_tail_fail, pop_begin, load_head, test_empty,
  test_more, load_next, pop_win, pop_fail, take, leave,
}
use cs_learning_notes.MpmcQueue.Invariant.{View, items, Global, Local, Pair}
use cs_learning_notes.MpmcQueue.Steps.{keep}
use cs_learning_notes.MpmcQueue.Linearizable.{Reaches, dummy, init-Global, init-Local}
use cs_learning_notes.MpmcQueue.Pushes.{claimed}

-- The node in which a push has put its item, until it has moved `tail` or found it moved.
abbrev pub owned : {A : Type 0} → Pc A → Option ℕ
owned (own_next p t) = some t
owned (own_tail t q) = some t
owned _ = none

-- The last node has no item, or a push that put it there is under way.
abbrev pub HasOwner : {A : Type 0} → Memory A → (ℕ → Pc A) → Type 0
HasOwner {A} m pc =
    (n : Node A)
    → m.nodes m.tail ≡ some n
    → (n.item ≡ none) ⊎ ((j : ℕ) × (owned (pc j) ≡ some m.tail))

module _ {A : Type 0} (m : Memory A) (i : ℕ) (pc : ℕ → Pc A) (p p' : Pc A) (at : pc i ≡ p)
    (h : HasOwner m pc) where
  -- A step that leaves `tail` and the item there as they are.
  stay-HasOwner :
      (head : ℕ) (nodes : ℕ → Option (Node A))
      → ((n : Node A)
          → nodes m.tail ≡ some n
          → (k : Node A) × (m.nodes m.tail ≡ some k) × (n.item ≡ k.item))
      → (owned p ≡ some m.tail → owned p' ≡ some m.tail)
      → HasOwner (record m { head = head; nodes = nodes }) (update pc i p')
  stay-HasOwner head nodes same o n e =
      let (k, ek, eq) = same n e in
      elim (h k ek) [
        | inl none_there ↦ inl (eq ∙ none_there)
        | inr (j, oj) ↦ elim (ℕ_discrete i j) [
          | yes ij ↦ inr (i, ap owned (update_self pc i p') ∙ o (ap owned (sym at ∙ ap pc ij) ∙ oj))
          | no ne ↦ inr (j, ap owned (update_ne pc i p' j ne) ∙ oj)
        ]
      ]

  -- A step that writes no node and does not set `tail`.
  read-HasOwner : (owned p ≡ some m.tail → owned p' ≡ some m.tail) → HasOwner m (update pc i p')
  read-HasOwner = stay-HasOwner m.head m.nodes (λ n e. (n, e, refl))

  -- The same of a thread that owns nothing.
  other-HasOwner : owned p ≡ none → HasOwner m (update pc i p')
  other-HasOwner o = read-HasOwner (λ e. absurd (ground arith))

-- To write a `next` leaves the items as they are.
linked_item :
    {A : Type 0} (h : ℕ → Option (Node A)) (t a q : ℕ) (k : Node A)
    → h t ≡ some k
    → (n : Node A) → update h t (some (record k { next = q })) a ≡ some n
    → (k' : Node A) × (h a ≡ some k') × (n.item ≡ k'.item)
linked_item h t a q k f n e = elim (ℕ_discrete t a) [
  | yes same ↦ (k, ground arith, ground arith)
  | no ne ↦ (n, ground arith, refl)
]

-- To write one node leaves the others as they are.
elsewhere_item :
    {A : Type 0} (h : ℕ → Option (Node A)) (t a : ℕ) (o : Option (Node A))
    → t ≢ a
    → (n : Node A) → update h t o a ≡ some n
    → (k : Node A) × (h a ≡ some k) × (n.item ≡ k.item)
elsewhere_item h t a o ne n e = (n, sym (update_ne h t o a ne) ∙ e, refl)

-- A node that was not allocated is not the last one.
not_last :
    {A : Type 0} (x : View A) (m : Memory A) (q : ℕ) → Global x m → m.nodes q ≡ none → q ≢ m.tail
not_last x m q g f = let (n, en, w) = g.tail_node in ground arith

module _ {A : Type 0} (x : View A) (m : Memory A) (i : ℕ) (pc : ℕ → Pc A) where
  -- Every step keeps an owner for the item in the last node.
  keep-HasOwner :
      (p : Pc A) (e : Option (Event A)) (m' : Memory A) (p' : Pc A)
      → Move i m p e m' p'
      → Global x m
      → Local x m i p
      → pc i ≡ p
      → HasOwner m pc
      → HasOwner m' (update pc i p')
  keep-HasOwner p e m' p' (push_new y q f nn) g l at h =
      stay-HasOwner m i pc _ _ at h m.head (update m.nodes q (some blank))
        (elsewhere_item m.nodes q m.tail (some blank) (not_last x m q g f))
        (λ o. absurd (ground arith))
  keep-HasOwner p e m' p' load_tail g l at h = other-HasOwner m i pc _ _ at h refl
  keep-HasOwner p e m' p' (data_win {x = y} {p = q} {t} {n = k} f c) g l at h = λ n en.
      elim (ℕ_discrete t m.tail) [
        | yes same ↦ inr (i, ap owned (update_self pc i p') ∙ ap some same)
        | no ne ↦
            stay-HasOwner m i pc _ _ at h m.head
              (update m.nodes t (some (record k { item = some y })))
              (elsewhere_item m.nodes t m.tail (some (record k { item = some y })) ne)
              (λ o. absurd (ground arith)) n en
      ]
  keep-HasOwner p e m' p' (data_fail f c) g l at h = other-HasOwner m i pc _ _ at h refl
  keep-HasOwner p e m' p' (own_next_win {p = q} {t} {n = k} f c) g l at h =
      stay-HasOwner m i pc _ _ at h m.head (update m.nodes t (some (record k { next = q })))
        (linked_item m.nodes t m.tail q k f) (λ o. o)
  keep-HasOwner p e m' p' (own_next_fail f c) g l at h = read-HasOwner m i pc _ _ at h (λ o. o)
  keep-HasOwner p e m' p' (own_tail_win {t} {p = q} {n = k} same f c) g l at h = λ n en.
      let (k', ek, next, nz) = l.links in
      let (z, hz, new) = claimed x m i t q k' g same ek next nz in inl (ground arith)
  keep-HasOwner p e m' p' (own_tail_fail ne) g l at h =
      read-HasOwner m i pc _ _ at h (λ o. absurd (ground arith))
  keep-HasOwner p e m' p' (help_next_win {p = q} {t} {n = k} f c) g l at h =
      stay-HasOwner m i pc _ _ at h m.head (update m.nodes t (some (record k { next = q })))
        (linked_item m.nodes t m.tail q k f) (λ o. absurd (ground arith))
  keep-HasOwner p e m' p' (help_next_fail f c) g l at h = other-HasOwner m i pc _ _ at h refl
  keep-HasOwner p e m' p' (help_allocate q f nn) g l at h =
      stay-HasOwner m i pc _ _ at h m.head (update m.nodes q (some blank))
        (elsewhere_item m.nodes q m.tail (some blank) (not_last x m q g f))
        (λ o. absurd (ground arith))
  keep-HasOwner p e m' p' (help_tail_win {p = b} {t} {q} {n = k} same f c) g l at h = λ n en.
      let (k', ek, next, nz) = l.links in
      let (z, hz, new) = claimed x m i t q k' g same ek next nz in inl (ground arith)
  keep-HasOwner p e m' p' (help_tail_fail ne) g l at h = other-HasOwner m i pc _ _ at h refl
  keep-HasOwner p e m' p' pop_begin g l at h = other-HasOwner m i pc _ _ at h refl
  keep-HasOwner p e m' p' load_head g l at h = other-HasOwner m i pc _ _ at h refl
  keep-HasOwner p e m' p' (test_empty c) g l at h = other-HasOwner m i pc _ _ at h refl
  keep-HasOwner p e m' p' (test_more c) g l at h = other-HasOwner m i pc _ _ at h refl
  keep-HasOwner p e m' p' (load_next f) g l at h = other-HasOwner m i pc _ _ at h refl
  keep-HasOwner p e m' p' (pop_win {b} same f c) g l at h =
      stay-HasOwner m i pc _ _ at h b m.nodes (λ n en. (n, en, refl)) (λ o. absurd (ground arith))
  keep-HasOwner p e m' p' (pop_fail c) g l at h = other-HasOwner m i pc _ _ at h refl
  keep-HasOwner p e m' p' (take f c) g l at h = other-HasOwner m i pc _ _ at h refl
  keep-HasOwner p e m' p' leave g l at h = other-HasOwner m i pc _ _ at h refl

module _ {A : Type 0} {tr : List (Event A)} {s : System (Memory A) (Pc A)} where
  pub mpmc-HasOwner :
      Reaches tr s → (h : Sound items Fifo Global Local Pair dummy tr s) × HasOwner s.mem s.pc
  mpmc-HasOwner r =
      Reach-Sound-all items Fifo Global Local Pair Move init idle dummy init-Global init-Local
        (λ i j. record { nothing = tt }) keep (λ x s. HasOwner s.mem s.pc)
        (λ n e. inl (ground arith))
        (λ x s i e m p mv g l h. keep-HasOwner x s.mem i s.pc (s.pc i) e m p mv g l refl h) r
