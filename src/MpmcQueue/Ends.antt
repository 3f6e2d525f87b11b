-- ===== src/MpmcQueue/Ends.antt =====
-- The steps of the multi-producer queue that move `tail` or `head`, or find the two the same.
use cs_learning_notes.Base.{
  ℕ, ◌≡◌, ◌≢◌, ◌⊎◌, inl, inr, refl, sym, subst, ◌∙◌, none, some, Bool, true, false, List, [], ◌∷◌,
  ◌++◌, arith, update, ℕ_discrete,
}
use cs_learning_notes.Chain.{
  Cell, Chain, Outside, Distinct, Chain-snoc, Chain-cons, Chain-nil, Distinct-snoc, values,
  values-append,
}
use cs_learning_notes.Chain.Labels.{AllRole, AllRole-Outside, AllRole-update, AllRole-snoc}
use cs_learning_notes.Containers.{put, took, empty}
use cs_learning_notes.MpmcQueue.{
  Node, Memory, Pc, null, blank, pop_cas, pop_take, pop_test, returned,
}
use cs_learning_notes.MpmcQueue.Roles.{Role, spare, ahead, last, queued, past, settled}
use cs_learning_notes.MpmcQueue.Invariant.{View, Global, Local, Tail, Points, Front}
use cs_learning_notes.MpmcQueue.Frames.{K, keeps, quiet}
use cs_learning_notes.MpmcQueue.Writes.{tail_state}

module _ {A : Type 0} (x : View A) (m : Memory A) (i : ℕ) where
  pub off_tail : Global x m → Outside m.tail x.queue
  off_tail g = AllRole-Outside x.role queued m.tail x.queue (ground (arith, g.tail_role)) g.in_queue

  -- The node at the head, where it is not the tail.
  pub head_cell :
      Global x m
      → m.head ≢ m.tail
      → (y : A) × (r : ℕ) × (ds : List (Cell A)) × (x.queue ≡ (m.head, y) ∷ ds)
        × Points m.nodes m.head y r
        × Chain (Points m.nodes) r ds m.tail
  head_cell g ne = Chain-cons (Points m.nodes) m.head m.tail x.queue ne g.chain

  pub head-queued : Global x m → m.head ≢ m.tail → x.role m.head ≡ queued
  head-queued g ne =
      let (y, r, ds, e, pts, c) = head_cell g ne in
      let all : AllRole x.role queued ((m.head, y) ∷ ds) = rw e at (g.in_queue) in all.0

  -- `tail` moves on to the node behind it.
  pub keep_tail :
      (p : Pc A) (t q : ℕ) (n : Node A) (y : A) (p' : Pc A)
      → m.tail ≡ t
      → m.nodes t ≡ some n
      → n.item ≡ some y
      → n.next ≡ q
      → q ≢ null
      → Global x m
      → Local
          (record { queue = x.queue ++ (t, y) ∷ []; role = update (update x.role t queued) q last })
          (record m { tail = q })
          i
          p'
      → K x m i p (some (put y)) (record m { tail = q }) p'
  keep_tail p t q n y p' at_tail e f h nn g l =
      let w : Tail x m n = linked_tail (tail_state x m i t n e (sym at_tail) g) in
      let role_t : x.role t ≡ last = ground (arith, g.tail_role) in
      let role_q : x.role q ≡ ahead = subst (λ b. x.role b ≡ ahead) h w.ahead in
      let new_q : m.nodes q ≡ some blank = subst (λ b. m.nodes b ≡ some blank) h w.new in
      let off : Outside t x.queue =
        AllRole-Outside x.role queued t x.queue (ground arith) g.in_queue in
      let off' : Outside q x.queue =
        AllRole-Outside x.role queued q x.queue (ground arith) g.in_queue in
      let role : ℕ → Role = update (update x.role t queued) q last in
      keeps x m i (record { queue = x.queue ++ (t, y) ∷ []; role = role }) p (some (put y))
        (record m { tail = q }) p' (values-append x.queue ((t, y) ∷ []))
        (record {
          chain =
              Chain-snoc (Points m.nodes) m.head t q y x.queue
                (subst (λ b. Chain (Points m.nodes) m.head x.queue b) at_tail g.chain)
                (ground arith);
          in_queue =
              AllRole-snoc role queued t y x.queue
                (AllRole-update (update x.role t queued) queued last q x.queue off'
                  (AllRole-update x.role queued queued t x.queue off g.in_queue))
                (ground arith);
          distinct = Distinct-snoc t y x.queue g.distinct off;
          tail_node = (blank, new_q, inl refl);
          tail_role = ground arith;
          one_tail = λ b k. ground (arith, g.one_tail b);
          full = λ b s. elim (ℕ_discrete t b) [
            | yes same ↦ (y, q, ground arith, nn)
            | no other ↦ g.full b (ground arith)
          ];
          free = λ b. ground (arith, g.free b);
          no_null = g.no_null;
        })
        l
        (record {
          grows = λ a k z. (k, z, ((λ _. refl), (λ _. refl)));
          spares = λ a j ne r z. (ground arith, z);
          shows = λ a s. ground arith;
          front = λ a b z. stays a b role_t role_q z;
        })
    where
      linked_tail : (n.next ≡ null) ⊎ Tail x m n → Tail x m n
      linked_tail (inl z) = absurd (nn (sym h ∙ z))
      linked_tail (inr w) = w

      stays :
          (a : ℕ) (b : Bool)
          → x.role t ≡ last
          → x.role q ≡ ahead
          → (x.role a ≡ past) ⊎ ((a ≡ m.head) × Front m b)
          → (update (update x.role t queued) q last a ≡ past)
            ⊎ ((a ≡ m.head) × Front (record m { tail = q }) b)
      stays a b rt rq (inl z) = inl (ground arith)
      stays a false rt rq (inr z) = inr (z.0, tt)
      stays a true rt rq (inr z) =
          inr
            (z.0, λ k. ground (arith, head-queued g z.1, subst (λ c. x.role c ≡ ahead) (sym k) rq))

  pub at_front :
      (a : ℕ)
      → m.head ≡ a
      → Global x m
      → (x.role a ≡ past) ⊎ ((a ≡ m.head) × (m.head ≢ m.tail))
      → m.head ≢ m.tail
  at_front a e g (inl r) = λ k. ground (arith, g.tail_role)
  at_front a e g (inr h) = h.1

  -- `head` moves on to the node behind it.
  pub keep_head :
      (a b : ℕ) (n : Node A) (y : A)
      → m.head ≡ a
      → m.nodes a ≡ some n
      → n.item ≡ some y
      → Global x m
      → Local x m i (pop_cas a b)
      → K x m i (pop_cas a b) (some (took y)) (record m { head = b }) (pop_take a y)
  keep_head a b n y e f h g l =
      let ne : m.head ≢ m.tail = at_front a e g l.pops in
      let (z, r, ds, eq, pts, c) = head_cell g ne in
      let (k, ek, next, nn) = l.links in
      let same : r ≡ b = ground arith in
      let same_item : z ≡ y = ground arith in
      let role : x.role a ≡ queued = subst (λ c. x.role c ≡ queued) e (head-queued g ne) in
      let d : Distinct ((m.head, z) ∷ ds) = rw eq at (g.distinct) in
      let all : AllRole x.role queued ((m.head, z) ∷ ds) = rw eq at (g.in_queue) in
      let off : Outside a ds = subst (λ c. Outside c ds) e d.0 in
      keeps x m i (record { queue = ds; role = update x.role a past }) (pop_cas a b) (some (took y))
        (record m { head = b }) (pop_take a y) (rw (eq, same_item) refl)
        (record {
          chain = subst (λ p. Chain (Points m.nodes) p ds m.tail) same c;
          in_queue = AllRole-update x.role queued past a ds off all.1;
          distinct = d.1;
          tail_node = let (u, eu, s) = g.tail_node in (u, eu, unmoved ds u role s);
          tail_role = ground (arith, g.tail_role);
          one_tail = λ c k. ground (arith, g.one_tail c);
          full = λ c s. g.full c (ground arith);
          free = λ c. ground (arith, g.free c);
          no_null = g.no_null;
        })
        (record { makes = tt; visits = tt; fills = tt; links = tt; pops = tt; takes = (n, f, h) })
        (record {
          grows = λ c k z. (k, z, ((λ _. refl), (λ _. refl)));
          spares = λ c j ne r z. (ground arith, z);
          shows = λ c s. ground arith;
          front = λ c s z. popped c s z;
        })
    where
      unmoved :
          (ds : List (Cell A)) (u : Node A)
          → x.role a ≡ queued
          → (u.next ≡ null) ⊎ Tail x m u
          → (u.next ≡ null)
            ⊎ Tail (record { queue = ds; role = update x.role a past }) (record m { head = b }) u
      unmoved ds u r (inl s) = inl s
      unmoved ds u r (inr w) =
          inr (record { claimed = w.claimed; ahead = ground (arith, w.ahead); new = w.new })

      popped :
          (c : ℕ) (s : Bool)
          → (x.role c ≡ past) ⊎ ((c ≡ m.head) × Front m s)
          → (update x.role a past c ≡ past) ⊎ ((c ≡ b) × Front (record m { head = b }) s)
      popped c s (inl z) = inl (ground arith)
      popped c s (inr z) = inl (ground arith)

  -- A thread finds the queue empty.
  pub keep_empty :
      (a : ℕ)
      → a ≡ m.tail
      → Global x m
      → Local x m i (pop_test a)
      → K x m i (pop_test a) (some empty) m (returned none)
  keep_empty a e g l =
      let nothing : values x.queue ≡ [] =
        Chain-nil (Points m.nodes) m.head m.tail x.queue (still l.pops) (off_tail g) g.chain in
      quiet x m i (pop_test a) (some empty) (returned none) (nothing, nothing) g (ground arith)
    where
      still : (x.role a ≡ past) ⊎ ((a ≡ m.head) × Unit {0}) → m.head ≡ m.tail
      still (inl r) = ground (arith, g.tail_role)
      still (inr h) = sym h.0 ∙ e

  -- A head that was not the tail has a node behind it.
  pub next_set :
      (a : ℕ) (n : Node A)
      → m.nodes a ≡ some n
      → Global x m
      → (x.role a ≡ past) ⊎ ((a ≡ m.head) × (m.head ≢ m.tail))
      → n.next ≢ null
  next_set a n f g h = let (y, r, e, nn) = g.full a (is_settled h) in λ z. nn (ground arith)
    where
      is_settled :
          (x.role a ≡ past) ⊎ ((a ≡ m.head) × (m.head ≢ m.tail)) → settled (x.role a) ≡ true
      is_settled (inl r) = ground arith
      is_settled (inr k) = ground (arith, head-queued g k.1)

  -- A thread's own node is not one of the two that a move of `tail` is about.
  pub still_spare :
      (t q : ℕ) (n : Node A) (a : ℕ)
      → m.tail ≡ t
      → m.nodes t ≡ some n
      → n.next ≡ q
      → q ≢ null
      → Global x m
      → x.role a ≡ spare i
      → update (update x.role t queued) q last a ≡ spare i
  still_spare t q n a at_tail e h nn g r = after (tail_state x m i t n e (sym at_tail) g)
    where
      after : (n.next ≡ null) ⊎ Tail x m n → update (update x.role t queued) q last a ≡ spare i
      after (inl z) = absurd (nn (sym h ∙ z))
      after (inr w) = ground (arith, w.ahead, g.tail_role)
