-- ===== src/MpmcQueue/Writes.antt =====
-- The steps of the multi-producer queue that write to a node, or make one.
use cs_learning_notes.Base.{
  ℕ, ◌≡◌, ◌≢◌, ◌⊎◌, inl, inr, refl, ap, subst, ◌∙◌, none, some, Bool, true, false, arith, update,
  ℕ_discrete,
}
use cs_learning_notes.Chain.{Chain, Chain-frame, Outside}
use cs_learning_notes.Chain.Labels.{AllRole-Outside, AllRole-update}
use cs_learning_notes.MpmcQueue.{Node, Memory, Pc, null, blank, push_data, own_next}
use cs_learning_notes.MpmcQueue.Roles.{
  Role, unused, spare, ahead, last, queued, past, shown, settled,
}
use cs_learning_notes.MpmcQueue.Invariant.{View, Global, Local, Tail, Points, Front}
use cs_learning_notes.MpmcQueue.Frames.{K, keeps, Frame, Grows}

module _ {A : Type 0} (x : View A) (m : Memory A) (i : ℕ) where
  -- A write to a node keeps the chain that it stands outside of.
  write-Chain :
      (a : ℕ) (n : Node A)
      → x.role a ≢ queued
      → Global x m
      → Chain (Points (update m.nodes a (some n))) m.head x.queue m.tail
  write-Chain a n r g =
      Chain-frame (Points m.nodes) (Points (update m.nodes a (some n))) a m.head m.tail x.queue
        (λ b y q ne e. ground arith) (AllRole-Outside x.role queued a x.queue r g.in_queue) g.chain

  -- A node that `tail` was at and has not left is the tail.
  only_tail :
      (t : ℕ) → Global x m → shown (x.role t) ≡ true → (settled (x.role t) ≢ true) → x.role t ≡ last
  only_tail t g s f = stays (x.role t) s f
    where
      stays : (r : Role) → shown r ≡ true → settled r ≢ true → r ≡ last
      stays last s f = refl
      stays queued s f = absurd (f refl)
      stays past s f = absurd (f refl)
      stays unused s f = cc
      stays (spare j) s f = cc
      stays ahead s f = cc

  pub tail_state :
      (t : ℕ) (n : Node A)
      → m.nodes t ≡ some n
      → t ≡ m.tail
      → Global x m
      → (n.next ≡ null) ⊎ Tail x m n
  tail_state t n e f g =
      let (k, h, s) = g.tail_node in
      let same : k ≡ n = ground arith in subst (λ c. (c.next ≡ null) ⊎ Tail x m c) same s

  -- A write that lets a node grow, with a change of the roles that the others do not notice.
  Frame-grow :
      (role : ℕ → Role) (t : ℕ) (n n' : Node A)
      → m.nodes t ≡ some n
      → Grows n n'
      → x.role t ≡ last
      → ((a j : ℕ) → i ≢ j → x.role a ≡ spare j → role a ≡ spare j)
      → ((a : ℕ) → shown (x.role a) ≡ true → role a ≡ x.role a)
      → Frame i x m (record x { role = role }) (record m { nodes = update m.nodes t (some n') })
  Frame-grow role t n n' e gr last_one spares shows = record {
    grows = λ a k h. elim (ℕ_discrete t a) [
      | yes q ↦
          let same : n ≡ k = ground arith in (n', ground arith, subst (λ c. Grows c n') same gr)
      | no q ↦ (k, ground arith, ((λ z. refl), (λ z. refl)))
    ];
    spares = λ a j ne r h. (spares a j ne r, ground arith);
    shows = λ a s. rw (shows a s) s;
    front = λ a b h. kept a b h;
  }
    where
      kept :
          (a : ℕ) (b : Bool)
          → (x.role a ≡ past) ⊎ ((a ≡ m.head) × Front m b)
          → (role a ≡ past)
            ⊎ ((a ≡ m.head) × Front (record m { nodes = update m.nodes t (some n') }) b)
      kept a b (inl r) = inl (shows a (ap shown r) ∙ r)
      kept a true (inr h) = inr h
      kept a false (inr h) = inr h

  -- A thread makes a node.
  pub keep_new :
      (p : Pc A) (a : ℕ) (p' : Pc A)
      → m.nodes a ≡ none
      → a ≢ null
      → Global x m
      → Local
          (record x { role = update x.role a (spare i) })
          (record m { nodes = update m.nodes a (some blank) })
          i
          p'
      → K x m i p none (record m { nodes = update m.nodes a (some blank) }) p'
  keep_new p a p' f nn g l =
      let role : x.role a ≡ unused = g.free a f in
      let off : Outside a x.queue =
        AllRole-Outside x.role queued a x.queue (ground arith) g.in_queue in
      keeps x m i (record x { role = update x.role a (spare i) }) p none
        (record m { nodes = update m.nodes a (some blank) }) p' refl
        (record {
          chain = write-Chain a blank (ground arith) g;
          in_queue = AllRole-update x.role queued (spare i) a x.queue off g.in_queue;
          distinct = g.distinct;
          tail_node = let (n, e, t) = g.tail_node in (n, ground arith, ahead_kept n t);
          tail_role = ground (arith, g.tail_role);
          one_tail = λ b e. ground (arith, g.one_tail b);
          full = λ b s. let (y, r, e, z) = g.full b (ground arith) in (y, r, ground arith, z);
          free = λ b. ground (arith, g.free b);
          no_null = ground (arith, g.no_null);
        })
        l
        (record {
          grows = λ b n e. (n, ground arith, ((λ z. refl), (λ z. refl)));
          spares = λ b j ne r e. ground arith;
          shows = λ b s. ground arith;
          front = λ b c h. ground arith;
        })
    where
      ahead_kept :
          (n : Node A)
          → (n.next ≡ null) ⊎ Tail x m n
          → (n.next ≡ null)
            ⊎ Tail
                (record x { role = update x.role a (spare i) })
                (record m { nodes = update m.nodes a (some blank) })
                n
      ahead_kept n (inl z) = inl z
      ahead_kept n (inr w) = inr (record {
        claimed = w.claimed;
        ahead = ground (arith, w.ahead);
        new = ground (arith, w.new);
      })

  -- The tail node gets its item.
  pub keep_data :
      (y : A) (p t : ℕ) (n : Node A)
      → m.nodes t ≡ some n
      → n.item ≡ none
      → Global x m
      → Local x m i (push_data y p t)
      → K x m i
          (push_data y p t)
          none
          (record m { nodes = update m.nodes t (some (record n { item = some y })) })
          (own_next p t)
  keep_data y p t n e f g l =
      let n' : Node A = record n { item = some y } in
      let role : x.role t ≡ last =
        only_tail t g l.visits (λ s. let (z, r, h, nz) = g.full t s in cc) in
      let at_tail : t ≡ m.tail = g.one_tail t role in
      let unlinked : n.next ≡ null = unclaimed (tail_state t n e at_tail g) in
      keeps x m i x (push_data y p t) none (record m { nodes = update m.nodes t (some n') })
        (own_next p t) refl
        (record {
          chain = write-Chain t n' (ground arith) g;
          in_queue = g.in_queue;
          distinct = g.distinct;
          tail_node = (n', ground arith, inl unlinked);
          tail_role = g.tail_role;
          one_tail = g.one_tail;
          full = λ b s. let (z, r, h, nz) = g.full b s in (z, r, ground arith, nz);
          free = λ b. ground (arith, g.free b);
          no_null = ground (arith, g.no_null);
        })
        (record {
          makes = (l.makes.0, ground (arith, l.makes));
          visits = l.visits;
          fills = (n', ground arith, (λ z. cc));
          links = tt;
          pops = tt;
          takes = tt;
        })
        (Frame-grow x.role t n n' e ((λ z. absurd (z f)), (λ z. refl)) role (λ a j ne r. r)
          (λ a s. refl))
    where
      unclaimed : (n.next ≡ null) ⊎ Tail x m n → n.next ≡ null
      unclaimed (inl z) = z
      unclaimed (inr w) = absurd (w.claimed f)

  -- The tail gets a node behind it.
  pub keep_link :
      (p : Pc A) (a t : ℕ) (n : Node A) (p' : Pc A)
      → m.nodes t ≡ some n
      → n.next ≡ null
      → n.item ≢ none
      → shown (x.role t) ≡ true
      → x.role a ≡ spare i
      → m.nodes a ≡ some blank
      → Global x m
      → Local
          (record x { role = update x.role a ahead })
          (record m { nodes = update m.nodes t (some (record n { next = a })) })
          i
          p'
      → K x m i p none (record m { nodes = update m.nodes t (some (record n { next = a })) }) p'
  keep_link p a t n p' e f c s r ea g l =
      let n' : Node A = record n { next = a } in
      let role : x.role t ≡ last =
        only_tail t g s (λ h. let (z, q, k, nz) = g.full t h in ground arith) in
      let at_tail : t ≡ m.tail = g.one_tail t role in
      let off : Outside a x.queue =
        AllRole-Outside x.role queued a x.queue (ground arith) g.in_queue in
      keeps x m i (record x { role = update x.role a ahead }) p none
        (record m { nodes = update m.nodes t (some n') }) p' refl
        (record {
          chain = write-Chain t n' (ground arith) g;
          in_queue = AllRole-update x.role queued ahead a x.queue off g.in_queue;
          distinct = g.distinct;
          tail_node = (
            n',
            ground arith,
            inr (record { claimed = c; ahead = ground arith; new = ground arith }),
          );
          tail_role = ground (arith, g.tail_role);
          one_tail = λ b h. ground (arith, g.one_tail b);
          full = λ b h. let (z, q, k, nz) = g.full b (ground arith) in (z, q, ground arith, nz);
          free = λ b. ground (arith, g.free b);
          no_null = ground (arith, g.no_null);
        })
        l
        (Frame-grow (update x.role a ahead) t n n' e ((λ z. refl), (λ z. absurd (z f))) role
          (λ b j ne h. ground arith) (λ b h. ground arith))
