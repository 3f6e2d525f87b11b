-- ===== src/SplitStack/Holders.antt =====
-- The steps of the stack with split counts by which threads take a node up, pop it, let it go, and delete it.
use cs_learning_notes.Base.{
  ℕ, suc, ◌+◌, ◌-◌, ◌%◌, ◌<◌, ◌≡◌, ◌≢◌, refl, sym, ap, ◌∙◌, none, some, ◌∷◌, arith, update,
  update_self, length, erase, subst, ℕ_discrete,
}
use cs_learning_notes.Chain.{Outside, Distinct, values}
use cs_learning_notes.Containers.{took}
use cs_learning_notes.SplitStack.{
  CountedNodePtr, Node, Memory, Pc, null, int_max, int_size, negative, pop_next, pop_cas, pop_take,
  pop_acquire, pop_merge, pop_delete, pop_release, retry_delete, returned,
}
use cs_learning_notes.SplitStack.Roles.{
  Role, unused, stacked, claimed, doomed, merged, owner, occurrences, Tally, Tally-acquire,
  Tally-release, Tally-last, Tally-merge_last, Tally-merge_more, occurrences-erase,
  occurrences-erase_self, length-erase,
}
use cs_learning_notes.SplitStack.Links.{Links, Links-frame, Links-Outside, Links-cons}
use cs_learning_notes.SplitStack.Invariant.{View, Global, Local, held, owned, Knows}
use cs_learning_notes.SplitStack.Frames.{K, keeps, Tally-frame}
use cs_learning_notes.SplitStack.Writes.{unheld}

module _ {A : Type 0} (x : View A) (m : Memory A) (i : ℕ) where
  -- A thread takes the node at the head up.
  pub keep_acquire :
      (l : CountedNodePtr)
      → m.head ≡ l
      → l.external_count < int_max
      → l.ptr ≢ null
      → Global x m
      → Local x m i (pop_acquire l)
      → K x m i
          (pop_acquire l)
          none
          (record m { head = record l { external_count = suc l.external_count } })
          (pop_next (suc l.external_count) l.ptr)
  keep_acquire l e lt ne g h =
      let c : ℕ = l.external_count in
      let a : ℕ = l.ptr in
      let m' : Memory A = record m { head = record l { external_count = suc c } } in
      let from_l : Links x.role m.nodes l x.stack =
        subst (λ k. Links x.role m.nodes k x.stack) e g.links in
      let (y, ds, n, cut, role, there, val, rest) = Links-cons x.role m.nodes l x.stack ne from_l in
      let d : Distinct ((a, y) ∷ ds) = subst (λ k. Distinct k) cut g.distinct in
      let x' : View A = record {
        stack = (a, y) ∷ ds;
        role = update x.role a (stacked (suc c));
        holders = update x.holders a (i ∷ x.holders a);
      } in
      let t : Tally (stacked c) (length (x.holders a)) (m.internal_count a) =
        subst (λ r. Tally r (length (x.holders a)) (m.internal_count a)) role (g.tally a) in
      let t' : Tally (stacked (suc c)) (suc (length (x.holders a))) (m.internal_count a) =
        Tally-acquire c (length (x.holders a)) (m.internal_count a) lt t in
      keeps x m i x' (pop_acquire l) none m' (pop_next (suc c) a) (ap values (sym cut))
        (record {
          links = (
            refl,
            ground arith,
            n,
            there,
            val,
            Links-frame x.role m.nodes x'.role m'.nodes a n.next ds (λ b nb. (ground arith, refl))
                d.0 rest,
          );
          distinct = d;
          tally =
              Tally-frame x x' m m' a (λ b nb. (ground arith, ground arith, refl)) (ground arith)
                g.tally;
          on_stack = λ b k r o.
              g.on_stack b k (ground (arith, o.0)) (subst (λ s. Outside b s) (sym cut) o);
          free = λ b r. ground (arith, g.free b);
          used = λ b r. ground (arith, g.used b);
          no_null = g.no_null;
        })
        (record {
          holds = λ b. ground (arith, h.holds b);
          owns = tt;
          only = λ b r. ground (arith, h.only b);
          knows = tt;
        })
        (record {
          holders = λ b j nb. ground arith;
          owners = λ b j nb r. (ground arith, refl);
          new = λ b j nb r. ground arith;
          kept = λ b j nb r. refl;
        })

  -- A thread pops the node that it holds.
  pub keep_pop :
      (c a : ℕ) (l : CountedNodePtr) (n : Node A)
      → m.head ≡ record { external_count = c; ptr = a }
      → m.nodes a ≡ some n
      → Global x m
      → Local x m i (pop_cas c a l)
      → K x m i (pop_cas c a l) (some (took n.data_)) (record m { head = l }) (pop_take c a n.data_)
  keep_pop c a l n e f g h =
      let m' : Memory A = record m { head = l } in
      let p : CountedNodePtr = record { external_count = c; ptr = a } in
      let from_p : Links x.role m.nodes p x.stack =
        subst (λ k. Links x.role m.nodes k x.stack) e g.links in
      let ne : a ≢ null = ground (arith, g.no_null) in
      let (y, ds, k, cut, role, there, val, rest) = Links-cons x.role m.nodes p x.stack ne from_p in
      let (k', there', next) = h.knows in
      let d : Distinct ((a, y) ∷ ds) = subst (λ k. Distinct k) cut g.distinct in
      let x' : View A = record {
        stack = ds;
        role = update x.role a (claimed i c);
        holders = x.holders;
      } in
      let same : k.next ≡ l = ground arith in
      let t : Tally (stacked c) (length (x.holders a)) (m.internal_count a) =
        subst (λ r. Tally r (length (x.holders a)) (m.internal_count a)) role (g.tally a) in
      let val' : y ≡ n.data_ = ground arith in
      keeps x m i x' (pop_cas c a l) (some (took n.data_)) m' (pop_take c a n.data_)
        (ap values cut ∙ ap (λ v. v ∷ values ds) val')
        (record {
          links =
              Links-frame x.role m.nodes x'.role m'.nodes a l ds (λ b nb. (ground arith, refl)) d.0
                (subst (λ k. Links x.role m.nodes k ds) same rest);
          distinct = d.1;
          tally =
              Tally-frame x x' m m' a (λ b nb. (ground arith, refl, refl)) (ground arith) g.tally;
          on_stack = λ b k r o.
              g.on_stack b k (ground arith) (subst (λ s. Outside b s) (sym cut) (ground arith, o));
          free = λ b r. ground (arith, g.free b);
          used = λ b r. ground (arith, g.used b);
          no_null = g.no_null;
        })
        (record {
          holds = h.holds;
          owns = ground arith;
          only = λ b r. ground (arith, h.only b);
          knows = (n, f, refl);
        })
        (record {
          holders = λ b j nb. refl;
          owners = λ b j nb r. (ground arith, refl);
          new = λ b j nb r. ground arith;
          kept = λ b j nb r. refl;
        })

  -- The holders of a node without a thread that holds it.
  fewer :
      (p : Pc A) (a : ℕ)
      → held p ≡ some a
      → Local x m i p
      → (suc (length (erase i (x.holders a))) ≡ length (x.holders a))
        × (occurrences i (erase i (x.holders a)) ≡ 0)
  fewer p a e h =
      let one : occurrences i (x.holders a) ≡ 1 = h.holds a ∙ (rw e (ground arith)) in
      (length-erase i (x.holders a) one, occurrences-erase_self i (x.holders a) ∙ (rw one refl))

  -- What the other threads keep when thread `i` lets a node go.
  abbrev pub let_go : ℕ → ℕ → Role → View A
  let_go a k r = record x {
    role = update x.role a r;
    holders = update x.holders a (erase i (x.holders a));
  }

  abbrev pub recount : ℕ → ℕ → Memory A
  recount a k = record m { internal_count = update m.internal_count a k }

  others_hold :
      (a b j : ℕ)
      → i ≢ j
      → occurrences j (update x.holders a (erase i (x.holders a)) b) ≡ occurrences j (x.holders b)
  others_hold a b j ne = elim (ℕ_discrete a b) [
    | yes q ↦ ground (arith, occurrences-erase i j (x.holders a) ne)
    | no n ↦ ground arith
  ]

  -- A thread lets a node go that others hold still.
  pub keep_release :
      (a : ℕ) (l : CountedNodePtr)
      → m.internal_count a ≢ 1
      → Global x m
      → Local x m i (pop_release a l)
      → K x m i
          (pop_release a l)
          none
          (recount a ((m.internal_count a + negative 1) % int_size))
          (pop_acquire l)
  keep_release a l ne g h =
      let (len, none_left) = fewer (pop_release a l) a refl h in
      let k : ℕ = (m.internal_count a + negative 1) % int_size in
      let x' : View A = record x { holders = update x.holders a (erase i (x.holders a)) } in
      let t : Tally (x.role a) (length (erase i (x.holders a))) k =
        Tally-release (x.role a) (length (erase i (x.holders a))) (m.internal_count a) ne
          (subst (λ s. Tally (x.role a) s (m.internal_count a)) (sym len) (g.tally a)) in
      keeps x m i x' (pop_release a l) none (recount a k) (pop_acquire l) refl
        (record {
          links = g.links;
          distinct = g.distinct;
          tally =
              Tally-frame x x' m (recount a k) a (λ b nb. (refl, ground arith, ground arith))
                (rw
                  (
                    update_self x.holders a (erase i (x.holders a)),
                    update_self m.internal_count a k,
                  )
                  t)
                g.tally;
          on_stack = g.on_stack;
          free = g.free;
          used = g.used;
          no_null = g.no_null;
        })
        (record { holds = λ b. ground (arith, h.holds b); owns = tt; only = h.only; knows = tt })
        (record {
          holders = λ b j nb. others_hold a b j nb;
          owners = λ b j nb r. (refl, refl);
          new = λ b j nb r. r;
          kept = λ b j nb r. refl;
        })

  -- A thread lets a node go that is not on the stack, and which then has another role.
  keep_finish :
      (p p' : Pc A) (a : ℕ) (r : Role) (k : ℕ)
      → held p ≡ some a
      → ((c : ℕ) → x.role a ≢ stacked c)
      → ((c : ℕ) → r ≢ stacked c)
      → ((j : ℕ) → i ≢ j → owner (x.role a) ≢ some j)
      → ((j : ℕ) → i ≢ j → owner r ≢ some j)
      → x.role a ≢ unused
      → r ≢ unused
      → Tally r (length (erase i (x.holders a))) k
      → Global x m
      → Local x m i p
      → Local (let_go a k r) (recount a k) i p'
      → K x m i p none (recount a k) p'
  keep_finish p p' a r k e ns ns' no_j no_j' nu nu' t g h h' =
      let x' : View A = let_go a k r in
      keeps x m i x' p none (recount a k) p' refl
        (record {
          links =
              Links-frame x.role m.nodes x'.role m.nodes a m.head x.stack
                (λ b nb. (ground arith, refl))
                (Links-Outside x.role m.nodes a m.head x.stack ns g.links) g.links;
          distinct = g.distinct;
          tally =
              Tally-frame x x' m (recount a k) a
                (λ b nb. (ground arith, ground arith, ground arith))
                (rw
                  (
                    update_self x.role a r,
                    update_self x.holders a (erase i (x.holders a)),
                    update_self m.internal_count a k,
                  )
                  t)
                g.tally;
          on_stack = λ b c q. g.on_stack b c (ground (arith, ns' c));
          free = λ b q. ground (arith, g.free b);
          used = λ b q. ground (arith, g.used b);
          no_null = g.no_null;
        })
        h'
        (record {
          holders = λ b j nb. others_hold a b j nb;
          owners = λ b j nb q. (ground (arith, no_j j nb), refl);
          new = λ b j nb q. ground (arith, no_j' j nb);
          kept = λ b j nb q. refl;
        })

  pub keep_release_last :
      (a : ℕ) (l : CountedNodePtr)
      → m.internal_count a ≡ 1
      → Global x m
      → Local x m i (pop_release a l)
      → K x m i
          (pop_release a l)
          none
          (recount a ((m.internal_count a + negative 1) % int_size))
          (retry_delete a l)
  keep_release_last a l e g h =
      let (len, none_left) = fewer (pop_release a l) a refl h in
      let (role, nobody_left) =
        Tally-last (x.role a) (length (erase i (x.holders a))) (m.internal_count a) e
          (subst (λ s. Tally (x.role a) s (m.internal_count a)) (sym len) (g.tally a)) in
      keep_finish (pop_release a l) (retry_delete a l) a (doomed i)
        ((m.internal_count a + negative 1) % int_size) refl (λ c. ground arith) (λ c. ground arith)
        (λ j ne. ground arith) (λ j ne. ground arith) (ground arith) (ground arith) nobody_left g h
        (record {
          holds = λ b. ground (arith, h.holds b);
          owns = ground arith;
          only = λ b r. ground (arith, h.only b);
          knows = tt;
        })

  pub keep_merge_last :
      (c a : ℕ) (r : A)
      → m.internal_count a ≡ negative (c - 2)
      → Global x m
      → Local x m i (pop_merge c a r)
      → K x m i
          (pop_merge c a r)
          none
          (recount a ((m.internal_count a + (c - 2)) % int_size))
          (pop_delete a r)
  keep_merge_last c a r e g h =
      let (len, none_left) = fewer (pop_merge c a r) a refl h in
      let role : x.role a ≡ claimed i c = h.owns in
      let nobody_left : length (erase i (x.holders a)) ≡ 0 =
        Tally-merge_last i c (length (erase i (x.holders a))) (m.internal_count a) e (
          subst (λ q. Tally q (suc (length (erase i (x.holders a)))) (m.internal_count a)) role
            (subst (λ s. Tally (x.role a) s (m.internal_count a)) (sym len) (g.tally a))) in
      keep_finish (pop_merge c a r) (pop_delete a r) a (doomed i)
        ((m.internal_count a + (c - 2)) % int_size) refl (λ d. ground arith) (λ d. ground arith)
        (λ j ne. ground arith) (λ j ne. ground arith) (ground arith) (ground arith) nobody_left g h
        (record {
          holds = λ b. ground (arith, h.holds b);
          owns = ground arith;
          only = λ b q. ground (arith, h.only b);
          knows = tt;
        })

  pub keep_merge_more :
      (c a : ℕ) (r : A)
      → m.internal_count a ≢ negative (c - 2)
      → Global x m
      → Local x m i (pop_merge c a r)
      → K x m i
          (pop_merge c a r)
          none
          (recount a ((m.internal_count a + (c - 2)) % int_size))
          (returned (some r))
  keep_merge_more c a r e g h =
      let (len, none_left) = fewer (pop_merge c a r) a refl h in
      let role : x.role a ≡ claimed i c = h.owns in
      let t : Tally merged (length (erase i (x.holders a)))
          ((m.internal_count a + (c - 2)) % int_size) =
        Tally-merge_more i c (length (erase i (x.holders a))) (m.internal_count a) e (
          subst (λ q. Tally q (suc (length (erase i (x.holders a)))) (m.internal_count a)) role
            (subst (λ s. Tally (x.role a) s (m.internal_count a)) (sym len) (g.tally a))) in
      keep_finish (pop_merge c a r) (returned (some r)) a merged
        ((m.internal_count a + (c - 2)) % int_size) refl (λ d. ground arith) (λ d. ground arith)
        (λ j ne. ground arith) (λ j ne. ground arith) (ground arith) (ground arith) t g h
        (record {
          holds = λ b. ground (arith, h.holds b);
          owns = tt;
          only = λ b q. ground (arith, h.only b);
          knows = tt;
        })

  -- The owner of a node that nobody holds deletes it.
  pub keep_delete :
      (p p' : Pc A) (a : ℕ)
      → owned i p ≡ some (a, doomed i)
      → held p ≡ none
      → held p' ≡ none
      → owned i p' ≡ none
      → Knows (record m { nodes = update m.nodes a none }) p'
      → Global x m
      → Local x m i p
      → K x m i p none (record m { nodes = update m.nodes a none }) p'
  keep_delete p p' a o np np' ow k g h =
      let role : x.role a ≡ doomed i = rw o at (h.owns) in
      let x' : View A = record x { role = update x.role a unused } in
      let m' : Memory A = record m { nodes = update m.nodes a none } in
      let only : (b : ℕ) → owner (x.role b) ≡ some i → a ≡ b = rw o at (h.only) in
      keeps x m i x' p none m' p' refl
        (record {
          links =
              Links-frame x.role m.nodes x'.role m'.nodes a m.head x.stack
                (λ b nb. (ground arith, ground arith))
                (Links-Outside x.role m.nodes a m.head x.stack (λ c. ground arith) g.links) g.links;
          distinct = g.distinct;
          tally =
              Tally-frame x x' m m' a (λ b nb. (ground arith, refl, refl))
                (ground (arith, g.tally a)) g.tally;
          on_stack = λ b c q. g.on_stack b c (ground arith);
          free = λ b q. ground (arith, g.free b);
          used = λ b q. ground (arith, g.used b);
          no_null = ground (arith, g.no_null);
        })
        (record {
          holds = λ b. h.holds b ∙ (rw (np, np') refl);
          owns = rw ow tt;
          only = rw ow (λ b q. ground (arith, only b));
          knows = k;
        })
        (record {
          holders = λ b j nb. refl;
          owners = λ b j nb q. (ground arith, ground arith);
          new = λ b j nb q. ground arith;
          kept = λ b j nb q. ground (arith, unheld x m i a j, g.tally a);
        })
