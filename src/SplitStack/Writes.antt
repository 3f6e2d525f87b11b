-- ===== src/SplitStack/Writes.antt =====
-- The steps of the stack with split counts that make nodes, push them, or change `head`.
use cs_learning_notes.Base.{
  ℕ, suc, ◌≡◌, ◌≢◌, refl, ap, ◌∙◌, none, some, List, [], ◌∷◌, arith, update, length, subst,
}
use cs_learning_notes.Chain.{Outside, values}
use cs_learning_notes.Containers.{put, empty}
use cs_learning_notes.SplitStack.{
  CountedNodePtr, Node, Memory, null, idle, push_new, push_cas, pop_acquire, returned,
}
use cs_learning_notes.SplitStack.Roles.{unused, own, stacked, occurrences}
use cs_learning_notes.SplitStack.Links.{Links, Links-frame, Links-Outside, Links-nil}
use cs_learning_notes.SplitStack.Invariant.{View, Global, Local}
use cs_learning_notes.SplitStack.Frames.{K, keeps, Tally-frame}

module _ {A : Type 0} (x : View A) (m : Memory A) (i : ℕ) where
  -- A node that nobody holds.
  pub unheld : (a j : ℕ) → length (x.holders a) ≡ 0 → occurrences j (x.holders a) ≡ 0
  unheld a j e = go (x.holders a) e
    where
      go : (js : List ℕ) → length js ≡ 0 → occurrences j js ≡ 0
      go [] e = refl
      go (k ∷ js) e = absurd (omega (arith, e))

  pub keep_allocate :
      (y : A) (l : CountedNodePtr) (p : ℕ)
      → m.nodes p ≡ none
      → p ≢ null
      → Global x m
      → Local x m i (push_new y l)
      → K x m i
          (push_new y l)
          none
          (record m {
            nodes = update m.nodes p (some (record { data_ = y; next = l }));
            internal_count = update m.internal_count p 0;
          })
          (push_cas y p l)
  keep_allocate y l p e ne g h =
      let role : x.role p ≡ unused = g.free p e in
      let x' : View A = record x { role = update x.role p (own i) } in
      let m' : Memory A = record m {
        nodes = update m.nodes p (some (record { data_ = y; next = l }));
        internal_count = update m.internal_count p 0;
      } in
      keeps x m i x' (push_new y l) none m' (push_cas y p l) refl
        (record {
          links =
              Links-frame x.role m.nodes x'.role m'.nodes p m.head x.stack
                (λ b n. (ground arith, ground arith))
                (Links-Outside x.role m.nodes p m.head x.stack (λ c. ground arith) g.links) g.links;
          distinct = g.distinct;
          tally =
              Tally-frame x x' m m' p (λ b n. (ground arith, refl, ground arith))
                (ground (arith, g.tally p)) g.tally;
          on_stack = λ a c r. g.on_stack a c (ground arith);
          free = λ a r. ground (arith, g.free a);
          used = λ a r. ground (arith, g.used a);
          no_null = ground (arith, g.no_null);
        })
        (record {
          holds = h.holds;
          owns = ground arith;
          only = λ a r. ground (arith, h.only a);
          knows = ground arith;
        })
        (record {
          holders = λ a j n. refl;
          owners = λ a j n r. (ground arith, ground arith);
          new = λ a j n r. ground arith;
          kept = λ a j n r. ground (arith, unheld p j, g.tally p);
        })

  pub keep_push_fail :
      (y : A) (p : ℕ) (l : CountedNodePtr) (n : Node A)
      → m.nodes p ≡ some n
      → Global x m
      → Local x m i (push_cas y p l)
      → K x m i
          (push_cas y p l)
          none
          (record m { nodes = update m.nodes p (some (record n { next = m.head })) })
          (push_cas y p m.head)
  keep_push_fail y p l n e g h =
      let role : x.role p ≡ own i = h.owns in
      let m' : Memory A = record m {
        nodes = update m.nodes p (some (record n { next = m.head }));
      } in
      keeps x m i x (push_cas y p l) none m' (push_cas y p m.head) refl
        (record {
          links =
              Links-frame x.role m.nodes x.role m'.nodes p m.head x.stack
                (λ b ne. (refl, ground arith))
                (Links-Outside x.role m.nodes p m.head x.stack (λ c. ground arith) g.links) g.links;
          distinct = g.distinct;
          tally = g.tally;
          on_stack = g.on_stack;
          free = λ a r. ground (arith, g.free a);
          used = λ a r. ground (arith, g.used a);
          no_null = ground (arith, g.no_null);
        })
        (record { holds = h.holds; owns = h.owns; only = h.only; knows = ground (arith, h.knows) })
        (record {
          holders = λ a j ne. refl;
          owners = λ a j ne r. (refl, ground arith);
          new = λ a j ne r. r;
          kept = λ a j ne r. ground (arith, unheld p j, g.tally p);
        })

  pub keep_push :
      (y : A) (p : ℕ) (l : CountedNodePtr)
      → m.head ≡ l
      → Global x m
      → Local x m i (push_cas y p l)
      → K x m i
          (push_cas y p l)
          (some (put y))
          (record m { head = record { external_count = 1; ptr = p } })
          idle
  keep_push y p l e g h =
      let role : x.role p ≡ own i = h.owns in
      let x' : View A = record x { stack = (p, y) ∷ x.stack; role = update x.role p (stacked 1) } in
      let m' : Memory A = record m { head = record { external_count = 1; ptr = p } } in
      let off : Outside p x.stack =
        Links-Outside x.role m.nodes p m.head x.stack (λ c. ground arith) g.links in
      keeps x m i x' (push_cas y p l) (some (put y)) m' idle refl
        (record {
          links = (
            refl,
            ground arith,
            record { data_ = y; next = l },
            h.knows,
            refl,
            subst (λ k. Links x'.role m.nodes k x.stack) e
                (Links-frame x.role m.nodes x'.role m.nodes p m.head x.stack
                  (λ b ne. (ground arith, refl)) off g.links),
          );
          distinct = (off, g.distinct);
          tally =
              Tally-frame x x' m m' p (λ b ne. (ground arith, refl, refl))
                (ground (arith, g.tally p)) g.tally;
          on_stack = λ a c r o. g.on_stack a c (ground (arith, o.0)) o.1;
          free = λ a r. ground (arith, g.free a, h.knows);
          used = λ a r. ground (arith, g.used a);
          no_null = g.no_null;
        })
        (record { holds = h.holds; owns = tt; only = λ a r. ground (arith, h.only a); knows = tt })
        (record {
          holders = λ a j ne. refl;
          owners = λ a j ne r. (ground arith, refl);
          new = λ a j ne r. ground arith;
          kept = λ a j ne r. refl;
        })

  pub keep_empty :
      (l : CountedNodePtr)
      → m.head ≡ l
      → l.ptr ≡ null
      → Global x m
      → Local x m i (pop_acquire l)
      → K x m i
          (pop_acquire l)
          (some empty)
          (record m { head = record l { external_count = suc l.external_count } })
          (returned none)
  keep_empty l e z g h =
      let m' : Memory A = record m { head = record l { external_count = suc l.external_count } } in
      let nil : x.stack ≡ [] =
        Links-nil x.role m.nodes m.head x.stack (ap (λ k. k.ptr) e ∙ z) g.no_null g.links in
      let x' : View A = record x { stack = [] } in
      keeps x m i x' (pop_acquire l) (some empty) m' (returned none) (ap values nil, refl)
        (record {
          links = z;
          distinct = tt;
          tally = g.tally;
          on_stack = λ a c r o. g.on_stack a c r (rw nil tt);
          free = g.free;
          used = g.used;
          no_null = g.no_null;
        })
        (record { holds = h.holds; owns = tt; only = h.only; knows = tt })
        (record {
          holders = λ a j ne. refl;
          owners = λ a j ne r. (refl, refl);
          new = λ a j ne r. r;
          kept = λ a j ne r. refl;
        })
