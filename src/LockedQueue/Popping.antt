-- ===== src/LockedQueue/Popping.antt =====
-- The steps of the two pops that change the nodes or carry an event.
use cs_learning_notes.Base.{ℕ, ◌≡◌, refl, none, some, List, [], ◌∷◌, arith, update}
use cs_learning_notes.Chain.{Cell, Distinct, values, Chain-nil}
use cs_learning_notes.Containers.{took, empty}
use cs_learning_notes.QueueNode.{Node, Points, write-Chain}
use cs_learning_notes.LockedQueue.{
  Memory, trying, tail_read, tail_unlock, advance, unlock_head, destroy, delete, returned,
}
use cs_learning_notes.LockedQueue.Invariant.{Global, Local}
use cs_learning_notes.LockedQueue.Frames.{K, step-Others, destroy-Others, delete-Others, head_cell}

module _ {A : Type 0} (cs : List (Cell A)) (m : Memory A) (i : ℕ) where
  pub keep_step :
      (n : Node A) (x : A)
      → m.nodes m.head ≡ some n
      → n.item ≡ some x
      → Global cs m
      → Local cs m i advance
      → K cs m i advance (some (took x)) (record m { head = n.next }) (unlock_head m.head n x)
  keep_step n x f h g l =
      let (y, r, ds, e, pts, c) = head_cell cs m i g l.popping in
      let node : n ≡ record { item = some y; next = r } = ground arith in
      let d : Distinct ((m.head, y) ∷ ds) = rw e at g.distinct in
      record {
        x' = ds;
        follows = ground arith;
        global = record {
          chain = rw node c;
          distinct = d.1;
          dummy = ground (arith, g.dummy);
          no_null = g.no_null;
          tail_live = g.tail_live;
          quiet_tail = g.quiet_tail;
        };
        local = record {
          own = (f, d.0, l.popping);
          head_lock = l.head_lock;
          tail_lock = tt;
          head_held = ground (arith, l.head_held);
          tail_held = ground (arith, l.tail_held);
          tail = tt;
          popping = h;
        };
        others = step-Others cs m i n x n.next ds l.head_lock (ground arith) d.0 l.popping;
      }

  pub keep_step-cells :
      (n : Node A) (x : A) (f : m.nodes m.head ≡ some n) (h : n.item ≡ some x) (g : Global cs m)
      (l : Local cs m i advance)
      → (y : A) × (cs ≡ (m.head, y) ∷ (keep_step n x f h g l).x')
  unfolding keep_step
  keep_step-cells n x f h g l = let (y, r, ds, e, pts, c) = head_cell cs m i g l.popping in (y, e)

  pub keep_destroy :
      (a : ℕ) (n k : Node A) (y : A)
      → m.nodes a ≡ some k
      → Global cs m
      → Local cs m i (destroy a n y)
      → K cs m i
          (destroy a n y)
          none
          (record m { nodes = update m.nodes a (some (record k { item = none })) })
          (delete a (record n { item = none }) y)
  keep_destroy a n k y f g l = record {
    x' = cs;
    follows = refl;
    global = record {
      chain = write-Chain m.nodes a m.head m.tail _ cs l.own.1 g.chain;
      distinct = g.distinct;
      dummy = g.dummy;
      no_null = ground (arith, g.no_null);
      tail_live = (g.tail_live.0, ground (arith, g.tail_live.1));
      quiet_tail = ground (arith, g.quiet_tail);
    };
    local = record {
      own = ground arith;
      head_lock = tt;
      tail_lock = tt;
      head_held = ground (arith, l.head_held);
      tail_held = ground (arith, l.tail_held);
      tail = tt;
      popping = refl;
    };
    others = destroy-Others cs m i a n k y l.own.2;
  }

  pub keep_destroy-cells :
      (a : ℕ) (n k : Node A) (y : A) (f : m.nodes a ≡ some k) (g : Global cs m)
      (l : Local cs m i (destroy a n y))
      → (keep_destroy a n k y f g l).x' ≡ cs
  unfolding keep_destroy
  keep_destroy-cells a n k y f g l = refl

  pub keep_delete :
      (a : ℕ) (n : Node A) (y : A)
      → Global cs m
      → Local cs m i (delete a n y)
      → K cs m i
          (delete a n y)
          none
          (record m { nodes = update m.nodes a none })
          (returned (some y))
  keep_delete a n y g l = record {
    x' = cs;
    follows = refl;
    global = record {
      chain = write-Chain m.nodes a m.head m.tail none cs l.own.1 g.chain;
      distinct = g.distinct;
      dummy = g.dummy;
      no_null = ground (arith, g.no_null);
      tail_live = (g.tail_live.0, ground (arith, g.tail_live.1));
      quiet_tail = ground (arith, g.quiet_tail);
    };
    local = record {
      own = tt;
      head_lock = tt;
      tail_lock = tt;
      head_held = ground (arith, l.head_held);
      tail_held = ground (arith, l.tail_held);
      tail = tt;
      popping = tt;
    };
    others = delete-Others cs m i a n y l.own.2;
  }

  pub keep_delete-cells :
      (a : ℕ) (n : Node A) (y : A) (g : Global cs m) (l : Local cs m i (delete a n y))
      → (keep_delete a n y g l).x' ≡ cs
  unfolding keep_delete
  keep_delete-cells a n y g l = refl

  pub keep_empty :
      m.head ≡ m.tail
      → Global cs m
      → Local cs m i (tail_read trying)
      → K cs m i (tail_read trying) (some empty) m (tail_unlock trying m.tail)
  keep_empty e g l = record {
    x' = cs;
    follows = (no_items, no_items);
    global = g;
    local = record {
      own = tt;
      head_lock = l.head_lock;
      tail_lock = l.tail_lock;
      head_held = ground (arith, l.head_held);
      tail_held = ground (arith, l.tail_held);
      tail = l.tail;
      popping = λ ne. ne;
    };
    others = λ j q d lj w w'. (lj, w, w');
  }
    where
      no_items : values cs ≡ []
      no_items = Chain-nil (Points m.nodes) m.head m.tail cs e g.dummy g.chain

  pub keep_empty-cells :
      (e : m.head ≡ m.tail) (g : Global cs m) (l : Local cs m i (tail_read trying))
      → (keep_empty e g l).x' ≡ cs
  unfolding keep_empty
  keep_empty-cells e g l = refl
