-- ===== src/LockedQueue/Pushing.antt =====
-- The steps of `push` that change the memory or carry an event.
use cs_learning_notes.Base.{ℕ, ◌≡◌, refl, ◌≢◌, none, some, List, [], ◌∷◌, ◌++◌, arith, update}
use cs_learning_notes.Chain.{Cell, Chain-snoc, Outside-snoc, Distinct-snoc, values-append}
use cs_learning_notes.Containers.{put}
use cs_learning_notes.QueueNode.{Node, null, blank, Points, write-Chain, free-Outside}
use cs_learning_notes.LockedQueue.{
  Memory, idle, push_lock, push_emplace, push_link, push_swing, push_unlock,
}
use cs_learning_notes.LockedQueue.Invariant.{Global, Local}
use cs_learning_notes.LockedQueue.Frames.{
  K, new-Others, emplace-Others, link-Others, swing-Others, not_head,
}

module _ {A : Type 0} (cs : List (Cell A)) (m : Memory A) (i : ℕ) where
  pub keep_new :
      (p : ℕ) (x : A)
      → m.nodes p ≡ none
      → p ≢ null
      → Global cs m
      → Local cs m i idle
      → K cs m i idle none (record m { nodes = update m.nodes p (some blank) }) (push_lock x p)
  keep_new p x f nn g l =
      let out = free-Outside m.nodes p m.head m.tail cs f g.chain in
      let (n, live) = g.tail_live in
      record {
        x' = cs;
        follows = refl;
        global = record {
          chain = write-Chain m.nodes p m.head m.tail (some blank) cs out g.chain;
          distinct = g.distinct;
          dummy = g.dummy;
          no_null = ground (arith, g.no_null);
          tail_live = (n, ground arith);
          quiet_tail = ground (arith, g.quiet_tail);
        };
        local = record {
          own = (ground arith, out, ground arith);
          head_lock = tt;
          tail_lock = tt;
          head_held = ground (arith, l.head_held);
          tail_held = ground (arith, l.tail_held);
          tail = tt;
          popping = tt;
        };
        others = new-Others cs m i p x f (ground arith);
      }

  pub keep_new-cells :
      (p : ℕ) (x : A) (f : m.nodes p ≡ none) (nn : p ≢ null) (g : Global cs m)
      (l : Local cs m i idle)
      → (keep_new p x f nn g l).x' ≡ cs
  unfolding keep_new
  keep_new-cells p x f nn g l = refl

  pub keep_emplace :
      (p : ℕ) (x : A) (n : Node A)
      → m.nodes m.tail ≡ some n
      → Global cs m
      → Local cs m i (push_emplace x p)
      → K cs m i
          (push_emplace x p)
          none
          (record m { nodes = update m.nodes m.tail (some (record n { item = some x })) })
          (push_link x p)
  keep_emplace p x n f g l = record {
    x' = cs;
    follows = refl;
    global = record {
      chain = write-Chain m.nodes m.tail m.head m.tail _ cs g.dummy g.chain;
      distinct = g.distinct;
      dummy = g.dummy;
      no_null = ground (arith, g.no_null);
      tail_live = (record n { item = some x }, ground arith);
      quiet_tail = ground (arith, l.tail_lock);
    };
    local = record {
      own = ground arith;
      head_lock = tt;
      tail_lock = l.tail_lock;
      head_held = ground (arith, l.head_held);
      tail_held = ground (arith, l.tail_held);
      tail = ground (arith, l.tail);
      popping = tt;
    };
    others = emplace-Others cs m i p x n l.tail_lock;
  }

  pub keep_emplace-cells :
      (p : ℕ) (x : A) (n : Node A) (f : m.nodes m.tail ≡ some n) (g : Global cs m)
      (l : Local cs m i (push_emplace x p))
      → (keep_emplace p x n f g l).x' ≡ cs
  unfolding keep_emplace
  keep_emplace-cells p x n f g l = refl

  pub keep_link :
      (p : ℕ) (x : A) (n : Node A)
      → m.nodes m.tail ≡ some n
      → Global cs m
      → Local cs m i (push_link x p)
      → K cs m i
          (push_link x p)
          none
          (record m { nodes = update m.nodes m.tail (some (record n { next = p })) })
          (push_swing x p)
  keep_link p x n f g l = record {
    x' = cs;
    follows = refl;
    global = record {
      chain = write-Chain m.nodes m.tail m.head m.tail _ cs g.dummy g.chain;
      distinct = g.distinct;
      dummy = g.dummy;
      no_null = ground (arith, g.no_null);
      tail_live = (record n { next = p }, ground arith);
      quiet_tail = ground (arith, l.tail_lock);
    };
    local = record {
      own = ground arith;
      head_lock = tt;
      tail_lock = l.tail_lock;
      head_held = ground (arith, l.head_held);
      tail_held = ground (arith, l.tail_held);
      tail = ground (arith, l.tail);
      popping = tt;
    };
    others = link-Others cs m i p x n l.tail_lock;
  }

  pub keep_link-cells :
      (p : ℕ) (x : A) (n : Node A) (f : m.nodes m.tail ≡ some n) (g : Global cs m)
      (l : Local cs m i (push_link x p))
      → (keep_link p x n f g l).x' ≡ cs
  unfolding keep_link
  keep_link-cells p x n f g l = refl

  pub keep_swing :
      (p : ℕ) (x : A)
      → Global cs m
      → Local cs m i (push_swing x p)
      → K cs m i (push_swing x p) (some (put x)) (record m { tail = p }) push_unlock
  keep_swing p x g l = record {
    x' = cs ++ (m.tail, x) ∷ [];
    follows = values-append cs ((m.tail, x) ∷ []);
    global = record {
      chain = Chain-snoc (Points m.nodes) m.head m.tail p x cs g.chain l.tail;
      distinct = Distinct-snoc m.tail x cs g.distinct g.dummy;
      dummy = Outside-snoc p m.tail x cs l.own.1 l.own.2;
      no_null = g.no_null;
      tail_live = (blank, l.own.0);
      quiet_tail = λ e. l.own.0;
    };
    local = record {
      own = tt;
      head_lock = tt;
      tail_lock = l.tail_lock;
      head_held = ground (arith, l.head_held);
      tail_held = ground (arith, l.tail_held);
      tail = l.own.0;
      popping = tt;
    };
    others = swing-Others cs m i p x l.tail_lock (not_head cs m i p g l.own.1);
  }

  pub keep_swing-cells :
      (p : ℕ) (x : A) (g : Global cs m) (l : Local cs m i (push_swing x p))
      → (keep_swing p x g l).x' ≡ cs ++ (m.tail, x) ∷ []
  unfolding keep_swing
  keep_swing-cells p x g l = refl
