-- ===== src/SpscQueue/Steps.antt =====
-- Every step of the single-producer queue keeps its invariant.
pub mod Unreached
use cs_learning_notes.Base.{
  ℕ, ◌≡◌, refl, ◌≢◌, Option, none, some, List, [], ◌∷◌, ◌++◌, arith, update,
}
use cs_learning_notes.Chain.{
  Cell, Chain, Distinct, Outside, values, Chain-snoc, Chain-cons, Chain-nil, Outside-snoc,
  Distinct-snoc, values-append,
}
use cs_learning_notes.Interleaving.{Kept}
use cs_learning_notes.Containers.{Event, put, took, empty, Fifo}
use cs_learning_notes.QueueNode.{Node, null, blank, Points, write-Chain, free-Outside}
use cs_learning_notes.SpscQueue.{
  Memory, Pc, Move, producer, idle, push_load, push_construct, push_link, push_store, pop_load,
  pop_advance, pop_take, pop_destroy, pop_delete, returned, push_new, load_tail, construct, link,
  store_tail, pop_begin, load_empty, load_more, advance, take, destroy, delete, leave,
}
use cs_learning_notes.SpscQueue.Invariant.{Global, Local, Pair}
-- A step that leaves memory alone.
use cs_learning_notes.SpscQueue.Frames.{
  quiet, new-Others, construct-Others, link-Others, store-Others, advance-Others, destroy-Others,
  delete-Others,
}

module _ {A : Type 0} (cs : List (Cell A)) (m : Memory A) (i : ℕ) where
  -- The node at the head, where there is one.
  pub head_cell :
      Global cs m
      → m.head ≢ m.tail
      → (x : A) × (r : ℕ) × (ds : List (Cell A)) × (cs ≡ (m.head, x) ∷ ds)
        × Points m.nodes m.head x r
        × Chain (Points m.nodes) r ds m.tail
  head_cell g ne = Chain-cons (Points m.nodes) m.head m.tail cs ne g.chain

  not_head : (p : ℕ) → Global cs m → Outside p cs → m.head ≢ m.tail → p ≢ m.head
  not_head p g o ne = let (x, r, ds, e, h, c) = head_cell g ne in ground arith

  abbrev K : Pc A → Option (Event A) → Memory A → Pc A → Type 0
  K p e m' p' = Kept values Fifo Global Local Pair cs m i p e m' p'

  keep_new :
      (p : ℕ) (x : A)
      → i ≡ producer
      → m.nodes p ≡ none
      → p ≢ null
      → Global cs m
      → Local cs m i idle
      → K idle none (record m { nodes = update m.nodes p (some blank) }) (push_load x p)
  keep_new p x e f nn g l = record {
    x' = cs;
    follows = refl;
    global = record {
      chain =
          write-Chain m.nodes p m.head m.tail (some blank) cs
            (free-Outside m.nodes p m.head m.tail cs f g.chain) g.chain;
      distinct = g.distinct;
      dummy = g.dummy;
      no_null = ground (arith, g.no_null);
    };
    local = ground (arith, free-Outside m.nodes p m.head m.tail cs f g.chain);
    others = new-Others cs m i p x e f;
  }

  keep_construct :
      (p t : ℕ) (x : A) (n : Node A)
      → m.nodes t ≡ some n
      → Global cs m
      → Local cs m i (push_construct x p t)
      → K
          (push_construct x p t)
          none
          (record m { nodes = update m.nodes t (some (record n { item = some x })) })
          (push_link x p t)
  keep_construct p t x n f g l = record {
    x' = cs;
    follows = refl;
    global = record {
      chain = write-Chain m.nodes t m.head m.tail _ cs (ground (arith, g.dummy)) g.chain;
      distinct = g.distinct;
      dummy = g.dummy;
      no_null = ground (arith, g.no_null);
    };
    local = ground arith;
    others = construct-Others cs m i p t x n l.role (ground arith);
  }

  keep_link :
      (p t : ℕ) (x : A) (n : Node A)
      → m.nodes t ≡ some n
      → Global cs m
      → Local cs m i (push_link x p t)
      → K
          (push_link x p t)
          none
          (record m { nodes = update m.nodes t (some (record n { next = p })) })
          (push_store x p t)
  keep_link p t x n f g l = record {
    x' = cs;
    follows = refl;
    global = record {
      chain = write-Chain m.nodes t m.head m.tail _ cs (ground (arith, g.dummy)) g.chain;
      distinct = g.distinct;
      dummy = g.dummy;
      no_null = ground (arith, g.no_null);
    };
    local = ground arith;
    others = link-Others cs m i p t x n l.role (ground arith);
  }

  keep_store :
      (p t : ℕ) (x : A)
      → Global cs m
      → Local cs m i (push_store x p t)
      → K (push_store x p t) (some (put x)) (record m { tail = p }) idle
  keep_store p t x g l = record {
    x' = cs ++ (t, x) ∷ [];
    follows = values-append cs ((t, x) ∷ []);
    global = record {
      chain =
          rw at_tail (Chain-snoc (Points m.nodes) m.head m.tail p x cs g.chain (l.tail l.role).1);
      distinct = Distinct-snoc t x cs g.distinct (rw at_tail g.dummy);
      dummy = Outside-snoc p t x cs l.own.1 (ground arith);
      no_null = g.no_null;
    };
    local = ground arith;
    others = store-Others cs m i p t x l.role at_tail (not_head p g l.own.1);
  }
    where
      at_tail : t ≡ m.tail
      at_tail = (l.tail l.role).0

  keep_advance :
      (n : Node A) (x : A)
      → m.nodes m.head ≡ some n
      → n.item ≡ some x
      → Global cs m
      → Local cs m i pop_advance
      → K pop_advance (some (took x)) (record m { head = n.next }) (pop_take m.head n x)
  keep_advance n x f h g l =
      let (y, r, ds, e, pts, c) = head_cell g l.popping in
      let node : n ≡ record { item = some y; next = r } = ground arith in
      let same : x ≡ y = ground arith in
      let d : Distinct ((m.head, y) ∷ ds) = rw e at g.distinct in
      record {
        x' = ds;
        follows = rw (e, same) refl;
        global = record {
          chain = rw node c;
          distinct = d.1;
          dummy = ground (arith, g.dummy);
          no_null = g.no_null;
        };
        local = ground (arith, d.0);
        others = advance-Others cs m i n y n.next ds l.role e d.0 l.popping;
      }

  keep_destroy :
      (a : ℕ) (n k : Node A) (y : A)
      → m.nodes a ≡ some k
      → Global cs m
      → Local cs m i (pop_destroy a n y)
      → K
          (pop_destroy a n y)
          none
          (record m { nodes = update m.nodes a (some (record k { item = none })) })
          (pop_delete a (record n { item = none }) y)
  keep_destroy a n k y f g l = record {
    x' = cs;
    follows = refl;
    global = record {
      chain = write-Chain m.nodes a m.head m.tail _ cs l.own.1 g.chain;
      distinct = g.distinct;
      dummy = g.dummy;
      no_null = ground (arith, g.no_null);
    };
    local = ground arith;
    others = destroy-Others cs m i a n k y l.role l.own.2;
  }

  keep_delete :
      (a : ℕ) (n : Node A) (y : A)
      → Global cs m
      → Local cs m i (pop_delete a n y)
      → K (pop_delete a n y) none (record m { nodes = update m.nodes a none }) (returned (some y))
  keep_delete a n y g l = record {
    x' = cs;
    follows = refl;
    global = record {
      chain = write-Chain m.nodes a m.head m.tail none cs l.own.1 g.chain;
      distinct = g.distinct;
      dummy = g.dummy;
      no_null = ground (arith, g.no_null);
    };
    local = ground arith;
    others = delete-Others cs m i a n y l.role l.own.2;
  }

  keep_empty :
      m.head ≡ m.tail
      → Global cs m
      → Local cs m i pop_load
      → K pop_load (some empty) m (returned none)
  keep_empty e g l = record {
    x' = cs;
    follows = (no_items, no_items);
    global = g;
    local = ground arith;
    others = λ j q ne lj w w'. (lj, tt, ground arith);
  }
    where
      no_items : values cs ≡ []
      no_items = Chain-nil (Points m.nodes) m.head m.tail cs e g.dummy g.chain

-- Each step of either thread keeps what is known, and does to the queue what its event says.
pub keep :
    {A : Type 0} (cs : List (Cell A)) (m : Memory A) (i : ℕ) (p : Pc A) (e : Option (Event A))
    (m' : Memory A) (p' : Pc A)
    → Move i m p e m' p'
    → Global cs m
    → Local cs m i p
    → Kept values Fifo Global Local Pair cs m i p e m' p'
keep cs m i p e m' p' (push_new {p = a} x r f nn) g l = keep_new cs m i a x r f nn g l
keep cs m i p e m' p' load_tail g l = quiet cs m i refl g (ground arith)
keep cs m i p e m' p' (construct {x} {p = a} {t} {n} f) g l = keep_construct cs m i a t x n f g l
keep cs m i p e m' p' (link {x} {p = a} {t} {n} f) g l = keep_link cs m i a t x n f g l
keep cs m i p e m' p' (store_tail {x} {p = a} {t}) g l = keep_store cs m i a t x g l
keep cs m i p e m' p' (pop_begin r) g l = quiet cs m i refl g (ground arith)
keep cs m i p e m' p' (load_empty h) g l = keep_empty cs m i h g l
keep cs m i p e m' p' (load_more h) g l = quiet cs m i refl g (ground arith)
keep cs m i p e m' p' (advance {n} {x} f h) g l = keep_advance cs m i n x f h g l
keep cs m i p e m' p' (take {a} {n} {k} {x} {y} f h) g l = quiet cs m i refl g (ground arith)
keep cs m i p e m' p' (destroy {a} {n} {k} {y} f) g l = keep_destroy cs m i a n k y f g l
keep cs m i p e m' p' (delete {a} {n} {y}) g l = keep_delete cs m i a n y g l
keep cs m i p e m' p' leave g l = quiet cs m i refl g (ground arith)
