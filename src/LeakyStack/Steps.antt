-- ===== src/LeakyStack/Steps.antt =====
-- Every step of the leaking stack keeps its invariant.
use cs_learning_notes.Base.{
  ℕ, ◌≡◌, refl, ◌≢◌, inl, inr, Option, none, some, List, ◌∷◌, arith, update,
}
use cs_learning_notes.Chain.{Cell, Distinct, Outside, Chain-Outside, values}
use cs_learning_notes.Interleaving.{Kept}
use cs_learning_notes.Containers.{Event, put, took, Lifo}
use cs_learning_notes.StackNode.{
  Node, null, Points, Apart, Unseen, write-Chain, Unseen-none, write-Own, Apart-sym, Apart-none,
  fresh-Apart, cons-Own, tail-Own,
}
use cs_learning_notes.LeakyStack.{
  Memory, Pc, Move, idle, push_new, push_cas, pop_load, pop_cas, pop_take, push_begin, push_head,
  allocate, push_win, push_fail, pop_begin, pop_empty, pop_head, read_next, pop_win, fail_empty,
  pop_fail, take, leave,
}
use cs_learning_notes.LeakyStack.Invariant.{Global, Local, Pair, owned, seen, Knows}
use cs_learning_notes.LeakyStack.Looking.{
  write-Knows, fresh-Unseen, K, quiet, head_cell, keep_look, keep_empty,
}

module _ {A : Type 0} (cs : List (Cell A)) (m : Memory A) (i : ℕ) where
  -- A write to a node of the thread's own, new or not.
  keep_write :
      (p p' : Pc A) (a : ℕ) (n : Node A)
      → owned p' ≡ some (a, n)
      → seen p' ≡ none
      → Knows (update m.nodes a (some n)) p'
      → a ≢ null
      → Outside a cs
      → ((j : ℕ) (q : Pc A)
          → i ≢ j
          → Local cs m j q
          → Pair i p j q
          → Apart (some (a, n)) (owned q) × Unseen (some (a, n)) (seen q))
      → Global cs m
      → K cs m i p none (record m { nodes = update m.nodes a (some n) }) p'
  keep_write p p' a n e s k nn o f g = record {
    x' = cs;
    follows = refl;
    global = record {
      chain = write-Chain m.nodes a m.head null (some n) cs o g.chain;
      distinct = g.distinct;
      no_null = ground (arith, g.no_null);
    };
    local = record { own = rw e (ground arith, o); knows = k };
    others = λ j q d lj w w'.
        let (ap, un) = f j q d lj w in
        (
          record {
            own = write-Own m.nodes a n (owned q) cs ap lj.own;
            knows = write-Knows m.nodes a n q un lj.knows;
          },
          record { apart = rw e ap; unseen = rw e un },
          record {
            apart = rw e (Apart-sym (some (a, n)) (owned q) ap);
            unseen = rw s (Unseen-none (owned q));
          },
        );
  }

  keep_allocate :
      (x : A) (e p : ℕ)
      → m.nodes p ≡ none
      → p ≢ null
      → Global cs m
      → K cs m i
          (push_new x e)
          none
          (record m { nodes = update m.nodes p (some (record { data_ = x; next = e })) })
          (push_cas x p e)
  keep_allocate x e p f nn g =
      keep_write (push_new x e) (push_cas x p e) p (record { data_ = x; next = e }) refl refl tt nn
        (Chain-Outside (Points m.nodes) p m.head null cs (λ y r q. cc) g.chain)
        (λ j q d lj w. (
          fresh-Apart m.nodes cs p (record { data_ = x; next = e }) (owned q) f lj.own,
          fresh-Unseen m.nodes p (record { data_ = x; next = e }) q f lj.knows,
        ))
        g

  keep_fail :
      (x : A) (p e : ℕ) (n : Node A)
      → m.nodes p ≡ some n
      → Global cs m
      → Local cs m i (push_cas x p e)
      → K cs m i
          (push_cas x p e)
          none
          (record m { nodes = update m.nodes p (some (record n { next = m.head })) })
          (push_cas x p m.head)
  keep_fail x p e n f g l =
      keep_write (push_cas x p e) (push_cas x p m.head) p (record n { next = m.head })
        (ground arith) refl tt (ground (arith, g.no_null)) l.own.1
        (λ j q d lj w. (w.apart, w.unseen)) g

  keep_push :
      (x : A) (p e : ℕ)
      → m.head ≡ e
      → Global cs m
      → Local cs m i (push_cas x p e)
      → K cs m i (push_cas x p e) (some (put x)) (record m { head = p }) idle
  keep_push x p e f g l = record {
    x' = (p, x) ∷ cs;
    follows = refl;
    global = record {
      chain = (refl, e, l.own.0, rw (← f) g.chain);
      distinct = (l.own.1, g.distinct);
      no_null = g.no_null;
    };
    local = record { own = tt; knows = tt };
    others = λ j q d lj w w'. (
      record {
        own = cons-Own m.nodes cs p (record { data_ = x; next = e }) x (owned q) w.apart lj.own;
        knows = lj.knows;
      },
      record { apart = tt; unseen = tt },
      record { apart = Apart-none (owned q); unseen = Unseen-none (owned q) },
    );
  }

  keep_pop :
      (a : ℕ) (n : Node A)
      → m.head ≡ a
      → Global cs m
      → Local cs m i (pop_cas a n)
      → K cs m i
          (pop_cas a n)
          (some (took n.data_))
          (record m { head = n.next })
          (pop_take a n.data_)
  keep_pop a n f g l =
      let (x, r, ds, e, pts, c) = head_cell cs m i g (ground (arith, g.no_null)) in
      let node : n ≡ record { data_ = x; next = r } = ground arith in
      let d : Distinct ((m.head, x) ∷ ds) = rw e at g.distinct in
      record {
        x' = ds;
        follows = ground arith;
        global = record { chain = rw node c; distinct = d.1; no_null = g.no_null };
        local = record { own = tt; knows = (n, l.knows, refl) };
        others = λ j q ne lj w w'. (
          record { own = tail-Own m.nodes cs ds (m.head, x) (owned q) e lj.own; knows = lj.knows },
          record { apart = tt; unseen = tt },
          record { apart = w'.apart; unseen = w'.unseen },
        );
      }

-- Each step of any thread keeps what is known, and does to the stack what its event says.
pub keep :
    {A : Type 0} (cs : List (Cell A)) (m : Memory A) (i : ℕ) (p : Pc A) (e : Option (Event A))
    (m' : Memory A) (p' : Pc A)
    → Move i m p e m' p'
    → Global cs m
    → Local cs m i p
    → Kept values Lifo Global Local Pair cs m i p e m' p'
keep cs m i p e m' p' (push_begin x) g l =
    quiet cs m i refl (inl refl) g (record { own = tt; knows = tt })
keep cs m i p e m' p' push_head g l =
    quiet cs m i refl (inl refl) g (record { own = tt; knows = tt })
keep cs m i p e m' p' (allocate {x} {e = h} a f nn) g l = keep_allocate cs m i x h a f nn g
keep cs m i p e m' p' (push_win {x} {p = a} {e = h} f) g l = keep_push cs m i x a h f g l
keep cs m i p e m' p' (push_fail {x} {p = a} {e = h} {n} f) g l = keep_fail cs m i x a h n f g l
keep cs m i p e m' p' pop_begin g l =
    quiet cs m i refl (inl refl) g (record { own = tt; knows = tt })
keep cs m i p e m' p' (pop_empty f) g l = keep_empty cs m i pop_load refl f g
keep cs m i p e m' p' (pop_head f) g l = keep_look cs m i pop_load refl f g
keep cs m i p e m' p' (read_next {a} {n} f) g l =
    quiet cs m i refl (inl refl) g (record { own = tt; knows = f })
keep cs m i p e m' p' (pop_win {a} {n} f) g l = keep_pop cs m i a n f g l
keep cs m i p e m' p' (fail_empty {a} {n} f) g l = keep_empty cs m i (pop_cas a n) refl f g
keep cs m i p e m' p' (pop_fail {a} {n} f) g l = keep_look cs m i (pop_cas a n) refl f g
keep cs m i p e m' p' (take f) g l =
    quiet cs m i refl (inr refl) g (record { own = tt; knows = tt })
keep cs m i p e m' p' leave g l = quiet cs m i refl (inl refl) g (record { own = tt; knows = tt })
