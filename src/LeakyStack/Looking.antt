-- ===== src/LeakyStack/Looking.antt =====
-- The steps that only look at the memory.
use cs_learning_notes.Base.{
  ℕ, ◌≡◌, refl, ◌≢◌, ◌⊎◌, inl, inr, Option, none, some, List, [], ◌∷◌, arith, update,
}
use cs_learning_notes.Chain.{Cell, Chain, values, Chain-Outside, Chain-cons, Chain-nil}
use cs_learning_notes.Interleaving.{Kept}
use cs_learning_notes.Containers.{Event, empty, Lifo}
use cs_learning_notes.StackNode.{Node, Heap, null, Points, Unseen, Unseen-none, Own-Unseen}
use cs_learning_notes.LeakyStack.{Memory, Pc, idle, pop_next, pop_cas, pop_take, returned}
use cs_learning_notes.LeakyStack.Invariant.{Global, Local, Pair, owned, seen, Knows}

-- A write to a node keeps what is known of another.
pub write-Knows :
    {A : Type 0} (h : Heap A) (a : ℕ) (n : Node A) (q : Pc A)
    → Unseen (some (a, n)) (seen q)
    → Knows h q
    → Knows (update h a (some n)) q
write-Knows h a n (pop_next b) ne (k, e) = (k, ground arith)
write-Knows h a n (pop_take b x) ne (k, e, f) = (k, ground arith, f)
write-Knows h a n (pop_cas b k) ne e = ground arith
write-Knows h a n idle ne e = tt
write-Knows h a n _ ne e = tt

pub fresh-Unseen :
    {A : Type 0} (h : Heap A) (a : ℕ) (n : Node A) (q : Pc A)
    → h a ≡ none
    → Knows h q
    → Unseen (some (a, n)) (seen q)
fresh-Unseen h a n (pop_next b) e (k, f) = ground arith
fresh-Unseen h a n (pop_take b x) e (k, f, g) = ground arith
fresh-Unseen h a n (pop_cas b k) e f = ground arith
fresh-Unseen h a n idle e f = tt
fresh-Unseen h a n _ e f = tt

module _ {A : Type 0} (cs : List (Cell A)) (m : Memory A) (i : ℕ) where
  abbrev pub K : Pc A → Option (Event A) → Memory A → Pc A → Type 0
  K p e m' p' = Kept values Lifo Global Local Pair cs m i p e m' p'

  -- A step that leaves memory alone, and after which the thread has seen no other node.
  pub quiet :
      {p p' : Pc A}
      → owned p' ≡ owned p
      → (seen p' ≡ seen p) ⊎ (seen p' ≡ none)
      → Global cs m
      → Local cs m i p'
      → K p none m p'
  quiet {p} {p'} e f g l = record {
    x' = cs;
    follows = refl;
    global = g;
    local = l;
    others = λ j q ne lj w w'. (
      lj,
      record { apart = rw e w.apart; unseen = rw e w.unseen },
      record { apart = rw e w'.apart; unseen = hidden q f w'.unseen },
    );
  }
    where
      hidden :
          (q : Pc A)
          → (seen p' ≡ seen p) ⊎ (seen p' ≡ none)
          → Unseen (owned q) (seen p)
          → Unseen (owned q) (seen p')
      hidden q (inl s) u = rw s u
      hidden q (inr s) u = rw s (Unseen-none (owned q))

  -- The node at the head, where there is one.
  pub head_cell :
      Global cs m
      → m.head ≢ null
      → (x : A) × (r : ℕ) × (ds : List (Cell A)) × (cs ≡ (m.head, x) ∷ ds)
        × Points m.nodes m.head x r
        × Chain (Points m.nodes) r ds null
  head_cell g ne = Chain-cons (Points m.nodes) m.head null cs ne g.chain

  -- A thread sees the node at the head.
  pub keep_look :
      (p : Pc A) → owned p ≡ none → m.head ≢ null → Global cs m → K p none m (pop_next m.head)
  keep_look p e ne g =
      let (x, r, ds, f, pts, c) = head_cell g ne in
      record {
        x' = cs;
        follows = refl;
        global = g;
        local = record { own = tt; knows = (_, pts) };
        others = λ j q d lj w w'. (
          lj,
          record { apart = tt; unseen = tt },
          record {
            apart = rw e at w'.apart;
            unseen = Own-Unseen m.nodes cs (owned q) m.head x ds f lj.own;
          },
        );
      }

  -- A thread finds the stack empty.
  pub keep_empty :
      (p : Pc A) → owned p ≡ none → m.head ≡ null → Global cs m → K p (some empty) m (returned none)
  keep_empty p e f g = record {
    x' = cs;
    follows = (no_items, no_items);
    global = g;
    local = record { own = tt; knows = tt };
    others = λ j q d lj w w'. (
      lj,
      record { apart = tt; unseen = tt },
      record { apart = rw e at w'.apart; unseen = Unseen-none (owned q) },
    );
  }
    where
      no_items : values cs ≡ []
      no_items =
          Chain-nil (Points m.nodes) m.head null cs f
            (Chain-Outside (Points m.nodes) null m.head null cs (λ x r q. cc (g.no_null)) g.chain)
            g.chain
