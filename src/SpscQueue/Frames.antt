-- ===== src/SpscQueue/Frames.antt =====
-- What a step of one thread leaves as it is for the others.
use cs_learning_notes.Base.{ℕ, ◌≡◌, refl, ◌≢◌, none, some, List, [], ◌∷◌, ◌++◌, arith, update}
use cs_learning_notes.Containers.{Fifo}
use cs_learning_notes.Chain.{Cell, Outside, values}
use cs_learning_notes.Interleaving.{Kept, Others}
use cs_learning_notes.QueueNode.{Node, blank, Own-snoc}
use cs_learning_notes.SpscQueue.{
  Memory, Pc, producer, consumer, idle, push_load, push_construct, push_link, push_store,
  pop_advance, pop_take, pop_destroy, pop_delete, returned,
}
use cs_learning_notes.SpscQueue.Invariant.{Global, Local, Pair, owned}

-- A step that leaves memory alone.

module _ {A : Type 0} (cs : List (Cell A)) (m : Memory A) (i : ℕ) where
  unfoldable pub quiet :
      {p p' : Pc A}
      → owned p' ≡ owned p
      → Global cs m
      → Local cs m i p'
      → Kept values Fifo Global Local Pair cs m i p none m p'
  quiet {p} {p'} e g l = record {
    x' = cs;
    follows = refl;
    global = g;
    local = l;
    others = λ j q ne lj w w'. (lj, rw e w, rw e w');
  }

  pub new-Others :
      (p : ℕ) (x : A)
      → i ≡ producer
      → m.nodes p ≡ none
      → Others Local Pair cs m i idle cs
          (record m { nodes = update m.nodes p (some blank) })
          (push_load x p)
  new-Others p x e f j idle ne l w w' = ground arith
  new-Others p x e f j q ne l w w' = ground arith

  pub construct-Others :
      (p t : ℕ) (x : A) (n : Node A)
      → i ≡ producer
      → t ≡ m.tail
      → Others Local Pair cs m i
          (push_construct x p t)
          cs
          (record m { nodes = update m.nodes t (some (record n { item = some x })) })
          (push_link x p t)
  construct-Others p t x n e f j idle ne l w w' = ground arith
  construct-Others p t x n e f j q ne l w w' = ground arith

  pub link-Others :
      (p t : ℕ) (x : A) (n : Node A)
      → i ≡ producer
      → t ≡ m.tail
      → Others Local Pair cs m i
          (push_link x p t)
          cs
          (record m { nodes = update m.nodes t (some (record n { next = p })) })
          (push_store x p t)
  link-Others p t x n e f j idle ne l w w' = ground arith
  link-Others p t x n e f j q ne l w w' = ground arith

  pub store-Others :
      (p t : ℕ) (x : A)
      → i ≡ producer
      → t ≡ m.tail
      → (m.head ≢ m.tail → p ≢ m.head)
      → Others Local Pair cs m i (push_store x p t) (cs ++ (t, x) ∷ []) (record m { tail = p }) idle
  store-Others p t x e f d j idle ne l w w' = ground arith
  store-Others p t x e f d j q ne l w w' =
      ground (arith, Own-snoc m.nodes cs m.tail p blank x (owned q) l.own w)

  pub advance-Others :
      (n : Node A) (x : A) (r : ℕ) (ds : List (Cell A))
      → i ≡ consumer
      → cs ≡ (m.head, x) ∷ ds
      → Outside m.head ds
      → m.head ≢ m.tail
      → Others Local Pair cs m i pop_advance ds (record m { head = r }) (pop_take m.head n x)
  advance-Others n x r ds e f o d j idle ne l w w' = ground arith
  advance-Others n x r ds e f o d j q ne l w w' = ground arith

  pub destroy-Others :
      (a : ℕ) (n k : Node A) (y : A)
      → i ≡ consumer
      → a ≢ m.tail
      → Others Local Pair cs m i
          (pop_destroy a n y)
          cs
          (record m { nodes = update m.nodes a (some (record k { item = none })) })
          (pop_delete a (record n { item = none }) y)
  destroy-Others a n k y e d j idle ne l w w' = ground arith
  destroy-Others a n k y e d j q ne l w w' = ground arith

  pub delete-Others :
      (a : ℕ) (n : Node A) (y : A)
      → i ≡ consumer
      → a ≢ m.tail
      → Others Local Pair cs m i
          (pop_delete a n y)
          cs
          (record m { nodes = update m.nodes a none })
          (returned (some y))
  delete-Others a n y e d j idle ne l w w' = ground arith
  delete-Others a n y e d j q ne l w w' = ground arith
