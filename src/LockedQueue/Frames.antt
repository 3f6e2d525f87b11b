-- ===== src/LockedQueue/Frames.antt =====
-- What a step of one thread leaves of what another thread of the lock-based queue knows.
use cs_learning_notes.Base.{
  ℕ, ◌≡◌, refl, ◌≢◌, ◌↔◌, Bool, true, false, Option, none, some, List, [], ◌∷◌, ◌++◌, arith, update,
}
use cs_learning_notes.Chain.{Cell, Chain, Outside, Chain-cons, values}
use cs_learning_notes.Interleaving.{Kept, Others}
use cs_learning_notes.Containers.{Event, Fifo}
use cs_learning_notes.QueueNode.{Node, blank, Points, Own-snoc}
use cs_learning_notes.LockedQueue.{
  Memory, Pc, idle, push_lock, push_emplace, push_link, push_swing, push_unlock, advance,
  unlock_head, destroy, delete, returned,
}
use cs_learning_notes.LockedQueue.Invariant.{
  Global, Local, Pair, owned, holds_head, holds_tail, Holds, Tail, Popping,
}

keep-Holds :
    (b : Bool) (mutex mutex' : Option ℕ) (j : ℕ)
    → (mutex ≡ some j → mutex' ≡ some j)
    → Holds b mutex j
    → Holds b mutex' j
keep-Holds true mutex mutex' j f h = f h
keep-Holds false mutex mutex' j f h = tt

-- A mutex changes hands, but is held by another thread than `i` as before.
abbrev pub SameFor : ℕ → Option ℕ → Option ℕ → Type 0
SameFor i mutex mutex' = (j : ℕ) → i ≢ j → (mutex ≡ some j) ↔ (mutex' ≡ some j)

pub unchanged : (i : ℕ) (mutex : Option ℕ) → SameFor i mutex mutex
unchanged i mutex j d = ((λ h. h), (λ h. h))

pub locks : (i : ℕ) (mutex : Option ℕ) → mutex ≡ none → SameFor i mutex (some i)
locks i mutex e j d = ((λ h. cc), (λ h. ground arith))

pub unlocks : (i : ℕ) (mutex : Option ℕ) → mutex ≡ some i → SameFor i mutex none
unlocks i mutex e j d = ((λ h. ground arith), (λ h. cc))

-- A memory that differs in the mutexes and the sleepers.
abbrev pub relock : {A : Type 0} → Memory A → Option ℕ → Option ℕ → List ℕ → Memory A
relock m h t sl = record m { head_mutex = h; tail_mutex = t; asleep = sl }

relock-Tail :
    {A : Type 0} (m : Memory A) (h t : Option ℕ) (sl : List ℕ) (q : Pc A)
    → Tail m q
    → Tail (relock m h t sl) q
relock-Tail m h t sl idle k = k
relock-Tail m h t sl _ k = k

relock-Popping :
    {A : Type 0} (m : Memory A) (h t : Option ℕ) (sl : List ℕ) (q : Pc A)
    → Popping m q
    → Popping (relock m h t sl) q
relock-Popping m h t sl idle k = k
relock-Popping m h t sl _ k = k

module _ {A : Type 0} (cs : List (Cell A)) (m : Memory A) (i : ℕ) where
  abbrev pub K : Pc A → Option (Event A) → Memory A → Pc A → Type 0
  K p e m' p' = Kept values Fifo Global Local Pair cs m i p e m' p'

  abbrev pub O : Pc A → List (Cell A) → Memory A → Pc A → Type 0
  O p cs' m' p' = Others Local Pair cs m i p cs' m' p'

  pub new-Others :
      (p : ℕ) (x : A)
      → m.nodes p ≡ none
      → p ≢ m.tail
      → O idle cs (record m { nodes = update m.nodes p (some blank) }) (push_lock x p)
  new-Others p x f ne j idle d l w w' = ground arith
  new-Others p x f ne j q d l w w' = ground arith

  -- While a thread holds the mutex of the tail, what it writes at the dummy node or at the pointer
  -- concerns no other thread.
  pub emplace-Others :
      (p : ℕ) (x : A) (n : Node A)
      → m.tail_mutex ≡ some i
      → O
          (push_emplace x p)
          cs
          (record m { nodes = update m.nodes m.tail (some (record n { item = some x })) })
          (push_link x p)
  emplace-Others p x n h j idle d l w w' = ground arith
  emplace-Others p x n h j q d l w w' = ground arith

  pub link-Others :
      (p : ℕ) (x : A) (n : Node A)
      → m.tail_mutex ≡ some i
      → O
          (push_link x p)
          cs
          (record m { nodes = update m.nodes m.tail (some (record n { next = p })) })
          (push_swing x p)
  link-Others p x n h j idle d l w w' = ground arith
  link-Others p x n h j q d l w w' = ground arith

  pub swing-Others :
      (p : ℕ) (x : A)
      → m.tail_mutex ≡ some i
      → (m.head ≢ m.tail → p ≢ m.head)
      → O (push_swing x p) (cs ++ (m.tail, x) ∷ []) (record m { tail = p }) push_unlock
  swing-Others p x h f j idle d l w w' = ground arith
  swing-Others p x h f j q d l w w' =
      ground (arith, Own-snoc m.nodes cs m.tail p blank x (owned q) l.own w)

  pub step-Others :
      (n : Node A) (x : A) (r : ℕ) (ds : List (Cell A))
      → m.head_mutex ≡ some i
      → cs ≡ (m.head, x) ∷ ds
      → Outside m.head ds
      → m.head ≢ m.tail
      → O advance ds (record m { head = r }) (unlock_head m.head n x)
  step-Others n x r ds e f o h j idle d l w w' = ground arith
  step-Others n x r ds e f o h j q d l w w' = ground arith

  pub destroy-Others :
      (a : ℕ) (n k : Node A) (y : A)
      → a ≢ m.tail
      → O
          (destroy a n y)
          cs
          (record m { nodes = update m.nodes a (some (record k { item = none })) })
          (delete a (record n { item = none }) y)
  destroy-Others a n k y e j idle d l w w' = ground arith
  destroy-Others a n k y e j q d l w w' = ground arith

  pub delete-Others :
      (a : ℕ) (n : Node A) (y : A)
      → a ≢ m.tail
      → O (delete a n y) cs (record m { nodes = update m.nodes a none }) (returned (some y))
  delete-Others a n y e j idle d l w w' = ground arith
  delete-Others a n y e j q d l w w' = ground arith

  -- A step that takes or gives back a mutex, or puts a thread to sleep or wakes one.
  relock-Others :
      (p p' : Pc A) (h t : Option ℕ) (sl : List ℕ)
      → owned p' ≡ owned p
      → SameFor i m.head_mutex h
      → SameFor i m.tail_mutex t
      → O p cs (relock m h t sl) p'
  relock-Others p p' h t sl e f g j q d l w w' = (
    record {
      own = l.own;
      head_lock = keep-Holds (holds_head q) m.head_mutex h j ((f j d).0) l.head_lock;
      tail_lock = keep-Holds (holds_tail q) m.tail_mutex t j ((g j d).0) l.tail_lock;
      head_held = λ r. l.head_held ((f j d).1 r);
      tail_held = λ r. l.tail_held ((g j d).1 r);
      tail = relock-Tail m h t sl q l.tail;
      popping = relock-Popping m h t sl q l.popping;
    },
    rw e w,
    rw e w',
  )

  pub keep_relock :
      (p p' : Pc A) (h t : Option ℕ) (sl : List ℕ)
      → owned p' ≡ owned p
      → SameFor i m.head_mutex h
      → SameFor i m.tail_mutex t
      → (t ≡ none → m.nodes m.tail ≡ some blank)
      → Global cs m
      → Local cs (relock m h t sl) i p'
      → K p none (relock m h t sl) p'
  keep_relock p p' h t sl e f k q g l = record {
    x' = cs;
    follows = refl;
    global = record {
      chain = g.chain;
      distinct = g.distinct;
      dummy = g.dummy;
      no_null = g.no_null;
      tail_live = g.tail_live;
      quiet_tail = q;
    };
    local = l;
    others = relock-Others p p' h t sl e f k;
  }

  pub keep_relock-cells :
      (p p' : Pc A) (h t : Option ℕ) (sl : List ℕ) (e : owned p' ≡ owned p)
      (f : SameFor i m.head_mutex h) (k : SameFor i m.tail_mutex t)
      (q : t ≡ none → m.nodes m.tail ≡ some blank) (g : Global cs m)
      (l : Local cs (relock m h t sl) i p')
      → (keep_relock p p' h t sl e f k q g l).x' ≡ cs
  unfolding keep_relock
  keep_relock-cells p p' h t sl e f k q g l = refl

  -- A step that leaves memory alone.
  pub quiet : (p p' : Pc A) → owned p' ≡ owned p → Global cs m → Local cs m i p' → K p none m p'
  quiet p p' e g l =
      keep_relock p p' m.head_mutex m.tail_mutex m.asleep e (unchanged i m.head_mutex)
        (unchanged i m.tail_mutex) g.quiet_tail g l

  pub quiet-cells :
      (p p' : Pc A) (e : owned p' ≡ owned p) (g : Global cs m) (l : Local cs m i p')
      → (quiet p p' e g l).x' ≡ cs
  unfolding quiet keep_relock
  quiet-cells p p' e g l = refl

  -- The node at the head, where there is one.
  pub head_cell :
      Global cs m
      → m.head ≢ m.tail
      → (x : A) × (r : ℕ) × (ds : List (Cell A)) × (cs ≡ (m.head, x) ∷ ds)
        × Points m.nodes m.head x r
        × Chain (Points m.nodes) r ds m.tail
  head_cell g ne = Chain-cons (Points m.nodes) m.head m.tail cs ne g.chain

  pub not_head : (p : ℕ) → Global cs m → Outside p cs → m.head ≢ m.tail → p ≢ m.head
  not_head p g o ne = let (x, r, ds, e, h, c) = head_cell g ne in ground arith
