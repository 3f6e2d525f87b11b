-- ===== src/StackNode.antt =====
-- The node of the lock-free stacks, `struct node { T data; node* next; }`, and what a thread knows of
-- the nodes that it has allocated, or that it has read `head` at.
use cs_learning_notes.Base.{ℕ, ◌≡◌, sym, ◌≢◌, Option, none, some, List, ◌∷◌, arith, update}
use cs_learning_notes.Chain.{Cell, Outside, Chain, Chain-frame}

abbrev pub null : ℕ
null = 0

pub record Node (A : Type 0) : Type 0 where
  pub data_ : A
  pub next : ℕ

-- `none` where no node is allocated.
abbrev pub Heap : Type 0 → Type 0
Heap A = ℕ → Option (Node A)

abbrev pub Points : {A : Type 0} → Heap A → ℕ → A → ℕ → Type 0
Points h a x r = h a ≡ some (record { data_ = x; next = r })

-- A node that no other thread reaches yet.
abbrev pub Own : {A : Type 0} → Heap A → List (Cell A) → Option (ℕ × Node A) → Type 0
Own h cs none = Unit {0}
Own h cs (some (a, n)) = (h a ≡ some n) × Outside a cs

abbrev pub Apart : {A : Type 0} → Option (ℕ × Node A) → Option (ℕ × Node A) → Type 0
Apart none q = Unit {0}
Apart (some (a, n)) none = Unit {0}
Apart (some (a, n)) (some (b, k)) = a ≢ b

-- The node that one thread owns is not the one that another has seen.
abbrev pub Unseen : {A : Type 0} → Option (ℕ × Node A) → Option ℕ → Type 0
Unseen none q = Unit {0}
Unseen (some (a, n)) none = Unit {0}
Unseen (some (a, n)) (some b) = a ≢ b

-- A write to one node that stands outside of a chain.
pub write-Chain :
    {A : Type 0} (h : Heap A) (a p q : ℕ) (o : Option (Node A)) (cs : List (Cell A))
    → Outside a cs
    → Chain (Points h) p cs q
    → Chain (Points (update h a o)) p cs q
write-Chain h a p q o cs f c =
    Chain-frame (Points h) (Points (update h a o)) a p q cs (λ b x r ne e. ground arith) f c

pub Unseen-none : {A : Type 0} (o : Option (ℕ × Node A)) → Unseen o none
Unseen-none none = tt
Unseen-none (some (a, n)) = tt

-- A node that a thread owns is not one that is reached from the head.
pub Own-Unseen :
    {A : Type 0} (h : Heap A) (cs : List (Cell A)) (o : Option (ℕ × Node A)) (a : ℕ) (x : A)
    (ds : List (Cell A))
    → cs ≡ (a, x) ∷ ds
    → Own h cs o
    → Unseen o (some a)
Own-Unseen h cs none a x ds e w = tt
Own-Unseen h cs (some (b, n)) a x ds e w = ground arith

pub Apart-sym : {A : Type 0} (o u : Option (ℕ × Node A)) → Apart o u → Apart u o
Apart-sym none none a = tt
Apart-sym none (some (b, k)) a = tt
Apart-sym (some (a, n)) none ne = tt
Apart-sym (some (a, n)) (some (b, k)) ne = λ e. ne (sym e)

-- A write to one node keeps what is known of a node that another thread owns.
pub write-Own :
    {A : Type 0} (h : Heap A) (a : ℕ) (n : Node A) (o : Option (ℕ × Node A)) (cs : List (Cell A))
    → Apart (some (a, n)) o
    → Own h cs o
    → Own (update h a (some n)) cs o
write-Own h a n none cs ne w = tt
write-Own h a n (some (b, k)) cs ne w = (ground arith, w.1)

pub Apart-none : {A : Type 0} (o : Option (ℕ × Node A)) → Apart o none
Apart-none none = tt
Apart-none (some (a, n)) = tt

pub fresh-Apart :
    {A : Type 0} (h : Heap A) (cs : List (Cell A)) (a : ℕ) (n : Node A) (o : Option (ℕ × Node A))
    → h a ≡ none
    → Own h cs o
    → Apart (some (a, n)) o
fresh-Apart h cs a n none e w = tt
fresh-Apart h cs a n (some (b, k)) e w = ground arith

-- Another thread's node stays outside when a node enters the chain, or leaves it.
pub cons-Own :
    {A : Type 0} (h : Heap A) (cs : List (Cell A)) (a : ℕ) (n : Node A) (x : A)
    (o : Option (ℕ × Node A))
    → Apart (some (a, n)) o
    → Own h cs o
    → Own h ((a, x) ∷ cs) o
cons-Own h cs a n x none ne w = tt
cons-Own h cs a n x (some (b, k)) ne w = (w.0, ((λ e. ne (sym e)), w.1))

pub tail-Own :
    {A : Type 0} (h : Heap A) (cs ds : List (Cell A)) (c : Cell A) (o : Option (ℕ × Node A))
    → cs ≡ c ∷ ds
    → Own h cs o
    → Own h ds o
tail-Own h cs ds c none e w = tt
tail-Own h cs ds (a, x) (some (b, k)) e w = (w.0, (rw e at (w.1)).1)
