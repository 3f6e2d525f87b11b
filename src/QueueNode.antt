-- ===== src/QueueNode.antt =====
-- The node of the lock-based and of the single-producer queue: storage for an item with a lifetime
-- of its own (`manual_lifetime<T> data`, cpp/c++20/coroutines/manual_lifetime.hpp) and `next`.
pub mod Draining
use cs_learning_notes.Base.{
  ℕ, ◌≡◌, ◌≢◌, Option, none, some, List, [], ◌∷◌, ◌++◌, arith, update, update_ne, subst, ℕ_discrete,
}
use cs_learning_notes.Chain.{Cell, Outside, Outside-snoc, Chain, Chain-frame, Chain-Outside}

abbrev pub null : ℕ
null = 0

-- `item` is `none` while no object lives in the storage.
pub record Node (A : Type 0) : Type 0 where
  pub item : Option A
  pub next : ℕ

-- `none` where no node is allocated.
abbrev pub Heap : Type 0 → Type 0
Heap A = ℕ → Option (Node A)

-- `new node{}`
abbrev pub blank : {A : Type 0} → Node A
blank = record { item = none; next = null }

abbrev pub Points : {A : Type 0} → Heap A → ℕ → A → ℕ → Type 0
Points h a x r = h a ≡ some (record { item = some x; next = r })

-- What a thread knows of a node that no other thread reaches: what it holds, and that it is neither
-- one of the nodes `cs` nor the dummy node `t`.
abbrev pub Own : {A : Type 0} → Heap A → List (Cell A) → ℕ → Option (ℕ × Node A) → Type 0
Own h cs t none = Unit {0}
Own h cs t (some (a, n)) = (h a ≡ some n) × Outside a cs × (a ≢ t)

-- Two threads own different nodes.
abbrev pub Apart : {A : Type 0} → Option (ℕ × Node A) → Option (ℕ × Node A) → Type 0
Apart none q = Unit {0}
Apart (some (a, n)) none = Unit {0}
Apart (some (a, n)) (some (b, k)) = a ≢ b

-- The dummy node becomes the last of the chain, and the node at `p` the dummy.
pub Own-snoc :
    {A : Type 0} (h : Heap A) (cs : List (Cell A)) (t p : ℕ) (n : Node A) (x : A)
    (o : Option (ℕ × Node A))
    → Own h cs t o
    → Apart (some (p, n)) o
    → Own h (cs ++ (t, x) ∷ []) p o
Own-snoc h cs t p n x none w a = tt
Own-snoc h cs t p n x (some (b, k)) w a = (w.0, Outside-snoc b t x cs w.1 w.2, ground arith)

-- A write to one node that stands outside of a chain.
pub write-Chain :
    {A : Type 0} (h : Heap A) (a p q : ℕ) (o : Option (Node A)) (cs : List (Cell A))
    → Outside a cs
    → Chain (Points h) p cs q
    → Chain (Points (update h a o)) p cs q
write-Chain h a p q o cs f c =
    Chain-frame (Points h) (Points (update h a o)) a p q cs (λ b x r ne e. ground arith) f c

-- A free address is outside of every chain.
pub free-Outside :
    {A : Type 0} (h : Heap A) (a p q : ℕ) (cs : List (Cell A))
    → h a ≡ none
    → Chain (Points h) p cs q
    → Outside a cs
free-Outside h a p q cs f c = Chain-Outside (Points h) a p q cs (λ x r e. cc) c

-- What a thread holds is at another address.
abbrev pub NotAt : {A : Type 0} → ℕ → Option (ℕ × Node A) → Type 0
NotAt a none = Unit {0}
NotAt a (some (b, n)) = a ≢ b

-- A node that is neither in the chain nor its dummy, and which nobody holds, is not allocated.
abbrev pub Free : {A : Type 0} → Heap A → List (Cell A) → ℕ → ℕ → Option (ℕ × Node A) → Type 0
Free h cs t a o = Outside a cs → a ≢ t → NotAt a o → h a ≡ none

pub delete-Free :
    {A : Type 0} (h : Heap A) (a b : ℕ) → (a ≢ b → h a ≡ none) → update h b none a ≡ none
delete-Free h a b free = elim (ℕ_discrete a b) [
  | yes e ↦ ground arith
  | no ne ↦ ground (arith, free ne)
]

-- No thread holds what is at `a`, once thread `i` does not.
pub NotAt-update :
    {A Pc : Type 0} (owned : Pc → Option (ℕ × Node A)) (pc : ℕ → Pc) (i a : ℕ) (p' : Pc)
    → ((j : ℕ) → NotAt a (owned (update pc i p' j)))
    → NotAt a (owned (pc i))
    → (j : ℕ) → NotAt a (owned (pc j))
NotAt-update owned pc i a p' all own j = elim (ℕ_discrete i j) [
  | yes e ↦ subst (λ k. NotAt a (owned (pc k))) e own
  | no ne ↦ subst (λ q. NotAt a (owned q)) (update_ne pc i p' j ne) (all j)
]
