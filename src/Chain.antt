-- ===== src/Chain.antt =====
-- Linked nodes in memory: the nodes that the lock-based and lock-free containers reach from a
-- pointer by following `next`, as a list of their addresses and data.
pub mod Labels
use cs_learning_notes.Base.{ℕ, ◌≡◌, refl, sym, ◌∙◌, ◌≢◌, subst, List, [], ◌∷◌, ◌++◌}

-- An address and the data that the node there holds.
abbrev pub Cell : Type 0 → Type 0
Cell A = ℕ × A

abbrev pub values : {A : Type 0} → List (Cell A) → List A
values [] = []
values ((a, x) ∷ cs) = x ∷ values cs

pub values-append :
    {A : Type 0} (cs ds : List (Cell A)) → values (cs ++ ds) ≡ values cs ++ values ds
values-append [] ds = refl
values-append ((a, x) ∷ cs) ds = λ i. x ∷ values-append cs ds i

-- No node of the list stands at the address `a`.
abbrev pub Outside : {A : Type 0} → ℕ → List (Cell A) → Type 0
Outside a [] = Unit {0}
Outside a ((b, x) ∷ cs) = (a ≢ b) × Outside a cs

-- The nodes stand at different addresses.
abbrev pub Distinct : {A : Type 0} → List (Cell A) → Type 0
Distinct [] = Unit {0}
Distinct ((a, x) ∷ cs) = Outside a cs × Distinct cs

pub Outside-snoc :
    {A : Type 0} (a b : ℕ) (x : A) (cs : List (Cell A))
    → Outside a cs
    → a ≢ b
    → Outside a (cs ++ (b, x) ∷ [])
Outside-snoc a b x [] h ne = (ne, tt)
Outside-snoc a b x ((c, y) ∷ cs) h ne = (h.0, Outside-snoc a b x cs h.1 ne)

pub Outside-unsnoc :
    {A : Type 0} (a b : ℕ) (x : A) (cs : List (Cell A))
    → Outside a (cs ++ (b, x) ∷ [])
    → Outside a cs × (a ≢ b)
Outside-unsnoc a b x [] h = (tt, h.0)
Outside-unsnoc a b x ((c, y) ∷ cs) h = let (o, ne) = Outside-unsnoc a b x cs h.1 in ((h.0, o), ne)

pub Distinct-snoc :
    {A : Type 0} (b : ℕ) (x : A) (cs : List (Cell A))
    → Distinct cs
    → Outside b cs
    → Distinct (cs ++ (b, x) ∷ [])
Distinct-snoc b x [] d o = (tt, tt)
Distinct-snoc b x ((c, y) ∷ cs) d o =
    (Outside-snoc c b x cs d.0 (λ e. o.0 (sym e)), Distinct-snoc b x cs d.1 o.1)

-- `Points a x r`: the node at `a` holds `x`, and its `next` is `r`. The chain goes from `p` to `q`,
-- whose own node is not part of it.
module _ {A : Type 0} (Points : ℕ → A → ℕ → Type 0) where
  abbrev pub Chain : ℕ → List (Cell A) → ℕ → Type 0
  Chain p [] q = p ≡ q
  Chain p ((a, x) ∷ cs) q = (p ≡ a) × (r : ℕ) × Points a x r × Chain r cs q

  pub Chain-snoc :
      (p q r : ℕ) (x : A) (cs : List (Cell A))
      → Chain p cs q
      → Points q x r
      → Chain p (cs ++ (q, x) ∷ []) r
  Chain-snoc p q r x [] c h = (c, r, h, refl)
  Chain-snoc p q r x ((a, y) ∷ cs) c h = (c.0, c.1, c.2, Chain-snoc c.1 q r x cs c.3 h)

  -- An address where no node points anywhere is outside of every chain.
  pub Chain-Outside :
      (a p q : ℕ) (cs : List (Cell A))
      → ((x : A) (r : ℕ) → ¬ Points a x r)
      → Chain p cs q
      → Outside a cs
  Chain-Outside a p q [] h c = tt
  Chain-Outside a p q ((b, x) ∷ cs) h c =
      (λ e. h x c.1 (subst (λ t. Points t x c.1) (sym e) c.2), Chain-Outside a c.1 q cs h c.3)

  -- The node that a pointer into a chain leads to is its first one.
  pub Chain-cons :
      (p q : ℕ) (cs : List (Cell A))
      → p ≢ q
      → Chain p cs q
      → (x : A) × (r : ℕ) × (ds : List (Cell A)) × (cs ≡ (p, x) ∷ ds) × Points p x r × Chain r ds q
  Chain-cons p q [] ne c = absurd (ne c)
  Chain-cons p q ((a, x) ∷ cs) ne c =
      (x, c.1, cs, (λ i. (sym c.0 i, x) ∷ cs), subst (λ t. Points t x c.1) (sym c.0) c.2, c.3)

-- A chain from a pointer to itself has no nodes, if its end is not one of them.
pub Chain-nil :
    {A : Type 0} (P : ℕ → A → ℕ → Type 0) (p q : ℕ) (cs : List (Cell A))
    → p ≡ q
    → Outside q cs
    → Chain P p cs q
    → values cs ≡ []
Chain-nil P p q [] e o c = refl
Chain-nil P p q ((a, x) ∷ cs) e o c = absurd (o.0 (sym e ∙ c.0))

-- A change of memory at one address keeps the chains that the address is outside of.
pub Chain-frame :
    {A : Type 0} (P Q : ℕ → A → ℕ → Type 0) (a p q : ℕ) (cs : List (Cell A))
    → ((b : ℕ) (x : A) (r : ℕ) → a ≢ b → P b x r → Q b x r)
    → Outside a cs
    → Chain P p cs q
    → Chain Q p cs q
Chain-frame P Q a p q [] f o c = c
Chain-frame P Q a p q ((b, x) ∷ cs) f o c =
    (c.0, c.1, f b x c.1 o.0 c.2, Chain-frame P Q a c.1 q cs f o.1 c.3)
