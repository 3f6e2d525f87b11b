-- ===== src/Chain/Labels.antt =====
-- The role that each node of a linked list has, as a label of its address.
use cs_learning_notes.Base.{ℕ, ◌≡◌, ◌≢◌, sym, ap, subst, List, [], ◌∷◌, ◌++◌, arith, update}
use cs_learning_notes.Chain.{Cell, Outside}

-- All nodes of a list have a role.
abbrev pub AllRole : {A R : Type 0} → (ℕ → R) → R → List (Cell A) → Type 0
AllRole f r [] = Unit {0}
AllRole f r ((a, x) ∷ cs) = (f a ≡ r) × AllRole f r cs

pub AllRole-Outside :
    {A R : Type 0} (f : ℕ → R) (r : R) (a : ℕ) (cs : List (Cell A))
    → f a ≢ r
    → AllRole f r cs
    → Outside a cs
AllRole-Outside f r a [] ne h = tt
AllRole-Outside f r a ((b, x) ∷ cs) ne h =
    (λ e. ne (subst (λ t. f t ≡ r) (sym e) h.0), AllRole-Outside f r a cs ne h.1)

-- A change of the roles that leaves the nodes of one role as they are.
pub AllRole-frame :
    {A R : Type 0} (f g : ℕ → R) (r : R) (cs : List (Cell A))
    → ((a : ℕ) → f a ≡ r → g a ≡ r)
    → AllRole f r cs
    → AllRole g r cs
AllRole-frame f g r [] k h = tt
AllRole-frame f g r ((a, x) ∷ cs) k h = (k a h.0, AllRole-frame f g r cs k h.1)

pub AllRole-update :
    {A R : Type 0} (f : ℕ → R) (r s : R) (a : ℕ) (cs : List (Cell A))
    → Outside a cs
    → AllRole f r cs
    → AllRole (update f a s) r cs
AllRole-update f r s a [] o h = tt
AllRole-update f r s a ((b, x) ∷ cs) o h = (ground arith, AllRole-update f r s a cs o.1 h.1)

-- All labels are changed by one function.
pub AllRole-map :
    {A R : Type 0} (f : ℕ → R) (k : R → R) (r : R) (cs : List (Cell A))
    → AllRole f r cs
    → AllRole (λ a. k (f a)) (k r) cs
AllRole-map f k r [] h = tt
AllRole-map f k r ((a, x) ∷ cs) h = (ap k h.0, AllRole-map f k r cs h.1)

pub AllRole-snoc :
    {A R : Type 0} (f : ℕ → R) (r : R) (a : ℕ) (x : A) (cs : List (Cell A))
    → AllRole f r cs
    → f a ≡ r
    → AllRole f r (cs ++ (a, x) ∷ [])
AllRole-snoc f r a x [] h e = (e, tt)
AllRole-snoc f r a x ((b, y) ∷ cs) h e = (h.0, AllRole-snoc f r a x cs h.1 e)
