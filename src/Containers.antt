-- ===== src/Containers.antt =====
-- What the containers promise: the abstract queue and the abstract stack, each as the machine that
-- does one operation at a time.
use cs_learning_notes.Base.{◌≡◌, sym, ◌∙◌, ap, List, [], ◌∷◌, ◌++◌}
use cs_learning_notes.Interleaving.{Spec, Replays}
use mathlib.Core.List.{append_assoc}

-- `put x` is the moment at which `x` enters, `took x` that at which it leaves, and `empty` that at
-- which an operation finds that there is nothing to take.
pub data Event (A : Type 0) : Type 0 where
  put : A → Event A
  took : A → Event A
  empty : Event A

-- Oldest item first.
abbrev pub Fifo : {A : Type 0} → Spec (List A) (Event A)
Fifo xs (put x) ys = ys ≡ xs ++ x ∷ []
Fifo xs (took x) ys = xs ≡ x ∷ ys
Fifo xs empty ys = (xs ≡ []) × (ys ≡ [])

-- Newest item first.
abbrev pub Lifo : {A : Type 0} → Spec (List A) (Event A)
Lifo xs (put x) ys = ys ≡ x ∷ xs
Lifo xs (took x) ys = xs ≡ x ∷ ys
Lifo xs empty ys = (xs ≡ []) × (ys ≡ [])

-- The items of a trace that entered, and those that left, oldest first.
abbrev pub entered : {A : Type 0} → List (Event A) → List A
entered [] = []
entered (put x ∷ tr) = entered tr ++ x ∷ []
entered (took x ∷ tr) = entered tr
entered (empty ∷ tr) = entered tr

abbrev pub left : {A : Type 0} → List (Event A) → List A
left [] = []
left (put x ∷ tr) = left tr
left (took x ∷ tr) = left tr ++ x ∷ []
left (empty ∷ tr) = left tr

-- In a queue the items leave in the order in which they entered, and the others are still there.
pub Fifo-order :
    {A : Type 0} (tr : List (Event A)) (xs : List A)
    → Replays Fifo [] tr xs
    → entered tr ≡ left tr ++ xs
Fifo-order [] xs h = sym h
Fifo-order (put x ∷ tr) zs (ys, h, k) =
    ap (λ l. l ++ x ∷ []) (Fifo-order tr ys h)
    ∙ append_assoc (left tr) ys (x ∷ [])
    ∙ ap (λ l. left tr ++ l) (sym k)
Fifo-order (took x ∷ tr) zs (ys, h, k) =
    Fifo-order tr ys h ∙ ap (λ l. left tr ++ l) k ∙ sym (append_assoc (left tr) (x ∷ []) zs)
Fifo-order (empty ∷ tr) zs (ys, h, k) = Fifo-order tr ys h ∙ ap (λ l. left tr ++ l) (k.0 ∙ sym k.1)
