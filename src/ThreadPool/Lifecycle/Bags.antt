-- ===== src/ThreadPool/Lifecycle/Bags.antt =====
-- What a pool promises: each task that is submitted waits until one thread starts it, or until it is
-- destroyed with the pool; in what order is left open.
use cs_learning_notes.Base.{sym, subst, List, [], ◌∷◌, ◌++◌}
use cs_learning_notes.Interleaving.{Spec, Replays}
use cs_learning_notes.ThreadPool.Lifecycle.{Event, submitted, started, dropped}
use mathlib.Core.List.{Perm, perm_middle, append_assoc}
use mathlib.Core.List.Perm

abbrev pub Bag : {A : Type 0} → Spec (List A) (Event A)
Bag xs (submitted task) ys = Perm (task ∷ xs) ys
Bag xs (started task) ys = Perm xs (task ∷ ys)
Bag xs (dropped ts) ys = Perm xs (ts ++ ys)

abbrev pub all_submitted : {A : Type 0} → List (Event A) → List A
all_submitted [] = []
all_submitted (submitted task ∷ tr) = task ∷ all_submitted tr
all_submitted (started task ∷ tr) = all_submitted tr
all_submitted (dropped ts ∷ tr) = all_submitted tr

abbrev pub all_started : {A : Type 0} → List (Event A) → List A
all_started [] = []
all_started (submitted task ∷ tr) = all_started tr
all_started (started task ∷ tr) = task ∷ all_started tr
all_started (dropped ts ∷ tr) = all_started tr

abbrev pub all_dropped : {A : Type 0} → List (Event A) → List A
all_dropped [] = []
all_dropped (submitted task ∷ tr) = all_dropped tr
all_dropped (started task ∷ tr) = all_dropped tr
all_dropped (dropped ts ∷ tr) = all_dropped tr ++ ts

-- Every task that was submitted was started once, or destroyed, or waits still.
pub Bag-conserves :
    {A : Type 0} (tr : List (Event A)) (xs : List A)
    → Replays Bag [] tr xs
    → Perm (all_submitted tr) (all_started tr ++ all_dropped tr ++ xs)
Bag-conserves [] xs h = subst (λ l. Perm [] l) (sym h) (Perm.refl _)
Bag-conserves (submitted task ∷ tr) zs (ys, h, k) =
    let st = all_started tr ++ all_dropped tr in
    Perm.trans (Perm.cons task (Bag-conserves tr ys h))
      (Perm.trans (Perm.symm (perm_middle st ys)) (Perm.append_left st k))
Bag-conserves (started task ∷ tr) zs (ys, h, k) =
    let st = all_started tr ++ all_dropped tr in
    Perm.trans (Bag-conserves tr ys h) (Perm.trans (Perm.append_left st k) (perm_middle st zs))
Bag-conserves (dropped ts ∷ tr) zs (ys, h, k) =
    let st = all_started tr ++ all_dropped tr in
    Perm.trans (Bag-conserves tr ys h)
      (subst (λ l. Perm (st ++ ys) l) (simp append_assoc) (Perm.append_left st k))
