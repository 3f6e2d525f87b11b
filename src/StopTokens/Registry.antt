-- ===== src/StopTokens/Registry.antt =====
-- What a stop state promises: a callback that is made before the request waits, until it is run after the
-- request or destroyed; one that is made after the request is run by its constructor.
use cs_learning_notes.Base.{ℕ, ◌≡◌, ◌≢◌, sym, subst, Bool, true, false, List, [], ◌∷◌, ◌++◌}
use mathlib.Core.List.{Perm, perm_middle}
use mathlib.Core.List.Perm
use cs_learning_notes.Interleaving.{Spec, Replays}
use cs_learning_notes.StopTokens.{
  Callback, in_main, Event, called, asked, made, ran, ran_at_once, expired,
}

-- What the program did in its order: it called `task`, or made a callback.
pub data Entry : Type 0 where
  task : (num : ℕ) → Entry
  callback : Callback → Entry

-- The newest entry stands first.
pub record Registry : Type 0 where
  pub requested : Bool
  pub waiting : List Callback
  pub history : List Entry

abbrev pub Stops : Spec Registry Event
Stops r (called num) r' = r' ≡ record r { history = task num ∷ r.history }
Stops r asked r' = r' ≡ record r { requested = true }
Stops r (made c) r' =
    (r.requested ≡ false)
    × (r'.requested ≡ r.requested)
    × (r'.history ≡ callback c ∷ r.history)
    × Perm (c ∷ r.waiting) r'.waiting
Stops r (ran c i) r' =
    (r.requested ≡ true)
    × (r'.requested ≡ r.requested)
    × (r'.history ≡ r.history)
    × Perm r.waiting (c ∷ r'.waiting)
Stops r (ran_at_once c i) r' =
    (r.requested ≡ true) × (r' ≡ record r { history = callback c ∷ r.history })
Stops r (expired c) r' =
    (c ≢ in_main)
    × (r'.requested ≡ r.requested)
    × (r'.history ≡ r.history)
    × Perm r.waiting (c ∷ r'.waiting)

abbrev pub fresh : Registry
fresh = record { requested = false; waiting = in_main ∷ []; history = callback in_main ∷ [] }

-- The callbacks in a history.
abbrev pub callbacks : List Entry → List Callback
callbacks [] = []
callbacks (task num ∷ es) = callbacks es
callbacks (callback c ∷ es) = c ∷ callbacks es

abbrev pub all_run : List Event → List Callback
all_run [] = []
all_run (ran c i ∷ tr) = c ∷ all_run tr
all_run (ran_at_once c i ∷ tr) = c ∷ all_run tr
all_run (_ ∷ tr) = all_run tr

abbrev pub all_expired : List Event → List Callback
all_expired [] = []
all_expired (expired c ∷ tr) = c ∷ all_expired tr
all_expired (_ ∷ tr) = all_expired tr

abbrev pub NoneInMain : List Callback → Type 0
NoneInMain [] = Unit {0}
NoneInMain (c ∷ cs) = (c ≢ in_main) × NoneInMain cs

pub expired-NoneInMain :
    (tr : List Event) (r : Registry) → Replays Stops fresh tr r → NoneInMain (all_expired tr)
expired-NoneInMain [] r h = tt
expired-NoneInMain (called num ∷ tr) r (q, h, k) = expired-NoneInMain tr q h
expired-NoneInMain (asked ∷ tr) r (q, h, k) = expired-NoneInMain tr q h
expired-NoneInMain (made c ∷ tr) r (q, h, k) = expired-NoneInMain tr q h
expired-NoneInMain (ran c i ∷ tr) r (q, h, k) = expired-NoneInMain tr q h
expired-NoneInMain (ran_at_once c i ∷ tr) r (q, h, k) = expired-NoneInMain tr q h
expired-NoneInMain (expired c ∷ tr) r (q, h, k) = (k.0, expired-NoneInMain tr q h)

-- Every callback that was made was run once, or destroyed before its turn, or waits.
pub Stops-conserves :
    (tr : List Event) (r : Registry)
    → Replays Stops fresh tr r
    → Perm (callbacks r.history) (all_run tr ++ all_expired tr ++ r.waiting)
Stops-conserves [] r h =
    subst (λ q. Perm (callbacks q.history) q.waiting) (sym h) (Perm.refl (in_main ∷ []))
Stops-conserves (called num ∷ tr) r (q, h, k) =
    let st = all_run tr ++ all_expired tr in
    subst (λ x. Perm (callbacks x.history) (st ++ x.waiting)) (sym k) (Stops-conserves tr q h)
Stops-conserves (asked ∷ tr) r (q, h, k) =
    let st = all_run tr ++ all_expired tr in
    subst (λ x. Perm (callbacks x.history) (st ++ x.waiting)) (sym k) (Stops-conserves tr q h)
Stops-conserves (made c ∷ tr) r (q, h, k) =
    let st = all_run tr ++ all_expired tr in
    subst (λ es. Perm (callbacks es) (st ++ r.waiting)) (sym k.2)
      (Perm.trans (Perm.cons c (Stops-conserves tr q h))
        (Perm.trans (Perm.symm (perm_middle st q.waiting)) (Perm.append_left st k.3)))
Stops-conserves (ran c i ∷ tr) r (q, h, k) =
    let st = all_run tr ++ all_expired tr in
    subst (λ es. Perm (callbacks es) (c ∷ st ++ r.waiting)) (sym k.2)
      (Perm.trans (Stops-conserves tr q h)
        (Perm.trans (Perm.append_left st k.3) (perm_middle st r.waiting)))
Stops-conserves (ran_at_once c i ∷ tr) r (q, h, k) =
    let st = all_run tr ++ all_expired tr in
    subst (λ x. Perm (callbacks x.history) (c ∷ st ++ x.waiting)) (sym k.1)
      (Perm.cons c (Stops-conserves tr q h))
Stops-conserves (expired c ∷ tr) r (q, h, k) =
    let st = all_run tr ++ all_expired tr in
    let moved =
      Perm.append_right r.waiting (Perm.symm (perm_middle (all_run tr) (all_expired tr))) in
    subst (λ es. Perm (callbacks es) ((all_run tr ++ c ∷ all_expired tr) ++ r.waiting)) (sym k.2)
      (Perm.trans (Stops-conserves tr q h)
        (Perm.trans (Perm.append_left st k.3) (Perm.trans (perm_middle st r.waiting) moved)))
