-- ===== src/StopTokens/Invariant.antt =====
-- What holds in every reachable state of the program of cpp/c++20/stop.cpp.
use cs_learning_notes.Base.{
  ℕ, zero, suc, ◌≤◌, ◌≡◌, ◌≢◌, true, false, Option, none, some, List, [], ◌∷◌, ◌++◌,
}
use mathlib.Core.List.{Perm}
use cs_learning_notes.StopTokens.{
  one, two, Callback, in_main, in_task, Launch, pending, running, finished, deferred, Memory, Pc,
  idle, sleeping, invoking, running_callback, joining, leaving, gone, looping, making, resting,
  unmaking, ended,
}
use cs_learning_notes.StopTokens.Registry.{Entry, task, callback, Registry}

abbrev pub opt_list : Option Callback → List Callback
opt_list none = []
opt_list (some c) = c ∷ []

-- The callbacks that were neither run nor destroyed.
abbrev pub pending_callbacks : Memory → List Callback
pending_callbacks m = m.registered ++ opt_list m.executing

-- The history when the call of `task` with `num` begins, for the numbers from 1 on.
abbrev pub before : ℕ → List Entry
before zero = callback in_main ∷ []
before (suc zero) = callback in_main ∷ []
before (suc (suc num)) =
    callback (in_task two (suc num))
    ∷ callback (in_task one (suc num))
    ∷ task (suc num)
    ∷ before (suc num)

-- What the launch says of the history.
abbrev pub Launched : Launch → List Entry → Type 0
Launched pending h = h ≡ before 1
Launched running h = Unit {0}
Launched finished h = h ≡ before 10
Launched deferred h = h ≡ before 1

pub record Global (x : Registry) (m : Memory) : Type 0 where
  pub requested : x.requested ≡ m.requested
  pub waiting : Perm x.waiting (pending_callbacks m)
  pub launched : Launched m.launch x.history

-- What `main` knows after the launch, when it is at the place, and `task`.
pub record InMain (m : Memory) (i : ℕ) (asked : Type 0) (c : Option Callback) : Type 0 where
  pub thread : i ≡ 0
  pub launched : m.launch ≢ pending
  pub request : asked
  pub executing : m.executing ≡ c

pub record InTask (x : Registry) (m : Memory) (i num : ℕ) (h : List Entry) : Type 0 where
  pub thread : i ≡ 1
  pub runs : m.launch ≡ running
  pub least : 1 ≤ num
  pub most : num ≤ 9
  pub history : x.history ≡ h

abbrev pub Local : Registry → Memory → ℕ → Pc → Type 0
Local x m i idle =
    (i ≡ 0 → (m.launch ≡ pending) × (m.requested ≡ false) × (m.executing ≡ none))
    × (i ≡ 1 → m.launch ≡ running → x.history ≡ before 1)
Local x m i sleeping = InMain m i (m.requested ≡ false) none
Local x m i invoking = InMain m i (m.requested ≡ true) none
Local x m i (running_callback c) = InMain m i (m.requested ≡ true) (some c)
Local x m i joining = InMain m i (m.requested ≡ true) none × (m.registered ≡ [])
Local x m i leaving =
    InMain m i (m.requested ≡ true) none × (m.registered ≡ []) × (m.launch ≢ running)
Local x m i gone = InMain m i (m.requested ≡ true) none × (m.registered ≡ []) × (m.launch ≢ running)
Local x m i (looping num) =
    (i ≡ 1) × (m.launch ≡ running) × (1 ≤ num) × (num ≤ 10) × (x.history ≡ before num)
Local x m i (making one num) = InTask x m i num (task num ∷ before num)
Local x m i (making two num) = InTask x m i num (callback (in_task one num) ∷ task num ∷ before num)
Local x m i (resting one num) =
    InTask x m i num (callback (in_task one num) ∷ task num ∷ before num)
Local x m i (resting two num) = InTask x m i num (before (suc num))
Local x m i (unmaking w num) = InTask x m i num (before (suc num))
Local x m i ended = (i ≡ 1) × (m.launch ≡ finished)

abbrev pub Pair : ℕ → Pc → ℕ → Pc → Type 0
Pair i p j q = Unit {0}
