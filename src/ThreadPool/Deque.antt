-- ===== src/ThreadPool/Deque.antt =====
-- `work_stealing_queue`: a deque behind one mutex. The owner works at the front, thieves at the back.
use cs_learning_notes.Base.{◌≡◌, refl, Option, none, some, List, [], ◌∷◌, ◌++◌}

module _ {ℓ} {A : Type ℓ} where
  -- `work_stealing_queue::push`, at the front
  unfoldable pub push : A → List A → List A
  push task q = task ∷ q

  -- `work_stealing_queue::try_pop`, at the front: the result and the queue after it
  unfoldable pub try_pop : List A → Option A × List A
  try_pop [] = (none, [])
  try_pop (task ∷ q) = (some task, q)

  -- `q.back()` and `q.pop_back()` of a queue that is not empty, given its first task
  abbrev pub back : A → List A → A
  back task [] = task
  back task (next ∷ q) = back next q

  abbrev pub pop_back : A → List A → List A
  pop_back task [] = []
  pop_back task (next ∷ q) = task ∷ pop_back next q

  -- `work_stealing_queue::try_steal`, at the back
  unfoldable pub try_steal : List A → Option A × List A
  try_steal [] = (none, [])
  try_steal (task ∷ q) = (some (back task q), pop_back task q)

  pub back-append : (task : A) (q : List A) → task ∷ q ≡ pop_back task q ++ back task q ∷ []
  back-append task [] = refl
  back-append task (next ∷ q) = λ i. task ∷ back-append next q i

  back-snoc : (a task : A) (q : List A) → back a (q ++ task ∷ []) ≡ task
  back-snoc a task [] = refl
  back-snoc a task (next ∷ q) = back-snoc next task q

  pop_back-snoc : (a task : A) (q : List A) → pop_back a (q ++ task ∷ []) ≡ a ∷ q
  pop_back-snoc a task [] = refl
  pop_back-snoc a task (next ∷ q) = λ i. a ∷ pop_back-snoc next task q i

  -- The owner gets back what it pushed last, and a thief what was pushed first.
  pub steal_oldest :
      (first newest : A) (q : List A)
      → (try_pop (push newest (q ++ first ∷ [])) ≡ (some newest, q ++ first ∷ []))
        × (try_steal (push newest (q ++ first ∷ [])) ≡ (some first, push newest q))
  unfolding push try_pop try_steal
  steal_oldest first newest q =
      (refl, λ i. (some (back-snoc newest first q i), pop_back-snoc newest first q i))
