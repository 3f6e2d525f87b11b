-- ===== src/ThreadPool/Steal.antt =====
-- Which queues `tryStealTask` steals from.
use cs_learning_notes.Base.{
  ℕ, zero, suc, ◌+◌, ◌-◌, ◌%◌, ◌<◌, ◌≤◌, ◌≡◌, refl, sym, ap, subst, ◌∙◌, Option, none, some, List,
  [], ◌∷◌, ◌++◌, length, length-append, length-set, get_elem?, set, get_elem?-lt, arith,
}
use mathlib.Core.List.{flatten}
use mathlib.Core.List.Perm
use cs_learning_notes.ThreadPool.{u32, steal_round, steal_loop, try_steal_task}
use cs_learning_notes.ThreadPool.Deque.{try_steal, back, pop_back}
use cs_learning_notes.ThreadPool.Tasks.{Taken, last_first, flatten-take}

module _ {ℓ} {A : Type ℓ} where
  get_elem?-append_left :
      (qs : List (List A)) (j : ℕ) (ys : List (List A))
      → j < length qs
      → get_elem? (qs ++ ys) j ≡ get_elem? qs j
  get_elem?-append_left [] j ys h = absurd (omega arith)
  get_elem?-append_left (q ∷ qs) zero ys h = refl
  get_elem?-append_left (q ∷ qs) (suc j) ys h = get_elem?-append_left qs j ys (omega arith)

  set-append_left :
      (qs : List (List A)) (j : ℕ) (v : List A) (ys : List (List A))
      → j < length qs
      → set (qs ++ ys) j v ≡ set qs j v ++ ys
  set-append_left [] j v ys h = absurd (omega arith)
  set-append_left (q ∷ qs) zero v ys h = refl
  set-append_left (q ∷ qs) (suc j) v ys h =
      ap (λ l. q ∷ l) (set-append_left qs j v ys (omega arith))

  -- The task comes from the queues before the last, and the last one stays as it is.
  abbrev pub Spares : Option (Option A × List (List A)) → List (List A) → List A → Type ℓ
  Spares result qs last =
      (r : Option A) × (qs' : List (List A)) × (result ≡ some (r, qs' ++ last ∷ []))
      × Taken (flatten qs) r (flatten qs')
      × (length qs' ≡ length qs)

  steal_round-Spares :
      (q : List A) (j : ℕ) (qs : List (List A)) (last : List A)
      {rest : Option (Option A × List (List A))}
      → j < length qs
      → get_elem? qs j ≡ some q
      → Spares rest qs last
      → Spares (steal_round (some q) j (qs ++ last ∷ []) rest) qs last
  unfolding try_steal
  steal_round-Spares [] j qs last h e ih = ih
  steal_round-Spares (task ∷ q) j qs last h e ih = (
    some (back task q),
    set qs j (pop_back task q),
    ap (λ l. some (some (back task q), l)) (set-append_left qs j (pop_back task q) (last ∷ []) h),
    flatten-take qs j e (last_first task q),
    length-set qs j _,
  )

  steal_loop-Spares :
      (rounds index i : ℕ) (qs : List (List A)) (last : List A)
      → rounds ≤ length qs
      → Spares (steal_loop rounds index i (length qs) (qs ++ last ∷ [])) qs last
  unfolding steal_loop
  steal_loop-Spares zero index i qs last h = (none, qs, refl, Perm.refl _, refl)
  steal_loop-Spares (suc rounds) index i qs last h =
      let ih = steal_loop-Spares rounds index (suc i) qs last (omega arith) in
      let j : ℕ = u32 (index + i + 1) % length qs in
      let all = qs ++ last ∷ [] in
      let rest = steal_loop rounds index (suc i) (length qs) all in
      let below : j < length qs = omega arith in
      let (q, e) = get_elem?-lt qs j below in
      subst (λ o. Spares (steal_round o j all rest) qs last)
        (sym (get_elem?-append_left qs j (last ∷ []) below ∙ e))
        (steal_round-Spares q j qs last below e ih)

  -- Whoever steals, and whatever waits in the last queue, `tryStealTask` ends inside the queues, takes
  -- its task from the other queues, and leaves the last queue as it is.
  pub last_never_stolen :
      (index : ℕ) (qs : List (List A)) (last : List A)
      → Spares (try_steal_task index (qs ++ last ∷ [])) qs last
  unfolding try_steal_task
  last_never_stolen index qs last =
      let rounds : length (qs ++ last ∷ []) - 1 ≡ length qs =
        omega (arith, length-append qs (last ∷ [])) in
      subst (λ n. Spares (steal_loop n index 0 n (qs ++ last ∷ [])) qs last) (sym rounds)
        (steal_loop-Spares (length qs) index 0 qs last (omega arith))
