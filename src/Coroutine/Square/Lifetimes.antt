-- ===== src/Coroutine/Square/Lifetimes.antt =====
-- What `__g_destroy` of cpp/c++20/coroutines/compiler_transform.cpp destroys at each suspend point.
use cs_learning_notes.Base.{
  ℕ, suc, ◌≡◌, ◌≢◌, refl, ◌∙◌, Bool, false, none, some, arith, update, ◌==◌, if◌then◌else◌,
}
use cs_learning_notes.Coroutine.Lifetime.{raw}
use cs_learning_notes.Coroutine.World.{
  ℤ, f_code, State, World, load, defined, ◌>>=◌, ◌>>◌, deallocate, null,
}
use cs_learning_notes.Coroutine.Square.{Callee, destroy_handle, teardown, g_destroy}
use cs_learning_notes.Coroutine.Square.Runs.{
  Point, at_start, at_await, at_end, state_at, Behaves, destroy_child,
}

-- The state with no object left in its storages.
abbrev pub bare_at : ℤ → ℕ → Point → State
bare_at x k pt = record (state_at x k pt) { tmp1 = raw; tmp2 = raw; tmp3 = raw; tmp4 = raw }

-- The task that is awaited there is one that `f` made.
abbrev pub HasTask : World → ℕ → Point → Type 0
HasTask w p (at_await h) =
    (c : State) × (w.states h ≡ some c) × (c.destroy ≡ f_code) × (p ≢ h) × (h ≢ null)
HasTask w p _ = Unit {0}

-- The address is that of the task which is awaited there.
abbrev pub task_of : Point → ℕ → Bool
task_of (at_await h) q = h == q
task_of _ q = false

-- The states after the objects of the state at `p` are destroyed.
abbrev torn : ℤ → ℕ → ℕ → Point → World → World
torn x k p at_start w = record w { states = update w.states p (some (bare_at x k at_start)) }
torn x k p (at_end r) w = record w { states = update w.states p (some (bare_at x k (at_end r))) }
torn x k p (at_await h) w = record w {
  states =
      update
        (update (update w.states p (some (record (state_at x k (at_await h)) { tmp2 = raw }))) h
          none)
        p (some (bare_at x k (at_await h)));
}

module _ {f : Callee} {child : ℤ → State} (b : Behaves f child) where
  -- The switch destroys the objects that live at the suspend point, each once, and no other.
  teardown_lem :
      (n : ℕ) (x : ℤ) (k p : ℕ) (pt : Point) (w : World)
      → w.states p ≡ some (state_at x k pt)
      → HasTask w p pt
      → teardown f (destroy_handle f (suc n)) p (state_at x k pt) w ≡ some (tt, torn x k p pt w)
  unfolding teardown
  teardown_lem n x k p at_start w e t = ground arith
  teardown_lem n x k p (at_end r) w e t = ground arith
  teardown_lem n x k p (at_await h) w e (c, eh, code, ne, nn) =
      let s₁ : State = record (state_at x k (at_await h)) { tmp2 = raw } in
      let w₁ : World = record w { states = update w.states p (some s₁) } in
      let w₂ : World = record w { states = update w₁.states h none } in
      let there : w₁.states h ≡ some c = ground arith in
      let still : w₂.states p ≡ some s₁ = ground arith in
      ground (arith, destroy_child b n h c w₁ there code)

  torn_at :
      (x : ℤ) (k p : ℕ) (pt : Point) (w : World)
      → (torn x k p pt w).states p ≡ some (bare_at x k pt)
  torn_at x k p at_start w = ground arith
  torn_at x k p (at_await h) w = ground arith
  torn_at x k p (at_end r) w = ground arith

  torn_off :
      (x : ℤ) (k p q : ℕ) (pt : Point) (w : World)
      → HasTask w p pt
      → p ≢ q
      → (torn x k p pt w).states q ≡ (if task_of pt q then none else w.states q)
  torn_off x k p q at_start w t ne = ground arith
  torn_off x k p q (at_await h) w t ne = ground arith
  torn_off x k p q (at_end r) w t ne = ground arith

  dispatch :
      (n : ℕ) (x : ℤ) (k p : ℕ) (pt : Point) (w : World)
      → w.states p ≡ some (state_at x k pt)
      → destroy_handle f (suc n) p w ≡ g_destroy f (destroy_handle f n) p w
  unfolding destroy_handle
  dispatch n x k p at_start w e = rw (e, load, defined, ◌>>=◌) refl
  dispatch n x k p (at_await h) w e = rw (e, load, defined, ◌>>=◌) refl
  dispatch n x k p (at_end r) w e = rw (e, load, defined, ◌>>=◌) refl

  then_free :
      (n : ℕ) (x : ℤ) (k p : ℕ) (pt : Point) (w : World)
      → w.states p ≡ some (state_at x k pt)
      → HasTask w p pt
      → g_destroy f (destroy_handle f (suc n)) p w ≡ deallocate p (torn x k p pt w)
  unfolding g_destroy
  then_free n x k p pt w e t =
      rw (e, load, defined, ◌>>=◌) (rw (teardown_lem n x k p pt w e t, ◌>>◌, ◌>>=◌) refl)

  -- To destroy a suspended `g` gives its state back, and with it the state of the task that it awaits,
  -- and touches no other; before that every object in its storages is destroyed.
  pub destroy_frees :
      (n : ℕ) (x : ℤ) (k p : ℕ) (pt : Point) (w : World)
      → w.states p ≡ some (state_at x k pt)
      → HasTask w p pt
      → (w₁ w₂ : World) × (teardown f (destroy_handle f (suc n)) p (state_at x k pt) w
          ≡ some (tt, w₁))
        × (w₁.states p ≡ some (bare_at x k pt))
        × (destroy_handle f (suc (suc n)) p w ≡ some (tt, w₂))
        × ((q : ℕ)
            → w₂.states q ≡ (if p == q then none else (if task_of pt q then none else w.states q)))
  destroy_frees n x k p pt w e t = (
    torn x k p pt w,
    record (torn x k p pt w) { states = update (torn x k p pt w).states p none },
    teardown_lem n x k p pt w e t,
    torn_at x k p pt w,
    dispatch (suc n) x k p pt w e
        ∙ then_free n x k p pt w e t
        ∙ rw (torn_at x k p pt w, deallocate) refl,
    λ q. ground (arith, torn_off x k p q pt w t),
  )
