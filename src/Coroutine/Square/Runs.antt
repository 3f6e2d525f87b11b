-- ===== src/Coroutine/Square/Runs.antt =====
-- What resuming and destroying the coroutine `g` of cpp/c++20/coroutines/compiler_transform.cpp does at
-- each of its suspend points.
use cs_learning_notes.Base.{
  ℕ, suc, ◌≡◌, ◌≢◌, refl, ◌⊎◌, inl, inr, ◌∙◌, Bool, true, false, none, some, arith, update, ◌==◌,
  if◌then◌else◌,
}
use cs_learning_notes.Coroutine.Lifetime.{raw, live, destroy}
use cs_learning_notes.Coroutine.World.{ℤ, f_code, State, World, M, done, load, defined, ◌>>=◌, null}
use cs_learning_notes.Coroutine.Square.{
  Callee, new_state, square, ramp, resume_handle, destroy_handle, resume_1, g_resume,
}

-- Where `g` is suspended: before its body, in `co_await f(x)` with the task `h` of that call, or at its
-- end with its result.
pub data Point : Type 0 where
  at_start : Point
  at_await : (h : ℕ) → Point
  at_end : (r : ℤ) → Point

abbrev pub state_at : ℤ → ℕ → Point → State
state_at x k at_start = record (new_state x) {
  promise = record { continuation = k; result = none };
  tmp1 = live tt;
}
state_at x k (at_await h) = record (new_state x) {
  promise = record { continuation = k; result = none };
  suspend_point = 1;
  tmp2 = live h;
  tmp3 = live h;
}
state_at x k (at_end r) = record (new_state x) {
  resume = none;
  promise = record { continuation = k; result = some r };
  suspend_point = 2;
  tmp4 = live tt;
}

abbrev pub at_its_end : Point → Bool
at_its_end (at_end r) = true
at_its_end _ = false

-- What is relied on of `f`: a call allocates one state and stops before its body, and the state's
-- `destroy` gives it back.
pub record Behaves (f : Callee) (child : ℤ → State) : Type 0 where
  pub calls :
      (x : ℤ) (w : World)
      → f.call x w
        ≡ some
            (w.next, record { states = update w.states w.next (some (child x)); next = suc w.next })
  pub destroys :
      (h : ℕ) (w : World) (s : State)
      → w.states h ≡ some s
      → f.destroy h w ≡ some (tt, record w { states = update w.states h none })
  pub child_destroy : (x : ℤ) → (child x).destroy ≡ f_code

-- The states after `g` has gone on with the result of the task `h`.
abbrev after_await : ℤ → ℕ → ℕ → ℕ → ℤ → World → World
after_await x k p h r w = record w {
  states =
      update
        (update
          (update w.states p (some (record (state_at x k (at_await h)) { tmp2 = raw; tmp3 = raw })))
          h none)
        p (some (state_at x k (at_end r)));
}

module _ {f : Callee} {child : ℤ → State} (b : Behaves f child) where
  -- The ramp function makes a state that is suspended before its body, and changes no other.
  pub ramp_suspends :
      (x : ℤ) (w : World)
      → (w' : World) × (ramp f x w ≡ some (w.next, w'))
        × ((q : ℕ)
            → w'.states q ≡ (if w.next == q then some (state_at x null at_start) else w.states q))
        × (w'.next ≡ suc w.next)
  unfolding ramp
  ramp_suspends x w = (
    record {
      states =
          update (update w.states w.next (some (new_state x))) w.next
            (some (state_at x null at_start));
      next = suc w.next;
    },
    ground arith,
    λ q. ground arith,
    refl,
  )

  -- The first resume calls `f` and suspends `g` in the `co_await`. The state of `f` is left as the call
  -- made it: nobody resumes it, and its promise is not told to continue with `g`.
  pub resume_start :
      (n : ℕ) (x : ℤ) (k p : ℕ) (w : World)
      → w.states p ≡ some (state_at x k at_start)
      → p ≢ w.next
      → (w' : World) × (resume_handle f n p w ≡ some (tt, w'))
        × ((q : ℕ)
            → w'.states q ≡ (
                if p == q
                then some (state_at x k (at_await w.next))
                else (if w.next == q then some (child x) else w.states q)))
  unfolding resume_handle
  resume_start n x k p w e ne =
      let s₁ : State = record (state_at x k at_start) { tmp1 = raw } in
      let w₁ : World = record w { states = update w.states p (some s₁) } in
      let w₂ : World = record {
        states = update w₁.states w.next (some (child x));
        next = suc w.next;
      } in
      let there : w₂.states p ≡ some s₁ = ground arith in
      (
        record w₂ { states = update w₂.states p (some (state_at x k (at_await w.next))) },
        ground (arith, b.calls x w₁),
        λ q. ground arith,
      )

  resume_1_lem :
      (destroy : ℕ → M (Unit {0})) (x v r : ℤ) (k p h : ℕ) (c : State) (w : World)
      → w.states p ≡ some (state_at x k (at_await h))
      → w.states h ≡ some c
      → c.promise.result ≡ some v
      → square v ≡ some r
      → p ≢ h
      → h ≢ null
      → ((w₁ : World)
          → w₁.states h ≡ some c
          → destroy h w₁ ≡ some (tt, record w₁ { states = update w₁.states h none }))
      → resume_1 f destroy p (state_at x k (at_await h)) w ≡ some (tt, after_await x k p h r w)
  unfolding resume_1
  resume_1_lem destroy x v r k p h c w e eh result sq ne nn d =
      let s₁ : State = record (state_at x k (at_await h)) { tmp2 = raw; tmp3 = raw } in
      let w₁ : World = record w { states = update w.states p (some s₁) } in
      let w₂ : World = record w { states = update w₁.states h none } in
      let there : w₁.states h ≡ some c = ground arith in
      let still : w₂.states p ≡ some s₁ = ground arith in ground (arith, d w₁)

  pub destroy_child :
      (n h : ℕ) (c : State) (w : World)
      → w.states h ≡ some c
      → c.destroy ≡ f_code
      → destroy_handle f (suc n) h w ≡ some (tt, record w { states = update w.states h none })
  unfolding destroy_handle
  destroy_child n h c w e code = ground (arith, b.destroys h w c)

  await_dispatch :
      (n : ℕ) (x : ℤ) (k p h : ℕ) (w : World)
      → w.states p ≡ some (state_at x k (at_await h))
      → resume_handle f n p w ≡ resume_1 f (destroy_handle f n) p (state_at x k (at_await h)) w
  unfolding resume_handle
  await_dispatch n x k p h w e =
      rw (e, load, defined, ◌>>=◌) (rw (e, g_resume, load, defined, ◌>>=◌) refl)

  -- The second resume, when the task that `g` awaits has the result `v`, gives that state back and
  -- suspends `g` at its end with the square of `v`.
  pub resume_await :
      (n : ℕ) (x v r : ℤ) (k p h : ℕ) (c : State) (w : World)
      → w.states p ≡ some (state_at x k (at_await h))
      → w.states h ≡ some c
      → c.destroy ≡ f_code
      → c.promise.result ≡ some v
      → square v ≡ some r
      → p ≢ h
      → h ≢ null
      → (w' : World) × (resume_handle f (suc n) p w ≡ some (tt, w'))
        × ((q : ℕ)
            → w'.states q ≡ (
                if p == q
                then some (state_at x k (at_end r))
                else (if h == q then none else w.states q)))
  resume_await n x v r k p h c w e eh code result sq ne nn = (
    after_await x k p h r w,
    await_dispatch (suc n) x k p h w e
        ∙ resume_1_lem (destroy_handle f (suc n)) x v r k p h c w e eh result sq ne nn
            (λ w₁ e₁. destroy_child n h c w₁ e₁ code),
    λ q. ground arith,
  )

  -- A coroutine at its end says that it is done, and at no other point; to resume it there is
  -- undefined.
  pub done_at_end :
      (n : ℕ) (x : ℤ) (k p : ℕ) (pt : Point) (w : World)
      → w.states p ≡ some (state_at x k pt)
      → (done p w ≡ some (at_its_end pt, w))
        × ((at_its_end pt ≡ false) ⊎ (resume_handle f n p w ≡ none))
  unfolding done resume_handle
  done_at_end n x k p at_start w e = (rw (e, load, defined, ◌>>=◌) refl, inl refl)
  done_at_end n x k p (at_await h) w e = (rw (e, load, defined, ◌>>=◌) refl, inl refl)
  done_at_end n x k p (at_end r) w e =
      (rw (e, load, defined, ◌>>=◌) refl, inr (rw (e, load, defined, ◌>>=◌) refl))
