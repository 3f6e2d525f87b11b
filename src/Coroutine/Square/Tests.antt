-- ===== src/Coroutine/Square/Tests.antt =====
-- The coroutine `g` with a concrete `f`, whose states hold the result 3 from the start.
use cs_learning_notes.Base.{ℕ, ◌≡◌, refl, none, some, arith, update, ◌==◌, if◌then◌else◌}
use cs_learning_notes.Coroutine.World.{
  ℤ, pos, f_code, State, World, pure, allocate, deallocate, null,
}
use cs_learning_notes.Coroutine.Square.{
  Callee, new_state, square, resume_handle, destroy_handle, teardown,
}
use cs_learning_notes.Coroutine.Square.Runs.{
  at_start, at_await, at_end, state_at, Behaves, resume_start, resume_await,
}
use cs_learning_notes.Coroutine.Square.Lifetimes.{bare_at, task_of, destroy_frees}

abbrev child : ℤ → State
child x = record (new_state x) {
  resume = some f_code;
  destroy = f_code;
  promise = record { continuation = null; result = some (pos 3) };
}

abbrev stub : Callee
stub = record { call = λ x. allocate (child x); resume = λ p. pure tt; destroy = deallocate }

stub-Behaves : Behaves stub child
stub-Behaves = record {
  calls = λ x w. refl;
  destroys = λ h w s e. rw (e, deallocate) refl;
  child_destroy = λ x. refl;
}

abbrev no_states : World
no_states = record { states = λ _. none; next = 1 }

abbrev started : World
started = record { states = update (λ _. none) 1 (some (state_at (pos 4) null at_start)); next = 2 }

abbrev awaiting : World
awaiting = record {
  states =
      update (update (λ _. none) 1 (some (state_at (pos 4) null (at_await 2)))) 2
        (some (child (pos 4)));
  next = 3;
}

resume_start_example :
    (w' : World) × (resume_handle stub 0 1 started ≡ some (tt, w'))
    × ((q : ℕ)
        → w'.states q ≡ (
            if 1 == q
            then some (state_at (pos 4) null (at_await 2))
            else (if 2 == q then some (child (pos 4)) else started.states q)))
resume_start_example = resume_start stub-Behaves 0 (pos 4) null 1 started refl (omega arith)

square_three : square (pos 3) ≡ some (pos 9)
unfolding square
square_three = refl

resume_await_example :
    (w' : World) × (resume_handle stub 1 1 awaiting ≡ some (tt, w'))
    × ((q : ℕ)
        → w'.states q ≡ (
            if 1 == q
            then some (state_at (pos 4) null (at_end (pos 9)))
            else (if 2 == q then none else awaiting.states q)))
resume_await_example =
    resume_await stub-Behaves 0 (pos 4) (pos 3) (pos 9) null 1 2 (child (pos 4)) awaiting refl refl
      refl refl square_three (omega arith) (omega arith)

destroy_frees_example :
    (w₁ w₂ : World) × (teardown stub
        (destroy_handle stub 1)
        1
        (state_at (pos 4) null (at_await 2))
        awaiting
      ≡ some (tt, w₁))
    × (w₁.states 1 ≡ some (bare_at (pos 4) null (at_await 2)))
    × (destroy_handle stub 2 1 awaiting ≡ some (tt, w₂))
    × ((q : ℕ)
        → w₂.states q
          ≡ (if 1 == q then none else (if task_of (at_await 2) q then none else awaiting.states q)))
destroy_frees_example =
    destroy_frees stub-Behaves 0 (pos 4) null 1 (at_await 2) awaiting refl
      (child (pos 4), refl, refl, omega arith, omega arith)
