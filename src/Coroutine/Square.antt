-- ===== src/Coroutine/Square.antt =====
-- cpp/c++20/coroutines/compiler_transform.cpp: the coroutine
--   task g(int x) { int fx = co_await f(x); co_return fx * fx; }
-- as its ramp function, `__g_resume` and `__g_destroy`, and the dispatch of `coroutine_handle` (of
-- coroutine.hpp) to them. `f` is declared there and defined nowhere: a parameter.
pub mod Runs
pub mod Lifetimes
mod Tests
use cs_learning_notes.Base.{
  ℕ, suc, zero, ◌*◌, ◌+◌, ◌^◌, ◌≡◌, Bool, true, false, Option, none, some, ltb, ◌==◌, if◌then◌else◌,
}
use cs_learning_notes.Coroutine.Lifetime.{raw, live, construct_from, destroy, get}
use cs_learning_notes.Coroutine.World.{
  ℤ, pos, negsuc, Code, g_code, f_code, noop_code, State, World, M, pure, ◌>>=◌, ◌>>◌, defined,
  load, store, allocate, deallocate, null,
}
use cs_learning_notes.Coroutine.Task.{
  returns_handle, exec_await_suspend, never_ready, suspend_always_await_suspend,
  awaiter_await_suspend, awaiter_await_resume, final_await_suspend, return_value, destruct,
}

abbrev pub magnitude : ℤ → ℕ
magnitude (pos n) = n
magnitude (negsuc n) = suc n

-- `fx * fx`; undefined if it is no `int`.
unfoldable pub square : ℤ → Option ℤ
square v =
    if ltb (magnitude v * magnitude v) (2 ^ 31)
    then some (pos (magnitude v * magnitude v))
    else none

-- `__g_state(int&&)`
abbrev pub new_state : ℤ → State
new_state x = record {
  resume = some g_code;
  destroy = g_code;
  promise = record { continuation = null; result = none };
  x = x;
  suspend_point = 0;
  tmp1 = raw;
  tmp2 = raw;
  tmp3 = raw;
  tmp4 = raw;
}

-- What the header declares of `f`: its ramp function, and what its states' pointers point to.
pub record Callee : Type 0 where
  pub call : ℤ → M ℕ
  pub resume : ℕ → M (Unit {0})
  pub destroy : ℕ → M (Unit {0})

module _ (f : Callee) where
  -- The part of `__g_resume` from `suspend_point_0` on.
  unfoldable pub resume_0 : ℕ → State → M (Unit {0})
  unfolding exec_await_suspend awaiter_await_suspend
  resume_0 p s = do
    _ ← defined (get s.tmp1)
    tmp1 ← defined (destroy s.tmp1)
    store p (record s { tmp1 = tmp1 })
    task ← f.call s.x
    s' ← load p
    tmp2 ← defined (construct_from task s'.tmp2)
    hdl ← defined (get tmp2)
    tmp3 ← defined (construct_from hdl s'.tmp3)
    store p (record s' { tmp2 = tmp2; tmp3 = tmp3; suspend_point = 1 })
    exec_await_suspend (returns_handle (awaiter_await_suspend hdl p))

  -- From `suspend_point_1` on, with `final_suspend`.
  unfoldable pub resume_1 : (ℕ → M (Unit {0})) → ℕ → State → M (Unit {0})
  unfolding exec_await_suspend awaiter_await_resume final_await_suspend return_value destruct
  resume_1 destroy_handle p s = do
    hdl ← defined (get s.tmp3)
    fx ← awaiter_await_resume hdl
    tmp3 ← defined (destroy s.tmp3)
    task ← defined (get s.tmp2)
    tmp2 ← defined (destroy s.tmp2)
    store p (record s { tmp2 = tmp2; tmp3 = tmp3 })
    destruct destroy_handle task
    s' ← load p
    result ← defined (square fx)
    tmp4 ← defined (construct_from tt s'.tmp4)
    store p (record s' {
      promise = return_value result s'.promise;
      tmp4 = tmp4;
      suspend_point = 2;
      resume = none;
    })
    exec_await_suspend (returns_handle (final_await_suspend p))

  -- `__g_resume`: to resume at any other suspend point is undefined.
  unfoldable pub g_resume : (ℕ → M (Unit {0})) → ℕ → M (Unit {0})
  unfolding resume_0 resume_1
  g_resume destroy_handle p = do
    s ← load p
    if s.suspend_point == 0
        then resume_0 p s
        else (if s.suspend_point == 1 then resume_1 destroy_handle p s else λ w. none)

  -- The switch of `__g_destroy`.
  unfoldable pub teardown : (ℕ → M (Unit {0})) → ℕ → State → M (Unit {0})
  unfolding destruct
  teardown destroy_handle p s =
      if s.suspend_point == 0
      then (do tmp1 ← defined (destroy s.tmp1); store p (record s { tmp1 = tmp1 }))
      else (if s.suspend_point == 1
          then (do
            task ← defined (get s.tmp2)
            tmp2 ← defined (destroy s.tmp2)
            store p (record s { tmp2 = tmp2 })
            destruct destroy_handle task
            s' ← load p
            tmp3 ← defined (destroy s'.tmp3)
            store p (record s' { tmp3 = tmp3 }))
          else (if s.suspend_point == 2
              then (do tmp4 ← defined (destroy s.tmp4); store p (record s { tmp4 = tmp4 }))
              else λ w. none))

  unfoldable pub g_destroy : (ℕ → M (Unit {0})) → ℕ → M (Unit {0})
  g_destroy destroy_handle p = do s ← load p; teardown destroy_handle p s; deallocate p

  -- `coroutine_handle::destroy`, on fuel: a state of `g` destroys the task that it holds.
  unfoldable pub destroy_handle : ℕ → ℕ → M (Unit {0})
  destroy_handle zero p w = none
  destroy_handle (suc fuel) p w =
      let inner = destroy_handle fuel in
      (do
        s ← load p
        elim s.destroy [ g_code ↦ g_destroy inner p | f_code ↦ f.destroy p | noop_code ↦ pure tt ])
        w

  -- `coroutine_handle::resume`; undefined when the coroutine is done.
  unfoldable pub resume_handle : ℕ → ℕ → M (Unit {0})
  unfolding g_resume destroy_handle
  resume_handle fuel p = do
    s ← load p
    code ← defined s.resume
    elim code [
      | g_code ↦ g_resume (destroy_handle fuel) p
      | f_code ↦ f.resume p
      | noop_code ↦ pure tt
    ]

  -- `__ramp_func<__g_state, task, int>`, with `construct_and_get_initial_awaiter`.
  unfoldable pub ramp : ℤ → M ℕ
  unfolding exec_await_suspend
  ramp x = do
    p ← allocate (new_state x)
    s ← load p
    tmp1 ← defined (construct_from tt s.tmp1)
    store p (record s { tmp1 = tmp1 })
    _ ← defined (get tmp1)
    if never_ready then resume_handle 0 p else exec_await_suspend suspend_always_await_suspend
    pure p
