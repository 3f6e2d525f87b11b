-- ===== src/Coroutine/Task.antt =====
-- cpp/c++20/coroutines/task.hpp: `task`, the handle that it owns, and its awaiters.
pub mod Assignment
use cs_learning_notes.Base.{ℕ, Bool, false, none, some, ◌==◌, if◌then◌else◌}
use cs_learning_notes.Coroutine.World.{
  ℤ, Promise, M, pure, ◌>>=◌, ◌>>◌, defined, load, store, null, is_set,
}

-- How `__exec_await_suspend` finds the result of `await_suspend`.
pub data AwaitSuspend : Type 0 where
  returns_void : M (Unit {0}) → AwaitSuspend
  returns_handle : M ℕ → AwaitSuspend

-- `__exec_await_suspend` of coroutine.hpp, as its text is parsed: the last `else` belongs to the `if`
-- that calls an `await_suspend` into `bool`. So nothing is done for one into a handle; and one into
-- `bool`, which is not in the model, is refused by the `static_assert` in that branch.
unfoldable pub exec_await_suspend : AwaitSuspend → M (Unit {0})
exec_await_suspend (returns_void call) = call
exec_await_suspend (returns_handle call) = pure tt

-- `suspend_always`, and `await_ready` of `task::awaiter` and `final_awaiter`.
abbrev pub never_ready : Bool
never_ready = false

abbrev pub suspend_always_await_suspend : AwaitSuspend
suspend_always_await_suspend = returns_void (pure tt)

-- `task::awaiter::await_suspend`: the awaiting coroutine `h` is to go on when the task `hdl` is done.
unfoldable pub awaiter_await_suspend : ℕ → ℕ → M ℕ
awaiter_await_suspend hdl h = do
  s ← load hdl
  store hdl (record s { promise = record (s.promise) { continuation = h } })
  pure hdl

-- `task::awaiter::await_resume`; to read `result` before it is set is undefined.
unfoldable pub awaiter_await_resume : ℕ → M ℤ
awaiter_await_resume hdl = do s ← load hdl; defined s.promise.result

-- `final_awaiter::await_suspend`
unfoldable pub final_await_suspend : ℕ → M ℕ
final_await_suspend h = do s ← load h; pure s.promise.continuation

-- `promise_type::return_value`
unfoldable pub return_value : ℤ → Promise → Promise
return_value v p = record p { result = some v }

-- `task::~task`, given what `coroutine_handle::destroy` does.
unfoldable pub destruct : (ℕ → M (Unit {0})) → ℕ → M (Unit {0})
unfolding is_set
destruct destroy hdl = if is_set hdl then destroy hdl else pure tt

-- `task(task&& other)`: the handle of the new task, and what is left in `other`.
unfoldable pub move_construct : ℕ → ℕ × ℕ
move_construct other = (other, null)

-- `task::operator=(task&&)`: the handles of both after it. The path that takes the handle over ends
-- without a `return`.
unfoldable pub move_assign : (ℕ → M (Unit {0})) → ℕ → ℕ → M (ℕ × ℕ)
unfolding destruct
move_assign destroy hdl other =
    if hdl == other then pure (hdl, other) else (destruct destroy hdl >> λ w. none)
