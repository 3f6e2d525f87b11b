-- ===== src/Coroutine/Task/Assignment.antt =====
-- `task::operator=(task&&)` of cpp/c++20/coroutines/task.hpp.
use cs_learning_notes.Base.{ℕ, ◌≡◌, ◌≢◌, none, arith}
use cs_learning_notes.Coroutine.World.{World, M}
use cs_learning_notes.Coroutine.Task.{move_assign}

-- A move assignment from another task is undefined, whatever the two hold: its path ends without a
-- `return`.
pub move_assign_undefined :
    (destroy : ℕ → M (Unit {0})) (hdl other : ℕ) (w : World)
    → hdl ≢ other
    → move_assign destroy hdl other w ≡ none
unfolding move_assign
move_assign_undefined destroy hdl other w ne = ground arith
