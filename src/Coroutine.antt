-- ===== src/Coroutine.antt =====
-- cpp/c++20/coroutines: a coroutine as the compiler would write it. `manual_lifetime.hpp` is Lifetime,
-- the coroutine states of `coroutine.hpp` are World, `task.hpp` is Task, and `compiler_transform.cpp`
-- is Square (its coroutine `g` awaits `f(x)` and returns the square of what it gets).
pub mod Lifetime
pub mod World
pub mod Task
pub mod Square
pub mod Handle
