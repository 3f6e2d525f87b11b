-- ===== src/Coroutine/World.antt =====
-- cpp/c++20/coroutines/coroutine.hpp: coroutine states in memory, and `coroutine_handle` as the
-- address of one.
use cs_learning_notes.Base.{ℕ, suc, Bool, true, false, not, Option, none, some, update, ◌==◌}
pub use cs_learning_notes.Base.Cmd.{Cmd, pure, ◌>>=◌, ◌>>◌, defined}
use cs_learning_notes.Coroutine.Lifetime.{Storage}

-- A C++ `int` that has not overflowed; `negsuc n` is -(n + 1).
pub data ℤ : Type 0 where
  pos : ℕ → ℤ
  negsuc : ℕ → ℤ

abbrev pub null : ℕ
null = 0

-- What a `resume` or `destroy` pointer points to: the functions of `g`, those of `f`, or `noop`.
pub data Code : Type 0 where
  g_code f_code noop_code : Code

-- `task::promise_type`; `result` is not initialised before `return_value`.
pub record Promise : Type 0 where
  pub continuation : ℕ
  pub result : Option ℤ

-- `__g_state`, with the `__coroutine_state_with_promise` that it derives from. A task and its awaiter
-- are the handle `hdl_` that they hold. Of a state of `f` only the part of the base class counts.
pub record State : Type 0 where
  pub resume : Option Code
  pub destroy : Code
  pub promise : Promise
  pub x : ℤ
  pub suspend_point : ℕ
  pub tmp1 : Storage (Unit {0})
  pub tmp2 : Storage ℕ
  pub tmp3 : Storage ℕ
  pub tmp4 : Storage (Unit {0})

-- The states that are allocated; `operator new` gives the address `next`.
pub record World : Type 0 where
  pub states : ℕ → Option State
  pub next : ℕ

abbrev pub M : Type 0 → Type 0
M = Cmd World

abbrev pub load : ℕ → M State
load p w = defined (w.states p) w

-- Assigns to members of a state that is allocated.
abbrev pub store : ℕ → State → M (Unit {0})
store p s w = elim (w.states p) [
  | none ↦ none
  | some _ ↦ some (tt, record w { states = update w.states p (some s) })
]

abbrev pub allocate : State → M ℕ
allocate s w = some (w.next, record { states = update w.states w.next (some s); next = suc w.next })

abbrev pub deallocate : ℕ → M (Unit {0})
deallocate p w = elim (w.states p) [
  | none ↦ none
  | some _ ↦ some (tt, record w { states = update w.states p none })
]

-- `coroutine_handle::done`
unfoldable pub done : ℕ → M Bool
done p = do s ← load p; pure (elim s.resume [ none ↦ true | some c ↦ false ])

-- `coroutine_handle::operator bool`
unfoldable pub is_set : ℕ → Bool
is_set p = not (p == null)
