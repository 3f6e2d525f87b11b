-- ===== src/Coroutine/Handle.antt =====
-- cpp/c++20/coroutines/coroutine.hpp: `coroutine_handle` without its calls: conversions, comparison, the
-- way from a promise back to its state, and the handle of the coroutine that does nothing.
use cs_learning_notes.Base.{
  ℕ, suc, ◌+◌, ◌-◌, ◌≡◌, ◌≢◌, ◌↔◌, Bool, true, false, Option, none, some, arith, ◌==◌,
  if◌then◌else◌,
}
use Prim.Native.Nat.{compare, Ordering}
use cs_learning_notes.Coroutine.World.{State, World, M, pure, null, noop_code, done, is_set}
use cs_learning_notes.Coroutine.Square.{Callee, resume_handle, destroy_handle}

-- `address` and `from_address`; a handle is the address that it holds.
unfoldable pub address : ℕ → ℕ
address h = h

pub from_address : ℕ → ℕ
from_address a = a

-- A handle that is made or assigned from `nullptr`
pub null_handle : ℕ
null_handle = null

-- The conversion to `coroutine_handle<>`
unfoldable pub to_handle : ℕ → ℕ
unfolding address from_address
to_handle h = from_address (address h)

-- `operator==` and `operator<=>`
pub handle_eq : ℕ → ℕ → Bool
handle_eq x y = x == y

pub handle_compare : ℕ → ℕ → Ordering
handle_compare x y = compare x y

-- Where the promise lies in a state is `offsetof(__state_t, promise)`, which the compiler chooses.
module _ (offset : ℕ) where
  -- The address of `promise()`; undefined for a null handle.
  pub promise : ℕ → Option ℕ
  promise h = if h == null then none else some (h + offset)

  -- `from_promise`, in bytes
  pub from_promise : ℕ → ℕ
  from_promise p = p - offset

  -- A handle is found again from the promise of its state, by whatever conversions it went.
  pub from_promise-promise :
      (h p : ℕ) → promise (to_handle h) ≡ some p → handle_eq (from_promise p) h ≡ true
  unfolding promise from_promise to_handle handle_eq
  from_promise-promise h p e = ground arith

-- `operator bool` is false for a null handle, and for no other.
pub null_handle_lem : (h : ℕ) → (is_set h ≡ false) ↔ (h ≡ null_handle)
unfolding is_set null_handle
null_handle_lem h = (λ e. ground arith, λ e. ground arith)

-- `__coroutine_state::noop_coroutine_state`: of it only the part of the base class is there, so the rest
-- is taken as given.
abbrev pub noop_state : State → State
noop_state rest = record rest { resume = some noop_code; destroy = noop_code }

-- `coroutine_handle<noop_coroutine_promise>`
pub noop_resume : M (Unit {0})
noop_resume = pure tt

pub noop_destroy : M (Unit {0})
noop_destroy = pure tt

pub noop_done : Bool
noop_done = false

pub noop_is_set : Bool
noop_is_set = true

-- The handle of the coroutine that does nothing, converted to `coroutine_handle<>`, does at run time
-- through the pointers in its state what the functions of its own class do: to resume it and to
-- destroy it change nothing, it is never done, and it is not null.
pub noop_erased :
    (f : Callee) (fuel p : ℕ) (rest : State) (w : World)
    → w.states p ≡ some (noop_state rest)
    → p ≢ null
    → (resume_handle f fuel (to_handle p) w ≡ noop_resume w)
      × (destroy_handle f (suc fuel) (to_handle p) w ≡ noop_destroy w)
      × (done (to_handle p) w ≡ some (noop_done, w))
      × (is_set (to_handle p) ≡ noop_is_set)
unfolding resume_handle destroy_handle done is_set noop_resume noop_destroy noop_done noop_is_set
    to_handle
noop_erased f fuel p rest w e ne = (ground arith, ground arith, ground arith, ground arith)
