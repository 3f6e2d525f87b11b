-- ===== src/Base/Cmd.antt =====
-- Computations on a state, for the components that run one operation after another.
use Prim.Native.Nat.{ℕ, zero, suc}
use mathlib.Core.List.{List, [], ◌∷◌}
use mathlib.Core.Option.{Option, none, some}

-- `none` is undefined behaviour.
abbrev pub Cmd : Type 0 → Type 0 → Type 0
Cmd S A = S → Option (A × S)

abbrev pub pure : {S A : Type 0} → A → Cmd S A
pure a s = some (a, s)

infixl 5 ◌>>=◌ ◌>>◌
abbrev pub ◌>>=◌ : {S A B : Type 0} → Cmd S A → (A → Cmd S B) → Cmd S B
◌>>=◌ m f s = elim (m s) [ none ↦ none | some (a, s') ↦ f a s' ]

abbrev pub ◌>>◌ : {S B : Type 0} → Cmd S (Unit {0}) → Cmd S B → Cmd S B
m >> k = m >>= λ _. k

-- Undefined behaviour if there is no value.
abbrev pub defined : {S A : Type 0} → Option A → Cmd S A
defined none s = none
defined (some a) s = some (a, s)

-- The results of `m`, called again and again until it has none, with fuel for so many calls.
unfoldable pub collect : {S A : Type 0} → ℕ → Cmd S (Option A) → Cmd S (List A)
collect zero m s = none
collect (suc fuel) m s = elim (m s) [
  | none ↦ none
  | some (none, s') ↦ some ([], s')
  | some (some a, s') ↦ (collect fuel m >>= λ rest. pure (a ∷ rest)) s'
]
