-- ===== src/BankAccount.antt =====
-- coursework-review/eecs482/race_condition.cpp: two threads that withdraw from one account. The calls on
-- the account hold its mutex throughout and are one step each. A `double` is a natural number: the
-- amounts there are whole, and no sum of them is rounded.
pub mod Outcome
mod Tests
use cs_learning_notes.Base.{ℕ, ◌-◌, Bool, true, false, List, [], ◌∷◌, leb, ltb, if◌then◌else◌}

-- Where a thread stands in `performTransactions`: `saw` holds its local `balance`, and `finished` says
-- whether it has printed that it withdrew.
pub data Pc : Type 0 where
  at_start : Pc
  saw : (balance : ℕ) → Pc
  withdrew : Pc
  finished : (printed : Bool) → Pc

-- `BankAccount::withdraw`, on the balance
unfoldable pub withdraw : ℕ → ℕ → ℕ
withdraw amount balance = if leb amount balance then balance - amount else balance

-- The next step of a thread, on the balance of the account.
unfoldable pub perform_step : Pc → ℕ → Pc × ℕ
unfolding withdraw
perform_step at_start balance = (saw balance, balance)
perform_step (saw b) balance =
    if ltb 500 b then (withdrew, withdraw 500 balance) else (finished false, balance)
perform_step withdrew balance = (finished true, balance)
perform_step (finished printed) balance = (finished printed, balance)

-- `main` between the start of its two threads and their end.
pub record Main : Type 0 where
  pub t1 : Pc
  pub t2 : Pc
  pub balance : ℕ

abbrev pub start : Main
start = record { t1 = at_start; t2 = at_start; balance = 1000 }

-- A step of the first thread, or of the second.
unfoldable pub main_step : Bool → Main → Main
main_step true m = let (pc, b) = perform_step m.t1 m.balance in record m { t1 = pc; balance = b }
main_step false m = let (pc, b) = perform_step m.t2 m.balance in record m { t2 = pc; balance = b }

-- The threads take their steps in the order of the schedule.
unfoldable pub run : List Bool → Main → Main
run [] m = m
run (i ∷ schedule) m = run schedule (main_step i m)
